-- ===== src/Template/Fuel.antt =====
-- The fuel of the loop that parses a component (src/template.rs).
use byssus.Base.{
  nat_eq, ℕ, zero, suc, ◌+◌, ◌≤◌, ◌≡◌, refl, ap, ◌∙◌, Bool, Option, none, some, List, [], ◌∷◌, ◌++◌,
  length, length-append, Result, ok, err, Text, arith,
}
use byssus.Template.{
  TemplateError, Piece, find_brace, push_literal, Placed, placed, refused, place, parse_rest,
  parse_component,
}
use byssus.Template.Shown.{Splits, find_brace-Splits, Places, place-Places}

-- More fuel changes nothing for a text of at most this length.
abbrev Enough : ℕ → Bool → Type 0
Enough fuel allow =
    (pieces : List Piece) (offset : ℕ) (rest : Text)
    → length rest ≤ fuel
    → parse_rest (suc fuel) allow pieces offset rest ≡ parse_rest fuel allow pieces offset rest

placed-Enough :
    (fuel : ℕ) (allow : Bool) (pieces : List Piece) (offset : ℕ) (rest a tail : Text) (p : Placed)
    → Enough fuel allow
    → length rest ≤ suc fuel
    → a ++ tail ≡ rest
    → Places allow tail p
    → ◌≡◌ {A = Result TemplateError (List Piece)}
        (elim p [
          | refused error ↦ err error
          | placed piece n after ↦
              parse_rest
                (suc fuel)
                allow
                (push_literal pieces a ++ (piece ∷ []))
                (offset + length a + n)
                after
        ])
        (elim p [
          | refused error ↦ err error
          | placed piece n after ↦
              parse_rest fuel allow
                (push_literal pieces a ++ (piece ∷ []))
                (offset + length a + n)
                after
        ])
placed-Enough fuel allow pieces offset rest a tail (refused x) k m e h = refl
placed-Enough fuel allow pieces offset rest a tail (placed piece n after) k m e h =
    k (push_literal pieces a ++ (piece ∷ [])) (offset + length a + n) after
      (omega (arith, m, h.1, length-append a tail, ap length e))

found-Enough :
    (fuel : ℕ) (allow : Bool) (pieces : List Piece) (offset : ℕ) (rest : Text)
    (o : Option (Text × Text))
    → Enough fuel allow
    → length rest ≤ suc fuel
    → Splits rest o
    → ◌≡◌ {A = Result TemplateError (List Piece)}
        (elim o [
          | none ↦ ok (push_literal pieces rest)
          | some e ↦ elim (place allow (offset + length e.0) e.1) [
            | refused error ↦ err error
            | placed piece n after ↦
                parse_rest
                  (suc fuel)
                  allow
                  (push_literal pieces e.0 ++ (piece ∷ []))
                  (offset + length e.0 + n)
                  after
          ]
        ])
        (elim o [
          | none ↦ ok (push_literal pieces rest)
          | some e ↦ elim (place allow (offset + length e.0) e.1) [
            | refused error ↦ err error
            | placed piece n after ↦
                parse_rest fuel allow
                  (push_literal pieces e.0 ++ (piece ∷ []))
                  (offset + length e.0 + n)
                  after
          ]
        ])
found-Enough fuel allow pieces offset rest none k m h = refl
found-Enough fuel allow pieces offset rest (some e) k m h =
    placed-Enough fuel allow pieces offset rest e.0 e.1 (place allow (offset + length e.0) e.1) k m
      h.0 (place-Places allow (offset + length e.0) e.1)

-- The fuel that `parse_component` gives is enough: more of it changes nothing.
parse_rest-Enough : (fuel : ℕ) (allow : Bool) → Enough fuel allow
unfolding parse_rest
parse_rest-Enough zero allow pieces offset [] h = refl
parse_rest-Enough zero allow pieces offset (c ∷ rest) h = absurd (omega (arith, h))
parse_rest-Enough (suc fuel) allow pieces offset rest h =
    found-Enough fuel allow pieces offset rest (find_brace rest) (parse_rest-Enough fuel allow) h
      (find_brace-Splits rest)

-- Any fuel from the length of the component on gives what `parse_component` gives.
pub parse_component_fuel :
    (extra : ℕ) (allow : Bool) (offset : ℕ) (component : Text)
    → parse_rest (extra + length component) allow [] offset component
      ≡ parse_component component offset allow
unfolding parse_component
parse_component_fuel zero allow offset component =
    let z : 0 + length component ≡ length component = omega arith in rw z refl
parse_component_fuel (suc extra) allow offset component =
    let z : suc extra + length component ≡ suc (extra + length component) = omega arith in
    rw z (
      parse_rest-Enough (extra + length component) allow [] offset component (omega arith)
      ∙ parse_component_fuel extra allow offset component)
