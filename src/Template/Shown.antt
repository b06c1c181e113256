-- ===== src/Template/Shown.antt =====
-- The text of a parsed component (src/template.rs).
use mathlib.Core.Path.{subst}
use byssus.Base.{
  if◌then◌else◌, ◌||◌, ◌==◌, nat_eq, ℕ, zero, suc, ◌+◌, ◌<◌, ◌≡◌, refl, sym, ap, ◌∙◌, Bool, true,
  false, Option, none, some, List, [], ◌∷◌, ◌++◌, length, length-append, append_nil, append_assoc,
  All, All-snoc, Yields, Result, ok, err, Text, strip_prefix, arith,
}
use byssus.Template.{
  TemplateError, Piece, literal, level, placeholder, group_placeholder, subgroup_placeholder,
  find_brace, push_literal, Placed, placed, refused, place, place_name, place_level, parse_rest,
  parse_component,
}

abbrev pub show_piece : Piece → Text
show_piece (literal s) = s
show_piece Piece.name = placeholder
show_piece (level zero) = group_placeholder
show_piece (level (suc l)) = subgroup_placeholder

abbrev pub show_pieces : List Piece → Text
show_pieces [] = []
show_pieces (p ∷ ps) = show_piece p ++ show_pieces ps

show_pieces-append :
    (ps qs : List Piece) → show_pieces (ps ++ qs) ≡ show_pieces ps ++ show_pieces qs
show_pieces-append [] qs = refl
show_pieces-append (p ∷ ps) qs =
    ap (λ s. show_piece p ++ s) (show_pieces-append ps qs)
    ∙ sym (append_assoc (show_piece p) (show_pieces ps) (show_pieces qs))

show_pieces-push_literal :
    (ps : List Piece) (s : Text) → show_pieces (push_literal ps s) ≡ show_pieces ps ++ s
show_pieces-push_literal ps [] = sym (append_nil (show_pieces ps))
show_pieces-push_literal ps (c ∷ s) =
    show_pieces-append ps (literal (c ∷ s) ∷ [])
    ∙ ap (λ t. show_pieces ps ++ t) (append_nil (c ∷ s))

strip_prefix-append : (p s r : Text) → strip_prefix p s ≡ some r → p ++ r ≡ s
strip_prefix-append [] s r h = ground arith
strip_prefix-append (x ∷ p) [] r h = absurd (ground arith)
strip_prefix-append (x ∷ p) (c ∷ s) r h = ground (arith, strip_prefix-append p s r)

-- What stands before a brace, and the rest.
abbrev pub Splits : Text → Option (Text × Text) → Type 0
Splits s none = Unit
Splits s (some e) = (e.0 ++ e.1 ≡ s) × (0 < length e.1)

Splits-cons :
    (c : ℕ) (s : Text) (b : Bool) (o : Option (Text × Text))
    → Splits s o
    → Splits
        (c ∷ s)
        (if b then some ([], c ∷ s) else elim o [ none ↦ none | some e ↦ some (c ∷ e.0, e.1) ])
Splits-cons c s true o h = (refl, omega arith)
Splits-cons c s false none h = tt
Splits-cons c s false (some e) h = ((λ i. c ∷ h.0 i), h.1)

pub find_brace-Splits : (s : Text) → Splits s (find_brace s)
find_brace-Splits [] = tt
find_brace-Splits (c ∷ s) =
    Splits-cons c s (c == b'{' || c == b'}') (find_brace s) (find_brace-Splits s)

shorter : (p after tail : Text) → 0 < length p → p ++ after ≡ tail → length after < length tail
shorter p after tail h e = omega (arith, length-append p after, ap length e)

-- Levels stand only where they are allowed, and there are two of them.
abbrev pub Permitted : Bool → Piece → Type 0
Permitted allow (level l) = (allow ≡ true) × (l < 2)
Permitted allow _ = Unit

-- A placeholder's text stands at the front.
abbrev pub Places : Bool → Text → Placed → Type 0
Places allow tail (refused e) = Unit
Places allow tail (placed piece n after) =
    (show_piece piece ++ after ≡ tail) × (length after < length tail) × Permitted allow piece

place_level-Places :
    (allow : Bool) (offset : ℕ) (tail : Text) (o q : Option Text)
    → strip_prefix group_placeholder tail ≡ o
    → strip_prefix subgroup_placeholder tail ≡ q
    → Places allow tail (
        place_level allow offset tail (elim o [
          | some after ↦ some (0, after)
          | none ↦ elim q [ some after ↦ some (1, after) | none ↦ none ]
        ]))
place_level-Places false offset tail (some after) q e f = tt
place_level-Places true offset tail (some after) q e f =
    let h = strip_prefix-append group_placeholder tail after e in
    (h, shorter group_placeholder after tail (omega arith) h, (refl, omega arith))
place_level-Places false offset tail none (some after) e f = tt
place_level-Places true offset tail none (some after) e f =
    let h = strip_prefix-append subgroup_placeholder tail after f in
    (h, shorter subgroup_placeholder after tail (omega arith) h, (refl, omega arith))
place_level-Places allow offset tail none none e f = tt

place_name-Places :
    (allow : Bool) (offset : ℕ) (tail : Text) (o : Option Text)
    → strip_prefix placeholder tail ≡ o
    → Places allow tail (place_name allow offset tail o)
place_name-Places allow offset tail (some after) e =
    let h = strip_prefix-append placeholder tail after e in
    (h, shorter placeholder after tail (omega arith) h, tt)
place_name-Places allow offset tail none e = place_level-Places allow offset tail _ _ refl refl

pub place-Places :
    (allow : Bool) (offset : ℕ) (tail : Text) → Places allow tail (place allow offset tail)
unfolding place
place-Places allow offset tail = place_name-Places allow offset tail _ refl

-- The pieces have this text, and levels only where they are allowed.
abbrev pub Shows : Bool → Text → Result TemplateError (List Piece) → Type 0
Shows allow s r = Yields (λ ps. (show_pieces ps ≡ s) × All (Permitted allow) ps) r

push_literal-All :
    (allow : Bool) (ps : List Piece) (s : Text)
    → All (Permitted allow) ps
    → All (Permitted allow) (push_literal ps s)
push_literal-All allow ps [] h = h
push_literal-All allow ps (c ∷ s) h = All-snoc (Permitted allow) ps (literal (c ∷ s)) h tt

-- What the loop shows at this fuel.
abbrev LoopShows : ℕ → Bool → Type 0
LoopShows fuel allow =
    (pieces : List Piece) (offset : ℕ) (rest : Text)
    → All (Permitted allow) pieces
    → Shows allow (show_pieces pieces ++ rest) (parse_rest fuel allow pieces offset rest)

regroup :
    (pieces : List Piece) (a after tail rest : Text) (piece : Piece)
    → a ++ tail ≡ rest
    → show_piece piece ++ after ≡ tail
    → show_pieces (push_literal pieces a ++ (piece ∷ [])) ++ after ≡ show_pieces pieces ++ rest
regroup pieces a after tail rest piece e f =
    rw (show_pieces-append (push_literal pieces a) (piece ∷ []), show_pieces-push_literal pieces a)
      (rw (append_nil (show_piece piece)) (
        append_assoc (show_pieces pieces ++ a) (show_piece piece) after
        ∙ (append_assoc (show_pieces pieces) a (show_piece piece ++ after)
            ∙ ap (λ t. show_pieces pieces ++ t) (ap (λ t. a ++ t) f ∙ e))))

placed-Shows :
    (fuel : ℕ) (allow : Bool) (pieces : List Piece) (offset : ℕ) (rest a tail : Text) (p : Placed)
    → LoopShows fuel allow
    → All (Permitted allow) pieces
    → a ++ tail ≡ rest
    → Places allow tail p
    → Shows allow (show_pieces pieces ++ rest) (elim p [
      | refused error ↦ err error
      | placed piece n after ↦
          parse_rest fuel allow
            (push_literal pieces a ++ (piece ∷ []))
            (offset + length a + n)
            after
    ])
placed-Shows fuel allow pieces offset rest a tail (refused x) k m e h = tt
placed-Shows fuel allow pieces offset rest a tail (placed piece n after) k m e h =
    let same = regroup pieces a after tail rest piece e h.0 in
    subst
      (λ t. Shows allow t (
        parse_rest fuel allow (push_literal pieces a ++ (piece ∷ [])) (offset + length a + n)
          after))
      same
      (k (push_literal pieces a ++ (piece ∷ [])) (offset + length a + n) after (
        All-snoc (Permitted allow) (push_literal pieces a) piece (push_literal-All allow pieces a m)
          h.2))

found-Shows :
    (fuel : ℕ) (allow : Bool) (pieces : List Piece) (offset : ℕ) (rest : Text)
    (o : Option (Text × Text))
    → LoopShows fuel allow
    → All (Permitted allow) pieces
    → Splits rest o
    → Shows allow (show_pieces pieces ++ rest) (elim o [
      | none ↦ ok (push_literal pieces rest)
      | some e ↦ elim (place allow (offset + length e.0) e.1) [
        | refused error ↦ err error
        | placed piece n after ↦
            parse_rest fuel allow
              (push_literal pieces e.0 ++ (piece ∷ []))
              (offset + length e.0 + n)
              after
      ]
    ])
found-Shows fuel allow pieces offset rest none k m h =
    (show_pieces-push_literal pieces rest, push_literal-All allow pieces rest m)
found-Shows fuel allow pieces offset rest (some e) k m h =
    placed-Shows fuel allow pieces offset rest e.0 e.1 (place allow (offset + length e.0) e.1) k m
      h.0 (place-Places allow (offset + length e.0) e.1)

parse_rest-Shows : (fuel : ℕ) (allow : Bool) → LoopShows fuel allow
unfolding parse_rest
parse_rest-Shows zero allow pieces offset rest m =
    (show_pieces-push_literal pieces rest, push_literal-All allow pieces rest m)
parse_rest-Shows (suc fuel) allow pieces offset rest m =
    found-Shows fuel allow pieces offset rest (find_brace rest) (parse_rest-Shows fuel allow) m
      (find_brace-Splits rest)

pub parse_component-Shows :
    (component : Text) (offset : ℕ) (allow : Bool)
    → Shows allow component (parse_component component offset allow)
unfolding parse_component
parse_component-Shows component offset allow =
    parse_rest-Shows (length component) allow [] offset component tt
