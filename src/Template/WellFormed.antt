-- ===== src/Template/WellFormed.antt =====
-- What a parsed template keeps to (src/template.rs).
use mathlib.Core.Path.{subst}
use byssus.Base.{
  ℕ, ◌+◌, ◌≤◌, ◌≡◌, refl, sym, ap, ◌∙◌, Bool, true, false, ◌||◌, List, [], ◌∷◌, map, length, any,
  is_empty, contains, ltb, ◌==◌, nat_eq, list_eq, All, Yields, bind-Yields, any-Yields, Bool-cases,
  inl, inr, Text, text, slash, Free, split, join, join-split, split-All, Free-contains, arith,
}
use byssus.Name.{max_name_len}
use byssus.Template.{
  Template, Piece, parse_component, parse_components, check_component, check_length, check_raw,
  with_name, has_name, is_placeholder, parse_inner,
}
use byssus.Template.Interpolation.{is_plain_component}
use byssus.Template.Shown.{show_pieces, Permitted, parse_component-Shows}

-- A component: a plain name as written, with levels only where they are allowed, and short unless
-- it has a placeholder.
abbrev pub IsComponent : Bool → List Piece → Type 0
IsComponent allow ps =
    (is_plain_component (show_pieces ps) ≡ true)
    × All (Permitted allow) ps
    × (any is_placeholder ps ≡ false → length (show_pieces ps) ≤ max_name_len)

pub record IsTemplate (allow : Bool) (t : Template) : Type 0 where
  pub shown : join slash (map show_pieces t.components) ≡ t.raw
  pub parts : All (IsComponent allow) t.components
  pub named : has_name t.components ≡ true
  pub no_nul : contains t.raw 0 ≡ false

check_component-plain :
    (c : Text) → Free slash c → Yields (λ u. is_plain_component c ≡ true) (check_component c)
check_component-plain c h =
    let e = Free-contains slash c h in
    elim (Bool-cases (is_empty c)) [
      | inl f ↦ rw f tt
      | inr f ↦ elim (Bool-cases (c == text "." || c == text "..")) [
        | inl g ↦ rw (f, g) tt
        | inr g ↦ rw (f, g) (ground (arith))
      ]
    ]

check_length-short :
    (c : Text) (ps : List Piece)
    → Yields (λ u. any is_placeholder ps ≡ false → length c ≤ max_name_len) (check_length c ps)
check_length-short c ps = elim (Bool-cases (any is_placeholder ps)) [
  | inl e ↦ rw e (λ f. absurd (ground arith))
  | inr e ↦ elim (Bool-cases (ltb max_name_len (length c))) [
    | inl f ↦ rw (e, f) tt
    | inr f ↦ rw (e, f) (λ g. ground arith)
  ]
]

abbrev AreComponents : Bool → List Text → List (List Piece) → Type 0
AreComponents allow cs pss = (map show_pieces pss ≡ cs) × All (IsComponent allow) pss

parse_components-Yields :
    (allow : Bool) (offset : ℕ) (cs : List Text)
    → All (Free slash) cs
    → Yields (AreComponents allow cs) (parse_components allow offset cs)
unfolding parse_components
parse_components-Yields allow offset [] h = (refl, tt)
parse_components-Yields allow offset (c ∷ cs) h =
    bind-Yields _ _ (check_component c) _ (check_component-plain c h.0) (λ u plain.
      bind-Yields (λ ps. (show_pieces ps ≡ c) × All (Permitted allow) ps) _
        (parse_component c offset allow) _ (parse_component-Shows c offset allow)
        (λ ps shown. bind-Yields _ _ (check_length c ps) _ (check_length-short c ps) (λ v short.
          bind-Yields _ _ (parse_components allow (offset + (length c + 1)) cs) _
            (parse_components-Yields allow (offset + (length c + 1)) cs h.1)
            (λ pss rest. (
              λ i. shown.0 i ∷ rest.0 i,
              (
                (
                  ap is_plain_component shown.0 ∙ plain,
                  shown.1,
                  λ none. subst (λ s. length s ≤ max_name_len) (sym shown.0) (short none),
                ),
                rest.1,
              ),
            )))))

check_raw-no_nul : (raw : Text) → Yields (λ u. contains raw 0 ≡ false) (check_raw raw)
check_raw-no_nul raw = elim (Bool-cases (is_empty raw)) [
  | inl e ↦ rw e tt
  | inr e ↦ elim (Bool-cases (contains raw 0)) [
    | inl f ↦ rw (e, f) tt
    | inr f ↦ any-Yields _ (check_raw raw) (λ u. f)
  ]
]

with_name-IsTemplate :
    (allow : Bool) (raw : Text) (pss : List (List Piece))
    → contains raw 0 ≡ false
    → AreComponents allow (split slash raw) pss
    → Yields (λ t. IsTemplate allow t × (t.raw ≡ raw)) (with_name raw pss)
with_name-IsTemplate allow raw pss no_nul h = elim (Bool-cases (has_name pss)) [
  | inl e ↦ rw e (
    record {
      shown = ap (join slash) h.0 ∙ join-split slash raw;
      parts = h.1;
      named = e;
      no_nul = no_nul;
    },
    refl,
  )
  | inr e ↦ rw e tt
]

-- Whatever `parse_inner` accepts is a template as written: the text of its components, joined, is
-- the text that was parsed, which has no NUL byte; each component is a plain name, has levels only
-- where they are allowed, and is short unless it has a placeholder; and `{name}` occurs.
pub parse_inner-IsTemplate :
    (raw : Text) (allow : Bool)
    → Yields (λ t. IsTemplate allow t × (t.raw ≡ raw)) (parse_inner raw allow)
unfolding parse_inner
parse_inner-IsTemplate raw allow =
    bind-Yields _ _ (check_raw raw) _ (check_raw-no_nul raw) (λ u no_nul.
      bind-Yields _ _ (parse_components allow 0 (split slash raw)) _
        (parse_components-Yields allow 0 (split slash raw) (split-All slash raw))
        (λ pss h. with_name-IsTemplate allow raw pss no_nul h))
