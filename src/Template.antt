-- ===== src/Template.antt =====
-- Path templates (src/template.rs): parsing, binding of group set levels, interpolation of a name.
pub mod Interpolation
pub mod Shown
pub mod Fuel
pub mod WellFormed
pub mod Depth
pub mod Interpolated
pub mod Clean
mod Unique
mod Tests
use byssus.Base.{
  ℕ, zero, suc, ◌+◌, Bool, true, false, not, ◌||◌, ◌&&◌, Option, none, some, List, [], ◌∷◌, ◌++◌,
  length, any, is_empty, contains, if◌then◌else◌, ltb, Result, ok, err, ◌>>=◌, Text, text, slash,
  split, strip_prefix, ◌==◌, nat_eq, list_eq,
}
use byssus.Name.{max_name_len}

abbrev pub max_path_len : ℕ
max_path_len = 4095

abbrev pub placeholder : Text
placeholder = text "{name}"

-- Levels 0 and 1 of a group set.
abbrev pub group_placeholder : Text
group_placeholder = text "{group}"

abbrev pub subgroup_placeholder : Text
subgroup_placeholder = text "{subgroup}"

pub data Piece : Type 0 where
  literal : Text → Piece
  name : Piece
  level : ℕ → Piece

pub record Template : Type 0 where
  pub raw : Text
  pub components : List (List Piece)

pub data TemplateError : Type 0 where
  empty : TemplateError
  absolute : TemplateError
  trailing_slash : TemplateError
  empty_component : TemplateError
  dot_component : Text → TemplateError
  invalid_brace : Text → ℕ → TemplateError
  nul : TemplateError
  missing_name : TemplateError
  group_not_allowed : TemplateError
  missing_level : Text → TemplateError
  component_too_long : ℕ → TemplateError

pub data InterpolateError : Type 0 where
  component_too_long : ℕ → InterpolateError
  path_too_long : ℕ → InterpolateError
  invalid_component : Text → InterpolateError
  -- the panic at a placeholder of a level that has no name
  unbound_level : InterpolateError
  -- the panic at a group path that does not match the depth of its set
  wrong_depth : InterpolateError

abbrev is_brace : ℕ → Bool
is_brace c = c == b'{' || c == b'}'

-- `find` of a brace, as what stands before it and the rest from it on.
abbrev pub find_brace : Text → Option (Text × Text)
find_brace [] = none
find_brace (c ∷ s) =
    if is_brace c
    then some ([], c ∷ s)
    else elim (find_brace s) [ none ↦ none | some e ↦ some (c ∷ e.0, e.1) ]

-- The text up to its first `}`, with it.
abbrev through_close : Text → Option Text
through_close [] = none
through_close (c ∷ s) =
    if c == b'}'
    then some (c ∷ [])
    else elim (through_close s) [ none ↦ none | some t ↦ some (c ∷ t) ]

abbrev found_brace : Text → Text
found_brace [] = text "}"
found_brace (c ∷ s) =
    if c == b'{' then (elim (through_close (c ∷ s)) [ none ↦ text "{" | some t ↦ t ]) else text "}"

abbrev find_level : Text → Option (ℕ × Text)
find_level tail = elim (strip_prefix group_placeholder tail) [
  | some after ↦ some (0, after)
  | none ↦ elim (strip_prefix subgroup_placeholder tail) [
    | some after ↦ some (1, after)
    | none ↦ none
  ]
]

abbrev pub push_literal : List Piece → Text → List Piece
push_literal pieces [] = pieces
push_literal pieces (c ∷ s) = pieces ++ (literal (c ∷ s) ∷ [])

-- What a brace begins: the placeholder, and the rest after it.
pub data Placed : Type 0 where
  placed : Piece → ℕ → Text → Placed
  refused : TemplateError → Placed

abbrev place_level : Bool → ℕ → Text → Option (ℕ × Text) → Placed
place_level allow_group offset tail none = refused (invalid_brace (found_brace tail) offset)
place_level allow_group offset tail (some (l, after)) =
    if allow_group
    then placed (level l) (if l == 0 then length group_placeholder else length subgroup_placeholder)
        after
    else refused group_not_allowed

abbrev place_name : Bool → ℕ → Text → Option Text → Placed
place_name allow_group offset tail (some after) = placed name (length placeholder) after
place_name allow_group offset tail none = place_level allow_group offset tail (find_level tail)

unfoldable pub place : Bool → ℕ → Text → Placed
place allow_group offset tail = place_name allow_group offset tail (strip_prefix placeholder tail)

-- The loop, for the bytes that are left; with none left there is no brace either.
unfoldable pub parse_rest : ℕ → Bool → List Piece → ℕ → Text → Result TemplateError (List Piece)
unfolding place
parse_rest zero allow_group pieces offset rest = ok (push_literal pieces rest)
parse_rest (suc fuel) allow_group pieces offset rest = elim (find_brace rest) [
  | none ↦ ok (push_literal pieces rest)
  | some e ↦ elim (place allow_group (offset + length e.0) e.1) [
    | refused error ↦ err error
    | placed piece n after ↦
        parse_rest fuel allow_group (push_literal pieces e.0 ++ (piece ∷ []))
          (offset + length e.0 + n) after
  ]
]

unfoldable pub parse_component : Text → ℕ → Bool → Result TemplateError (List Piece)
unfolding parse_rest
parse_component component base_offset allow_group =
    parse_rest (length component) allow_group [] base_offset component

abbrev pub is_name_piece : Piece → Bool
is_name_piece name = true
is_name_piece _ = false

abbrev pub is_placeholder : Piece → Bool
is_placeholder (literal s) = false
is_placeholder _ = true

abbrev pub check_length : Text → List Piece → Result TemplateError (Unit {0})
check_length component pieces =
    if not (any is_placeholder pieces) && ltb max_name_len (length component)
    then err (component_too_long (length component))
    else ok tt

abbrev pub check_component : Text → Result TemplateError (Unit {0})
check_component component =
    if is_empty component
    then err empty_component
    else if component == text "." || component == text ".."
    then err (dot_component component)
    else ok tt

-- The components in order, and where the next one begins.
unfoldable pub parse_components : Bool → ℕ → List Text → Result TemplateError (List (List Piece))
unfolding parse_component
parse_components allow_group offset [] = ok []
parse_components allow_group offset (component ∷ rest) = do
  u ← check_component component
  pieces ← parse_component component offset allow_group
  v ← check_length component pieces
  others ← parse_components allow_group (offset + (length component + 1)) rest
  ok (pieces ∷ others)

abbrev ends_with_slash : Text → Bool
ends_with_slash [] = false
ends_with_slash (c ∷ []) = c == slash
ends_with_slash (c ∷ d ∷ s) = ends_with_slash (d ∷ s)

abbrev starts_with_slash : Text → Bool
starts_with_slash [] = false
starts_with_slash (c ∷ s) = c == slash

abbrev pub has_name : List (List Piece) → Bool
has_name = any (any is_name_piece)

abbrev pub check_raw : Text → Result TemplateError (Unit {0})
check_raw raw =
    if is_empty raw
    then err empty
    else if contains raw 0
    then err nul
    else if starts_with_slash raw
    then err absolute
    else if ends_with_slash raw
    then err trailing_slash
    else ok tt

abbrev pub with_name : Text → List (List Piece) → Result TemplateError Template
with_name raw components =
    if has_name components
    then ok (record { raw = raw; components = components })
    else err missing_name

unfoldable pub parse_inner : Text → Bool → Result TemplateError Template
unfolding parse_components split
parse_inner raw allow_group = do
  u ← check_raw raw
  components ← parse_components allow_group 0 (split slash raw)
  with_name raw components

unfoldable pub parse : Text → Result TemplateError Template
unfolding parse_inner
parse raw = parse_inner raw false

unfoldable pub parse_for_set : Text → Result TemplateError Template
unfolding parse_inner
parse_for_set raw = parse_inner raw true
