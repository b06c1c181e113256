-- ===== src/Template/Tests.antt =====
-- Templates at concrete texts (src/template.rs).
use mathlib.Core.Path.{subst}
use byssus.Base.{
  ◌+◌, ◌≡◌, refl, Bool, true, false, [], ◌∷◌, ◌++◌, map, length, Result, ok, err, Yields, Text,
  text, arith,
}
use byssus.Name.{Name, is_allowed_byte}
use byssus.Name.Allowed.{IsName}
use byssus.Template.{
  Template, TemplateError, Piece, literal, level, empty, absolute, trailing_slash, empty_component,
  dot_component, invalid_brace, missing_name, group_not_allowed, parse_rest, parse_component,
  parse_inner,
}
use byssus.Template.Interpolation.{components, interpolate, depth, has_level, bind_levels}
use byssus.Template.Fuel.{parse_component_fuel}
use byssus.Template.WellFormed.{IsTemplate, parse_inner-IsTemplate}
use byssus.Template.Interpolated.{fill, measure, components-measure}
use byssus.Template.Clean.{IsPath, interpolate-IsPath}
use byssus.Template.Unique.{interpolate-inj}

abbrev alice : Name
alice = record { str = text "alice" }

abbrev bob : Name
bob = record { str = text "bob" }

-- The template `{name}/work-{name}`.
abbrev workspace : Template
workspace = record {
  raw = text "{name}/work-{name}";
  components = (Piece.name ∷ []) ∷ (literal (text "work-") ∷ Piece.name ∷ []) ∷ [];
}

-- `parse_inner` for both callers.
read : Bool → Text → Result TemplateError Template
unfolding parse_inner
read set raw = parse_inner raw set

read-workspace : read false workspace.raw ≡ ok workspace
unfolding read
read-workspace = refl

read_empty : read false [] ≡ err empty
unfolding read
read_empty = refl

read_absolute : read false (text "/{name}") ≡ err absolute
unfolding read
read_absolute = refl

read_trailing : read false (text "{name}/") ≡ err trailing_slash
unfolding read
read_trailing = refl

read_double : read false (text "a//{name}") ≡ err empty_component
unfolding read
read_double = refl

read_dots : read false (text "{name}/..") ≡ err (dot_component (text ".."))
unfolding read
read_dots = refl

read_brace : read false (text "a/{nam}") ≡ err (invalid_brace (text "{nam}") 2)
unfolding read
read_brace = refl

read_lone_brace : read false (text "{name}/}x") ≡ err (invalid_brace (text "}") 7)
unfolding read
read_lone_brace = refl

read_no_name : read false (text "a/b") ≡ err missing_name
unfolding read
read_no_name = refl

read_group : read false (text "{group}/{name}") ≡ err group_not_allowed
unfolding read
read_group = refl

-- The template `{group}-{subgroup}/{name}`.
abbrev grouped : Template
grouped = record {
  raw = text "{group}-{subgroup}/{name}";
  components = (level 0 ∷ literal (text "-") ∷ level 1 ∷ []) ∷ (Piece.name ∷ []) ∷ [];
}

read-grouped : read true grouped.raw ≡ ok grouped
unfolding read
read-grouped = refl

depth-grouped : depth grouped ≡ 2
unfolding depth
depth-grouped = refl

has_level-grouped : has_level grouped 1 ≡ true
unfolding has_level
has_level-grouped = refl

bound_grouped :
    bind_levels grouped (alice ∷ bob ∷ [])
    ≡ ok record {
      raw = text "alice-bob/{name}";
      components = (literal (text "alice-bob") ∷ []) ∷ (Piece.name ∷ []) ∷ [];
    }
unfolding bind_levels
bound_grouped = refl

interpolated : interpolate workspace alice ≡ ok (text "alice/work-alice")
unfolding interpolate
interpolated = refl

alice-IsName : IsName alice.str
unfolding is_allowed_byte
alice-IsName = record {
  not_empty = ground arith;
  short = ground arith;
  visible = ground arith;
  allowed = (refl, (refl, (refl, (refl, (refl, tt)))));
}

bob-IsName : IsName bob.str
unfolding is_allowed_byte
bob-IsName = record {
  not_empty = ground arith;
  short = ground arith;
  visible = ground arith;
  allowed = (refl, (refl, (refl, tt)));
}

workspace-IsTemplate : IsTemplate false workspace
unfolding read
workspace-IsTemplate =
    (subst (Yields (λ t. IsTemplate false t × (t.raw ≡ workspace.raw))) read-workspace
      (parse_inner-IsTemplate workspace.raw false)).0

parse_component_fuel_example :
    parse_rest (10 + length (text "w-{name}")) false [] 0 (text "w-{name}")
    ≡ parse_component (text "w-{name}") 0 false
parse_component_fuel_example = parse_component_fuel 10 false 0 (text "w-{name}")

parse_inner-IsTemplate_example :
    Yields (λ t. IsTemplate false t × (t.raw ≡ workspace.raw)) (parse_inner workspace.raw false)
parse_inner-IsTemplate_example = parse_inner-IsTemplate workspace.raw false

components-measure_example :
    components workspace alice ≡ measure (map (fill alice) workspace.components)
components-measure_example = components-measure workspace alice workspace-IsTemplate alice-IsName

interpolate-IsPath_example : IsPath (text "alice/work-alice")
interpolate-IsPath_example =
    interpolate-IsPath workspace alice (text "alice/work-alice") workspace-IsTemplate alice-IsName
      interpolated

interpolate-inj_example : record { str = text "al" ++ text "ice" } ≡ alice
interpolate-inj_example =
    interpolate-inj workspace (record { str = text "al" ++ text "ice" }) alice
      (text "alice/work-alice") workspace-IsTemplate alice-IsName alice-IsName interpolated
      interpolated
