-- ===== src/Template/Depth.antt =====
-- How many levels a parsed template refers to (src/template.rs, `depth`).
use byssus.Base.{ℕ, ◌≤◌, Bool, List, [], ◌∷◌, All, arith}
use byssus.Name.{max_set_depth}
use byssus.Template.{Template, Piece, literal, level}
use byssus.Template.Interpolation.{depth, max, piece_depth, pieces_depth, components_depth}
use byssus.Template.Shown.{Permitted}
use byssus.Template.WellFormed.{IsComponent, IsTemplate}

pub max-le : (a b n : ℕ) → a ≤ n → b ≤ n → max a b ≤ n
max-le a b n h k = ground arith

piece_depth-le : (allow : Bool) (p : Piece) → Permitted allow p → piece_depth p ≤ max_set_depth
piece_depth-le allow (literal s) h = ground arith
piece_depth-le allow Piece.name h = ground arith
piece_depth-le allow (level l) h = ground (arith, h.1)

pieces_depth-le :
    (allow : Bool) (ps : List Piece) → All (Permitted allow) ps → pieces_depth ps ≤ max_set_depth
pieces_depth-le allow [] h = ground arith
pieces_depth-le allow (p ∷ ps) h =
    max-le (piece_depth p) (pieces_depth ps) max_set_depth (piece_depth-le allow p h.0)
      (pieces_depth-le allow ps h.1)

components_depth-le :
    (allow : Bool) (pss : List (List Piece))
    → All (IsComponent allow) pss
    → components_depth pss ≤ max_set_depth
components_depth-le allow [] h = ground arith
components_depth-le allow (ps ∷ pss) h =
    max-le (pieces_depth ps) (components_depth pss) max_set_depth (pieces_depth-le allow ps h.0.1)
      (components_depth-le allow pss h.1)

-- A template refers to no more levels than a set can have.
pub depth-le : (allow : Bool) (t : Template) → IsTemplate allow t → depth t ≤ max_set_depth
unfolding depth
depth-le allow t h = components_depth-le allow t.components h.parts
