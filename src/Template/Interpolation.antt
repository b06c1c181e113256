-- ===== src/Template/Interpolation.antt =====
-- Interpolation of a name, and binding of the levels of a group set (src/template.rs).
use byssus.Base.{
  map, ℕ, ◌+◌, Bool, false, not, ◌||◌, ◌&&◌, none, some, List, [], ◌∷◌, ◌++◌, length, any, is_empty,
  contains, get_elem?, if◌then◌else◌, ltb, Result, ok, err, ◌>>=◌, Text, text, slash, join, ◌==◌,
  nat_eq, list_eq,
}
use byssus.Name.{Name, max_name_len}
use byssus.Template.{
  Template, Piece, InterpolateError, component_too_long, path_too_long, invalid_component,
  unbound_level, literal, level, placeholder, is_name_piece, max_path_len,
}

unfoldable pub interpolate_pieces : Name → List Piece → Result InterpolateError Text
interpolate_pieces n [] = ok []
interpolate_pieces n (literal s ∷ pieces) = do rest ← interpolate_pieces n pieces; ok (s ++ rest)
interpolate_pieces n (Piece.name ∷ pieces) = do
  rest ← interpolate_pieces n pieces
  ok (n.str ++ rest)
interpolate_pieces n (level l ∷ pieces) = err unbound_level

abbrev pub is_plain_component : Text → Bool
is_plain_component c = not (is_empty c || (c == text "." || (c == text ".." || contains c slash)))

abbrev pub check_interpolated : Text → Result InterpolateError (Unit {0})
check_interpolated c =
    if ltb max_name_len (length c)
    then err (component_too_long (length c))
    else if not (is_plain_component c)
    then err (invalid_component c)
    else ok tt

-- The length with the separators, before and with the next component.
abbrev pub add_length : List Text → ℕ → Text → ℕ
add_length out total c = total + (length c + (if is_empty out then 0 else 1))

unfoldable pub interpolate_all :
    Name → List Text → ℕ → List (List Piece) → Result InterpolateError (List Text × ℕ)
unfolding interpolate_pieces
interpolate_all n out total [] = ok (out, total)
interpolate_all n out total (pieces ∷ rest) = do
  c ← interpolate_pieces n pieces
  u ← check_interpolated c
  interpolate_all n (out ++ (c ∷ [])) (add_length out total c) rest

abbrev pub check_total : List Text × ℕ → Result InterpolateError (List Text)
check_total (out, total) = if ltb max_path_len total then err (path_too_long total) else ok out

unfoldable pub components : Template → Name → Result InterpolateError (List Text)
unfolding interpolate_all
components t n = do all ← interpolate_all n [] 0 t.components; check_total all

unfoldable pub interpolate : Template → Name → Result InterpolateError Text
unfolding components join
interpolate t n = do cs ← components t n; ok (join slash cs)

abbrev pub max : ℕ → ℕ → ℕ
max a b = if ltb a b then b else a

abbrev pub piece_depth : Piece → ℕ
piece_depth (level l) = l + 1
piece_depth _ = 0

abbrev pub pieces_depth : List Piece → ℕ
pieces_depth [] = 0
pieces_depth (p ∷ ps) = max (piece_depth p) (pieces_depth ps)

abbrev pub components_depth : List (List Piece) → ℕ
components_depth [] = 0
components_depth (ps ∷ rest) = max (pieces_depth ps) (components_depth rest)

-- The number of levels that the template refers to.
unfoldable pub depth : Template → ℕ
depth t = components_depth t.components

abbrev is_level : ℕ → Piece → Bool
is_level l (level k) = k == l
is_level l _ = false

unfoldable pub has_level : Template → ℕ → Bool
has_level t l = any (any (is_level l)) t.components

-- A text goes on at the last literal, if the pieces end with one.
abbrev pub add_text : List Piece → Text → List Piece
add_text [] s = literal s ∷ []
add_text (literal a ∷ []) s = literal (a ++ s) ∷ []
add_text (p ∷ []) s = p ∷ literal s ∷ []
add_text (p ∷ q ∷ ps) s = p ∷ add_text (q ∷ ps) s

-- The bound pieces, and their text.
unfoldable pub bind_pieces :
    List Name → List Piece → Text → List Piece → Result InterpolateError (List Piece × Text)
bind_pieces levels bound raw [] = ok (bound, raw)
bind_pieces levels bound raw (Piece.name ∷ pieces) =
    bind_pieces levels (bound ++ (Piece.name ∷ [])) (raw ++ placeholder) pieces
bind_pieces levels bound raw (literal s ∷ pieces) =
    bind_pieces levels (add_text bound s) (raw ++ s) pieces
bind_pieces levels bound raw (level l ∷ pieces) = elim (get_elem? levels l) [
  | none ↦ err unbound_level
  | some n ↦ bind_pieces levels (add_text bound n.str) (raw ++ n.str) pieces
]

abbrev pub check_bound : List Piece × Text → Result InterpolateError (Unit {0})
check_bound (bound, raw) =
    if not (any is_name_piece bound) && ltb max_name_len (length raw)
    then err (component_too_long (length raw))
    else ok tt

unfoldable pub bind_components :
    List Name → List (List Piece) → Result InterpolateError (List (List Piece × Text))
unfolding bind_pieces
bind_components levels [] = ok []
bind_components levels (pieces ∷ rest) = do
  b ← bind_pieces levels [] [] pieces
  u ← check_bound b
  others ← bind_components levels rest
  ok (b ∷ others)

unfoldable pub bind_levels : Template → List Name → Result InterpolateError Template
unfolding bind_components join
bind_levels t levels = do
  bs ← bind_components levels t.components
  ok (record { raw = join slash (map (λ b. b.1) bs); components = map (λ b. b.0) bs })
