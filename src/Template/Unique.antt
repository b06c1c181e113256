-- ===== src/Template/Unique.antt =====
-- The names behind the paths of one template (src/template.rs).
use mathlib.Core.Path.{subst}
use byssus.Base.{
  suc, ◌≤◌, ◌<◌, ◌≡◌, refl, sym, ap, ◌∙◌, true, false, List, [], ◌∷◌, ◌++◌, map, length,
  length-append, any, All, All-mono, All-map, ok, Yields, bind-Yields, Bool-cases, inl, inr, Text,
  slash, Free, join, split, split-join, arith,
}
use byssus.Name.{Name, Name-inj}
use byssus.Name.Allowed.{IsName}
use byssus.Template.{Template, Piece, literal, level, has_name, is_name_piece}
use byssus.Template.Interpolation.{components, interpolate}
use byssus.Template.WellFormed.{IsTemplate}
use byssus.Template.Interpolated.{fill, fill-plain, plain-Free, components-measure}
use byssus.Template.Clean.{Fits, measure-Fits}

-- A longer name gives a longer component, if it occurs there.
fill-le :
    (n m : Name) (ps : List Piece)
    → length n.str ≤ length m.str
    → length (fill n ps) ≤ length (fill m ps)
fill-le n m [] h = omega arith
fill-le n m (literal s ∷ ps) h =
    omega (arith, fill-le n m ps h, length-append s (fill n ps), length-append s (fill m ps))
fill-le n m (Piece.name ∷ ps) h =
    omega
      (arith, h, fill-le n m ps h, length-append n.str (fill n ps), length-append m.str (fill m ps))
fill-le n m (level l ∷ ps) h = fill-le n m ps h

fill-lt :
    (n m : Name) (ps : List Piece)
    → any is_name_piece ps ≡ true
    → length n.str < length m.str
    → length (fill n ps) < length (fill m ps)
fill-lt n m [] e h = absurd (ground arith)
fill-lt n m (literal s ∷ ps) e h =
    omega (arith, fill-lt n m ps e h, length-append s (fill n ps), length-append s (fill m ps))
fill-lt n m (Piece.name ∷ ps) e h =
    let le : length n.str ≤ length m.str = omega (arith, h) in
    omega (
      arith,
      h,
      fill-le n m ps le,
      length-append n.str (fill n ps),
      length-append m.str (fill m ps),
    )
fill-lt n m (level l ∷ ps) e h = fill-lt n m ps e h

append-left : (s a b : Text) → s ++ a ≡ s ++ b → a ≡ b
append-left [] a b h = h
append-left (x ∷ s) a b h = append-left s a b (ground arith)

append-same : (s t a b : Text) → length s ≡ length t → s ++ a ≡ t ++ b → s ≡ t
append-same [] [] a b e h = refl
append-same [] (y ∷ t) a b e h = absurd (omega (arith, e))
append-same (x ∷ s) [] a b e h = absurd (omega (arith, e))
append-same (x ∷ s) (y ∷ t) a b e h =
    let rest : s ++ a ≡ t ++ b = ground arith in
    let first : x ≡ y = ground arith in
    let others = append-same s t a b (omega (arith, e)) rest in λ i. first i ∷ others i

fill-same :
    (n m : Name) (ps : List Piece)
    → any is_name_piece ps ≡ true
    → length n.str ≡ length m.str
    → fill n ps ≡ fill m ps
    → n.str ≡ m.str
fill-same n m [] e l h = absurd (ground arith)
fill-same n m (literal s ∷ ps) e l h =
    fill-same n m ps e l (append-left s (fill n ps) (fill m ps) h)
fill-same n m (Piece.name ∷ ps) e l h = append-same n.str m.str (fill n ps) (fill m ps) l h
fill-same n m (level k ∷ ps) e l h = fill-same n m ps e l h

fill-inj :
    (n m : Name) (ps : List Piece)
    → any is_name_piece ps ≡ true
    → fill n ps ≡ fill m ps
    → n.str ≡ m.str
fill-inj n m ps e h =
    let below = fill-lt n m ps e in
    let above = fill-lt m n ps e in
    let sizes = ap length h in
    let l : length n.str ≡ length m.str = ground arith in fill-same n m ps e l h

map-fill-inj :
    (n m : Name) (pss : List (List Piece))
    → has_name pss ≡ true
    → map (fill n) pss ≡ map (fill m) pss
    → n ≡ m
map-fill-inj n m [] e h = absurd (ground arith)
map-fill-inj n m (ps ∷ pss) e h =
    let first : fill n ps ≡ fill m ps = ground arith in
    let rest : map (fill n) pss ≡ map (fill m) pss = ground arith in
    elim (Bool-cases (any is_name_piece ps)) [
      | inl f ↦ Name-inj n m (fill-inj n m ps f first)
      | inr f ↦ map-fill-inj n m pss (ground arith) rest
    ]

-- The path is that of the filled components, which are plain names.
interpolate-join :
    (t : Template) (n : Name)
    → IsTemplate false t
    → IsName n.str
    → Yields (λ p. p ≡ join slash (map (fill n) t.components)) (interpolate t n)
unfolding interpolate
interpolate-join t n w h =
    let cs = map (fill n) t.components in
    bind-Yields (Fits cs) _ (components t n) _
      (subst (Yields (Fits cs)) (sym (components-measure t n w h)) (measure-Fits cs))
      (λ r f. ap (join slash) f.0)

length-fill :
    (n m : Name) (pss : List (List Piece)) → length (map (fill n) pss) ≡ length (map (fill m) pss)
length-fill n m [] = refl
length-fill n m (ps ∷ pss) = ap suc (length-fill n m pss)

join-inj :
    (xs ys : List Text)
    → length xs ≡ length ys
    → All (Free slash) xs
    → All (Free slash) ys
    → join slash xs ≡ join slash ys
    → xs ≡ ys
join-inj [] [] l h k e = refl
join-inj [] (b ∷ ys) l h k e = absurd (omega (arith, l))
join-inj (a ∷ xs) [] l h k e = absurd (omega (arith, l))
join-inj (a ∷ xs) (b ∷ ys) l h k e =
    sym (split-join slash a xs h) ∙ (ap (split slash) e ∙ split-join slash b ys k)

fill-Free-All :
    (t : Template) (n : Name)
    → IsTemplate false t
    → IsName n.str
    → All (Free slash) (map (fill n) t.components)
fill-Free-All t n w h =
    All-map (fill n) _ t.components
      (All-mono _ _ t.components (λ ps c. plain-Free (fill n ps) (fill-plain n ps h c)) w.parts)

-- One template gives two names the same path only if the names are the same.
pub interpolate-inj :
    (t : Template) (n m : Name) (path : Text)
    → IsTemplate false t
    → IsName n.str
    → IsName m.str
    → interpolate t n ≡ ok path
    → interpolate t m ≡ ok path
    → n ≡ m
interpolate-inj t n m path w h k e f =
    let first =
      subst (Yields (λ p. p ≡ join slash (map (fill n) t.components))) e
        (interpolate-join t n w h) in
    let second =
      subst (Yields (λ p. p ≡ join slash (map (fill m) t.components))) f
        (interpolate-join t m w k) in
    map-fill-inj n m t.components w.named (
      join-inj (map (fill n) t.components) (map (fill m) t.components)
        (length-fill n m t.components) (fill-Free-All t n w h) (fill-Free-All t m w k)
        (sym first ∙ second))
