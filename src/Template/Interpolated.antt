-- ===== src/Template/Interpolated.antt =====
-- What interpolation gives, with and without errors (src/template.rs).
use byssus.Base.{
  ℕ, ◌+◌, ◌≡◌, refl, ap, ◌∙◌, Bool, true, false, not, Option, none, some, List, [], ◌∷◌, ◌++◌, map,
  find, length, length-append, append_nil, append_assoc, any, is_empty, contains, ltb, ◌==◌, nat_eq,
  list_eq, if◌then◌else◌, All, Result, ok, err, ◌>>=◌, Bool-cases, inl, inr, Text, slash, dot, Free,
  join, Free-contains, contains-Free, Free-append, arith,
}
use byssus.Name.{Name, max_name_len}
use byssus.Name.Allowed.{IsName}
use byssus.Name.Groups.{allowed-Free}
use byssus.Template.{
  Template, Piece, InterpolateError, component_too_long, path_too_long, literal, level,
  max_path_len, placeholder, is_placeholder,
}
use byssus.Template.Interpolation.{
  is_plain_component, interpolate_pieces, add_length, interpolate_all, check_total, components,
}
use byssus.Template.Shown.{show_piece, show_pieces, Permitted}
use byssus.Template.WellFormed.{IsComponent, IsTemplate}

-- The pieces with a name in place of each `{name}`.
abbrev pub fill : Name → List Piece → Text
fill n [] = []
fill n (literal s ∷ ps) = s ++ fill n ps
fill n (Piece.name ∷ ps) = n.str ++ fill n ps
fill n (level l ∷ ps) = fill n ps

pub interpolate_pieces-fill :
    (n : Name) (ps : List Piece)
    → All (Permitted false) ps
    → interpolate_pieces n ps ≡ ok (fill n ps)
unfolding interpolate_pieces
interpolate_pieces-fill n [] h = refl
interpolate_pieces-fill n (literal s ∷ ps) h = rw (interpolate_pieces-fill n ps h.1) refl
interpolate_pieces-fill n (Piece.name ∷ ps) h = rw (interpolate_pieces-fill n ps h.1) refl
interpolate_pieces-fill n (level l ∷ ps) h = absurd (ground (arith, h.0))

pub Free-concat : (sep : ℕ) (a b : Text) → Free sep a → Free sep b → Free sep (a ++ b)
Free-concat sep [] b h k = k
Free-concat sep (x ∷ a) b h k = (h.0, Free-concat sep a b h.1 k)

fill-Free :
    (n : Name) (ps : List Piece)
    → IsName n.str
    → Free slash (show_pieces ps)
    → Free slash (fill n ps)
fill-Free n [] h k = k
fill-Free n (literal s ∷ ps) h k =
    let r = Free-append slash s (show_pieces ps) k in
    Free-concat slash s (fill n ps) r.0 (fill-Free n ps h r.1)
fill-Free n (Piece.name ∷ ps) h k =
    Free-concat slash n.str (fill n ps) (allowed-Free n.str h.allowed)
      (fill-Free n ps h (Free-append slash placeholder (show_pieces ps) k).1)
fill-Free n (level l ∷ ps) h k =
    fill-Free n ps h (Free-append slash (show_piece (level l)) (show_pieces ps) k).1

-- A text with a byte that is no dot.
abbrev is_visible : Text → Bool
is_visible = any (λ b. not (b == dot))

is_visible-left : (a b : Text) → is_visible a ≡ true → is_visible (a ++ b) ≡ true
is_visible-left [] b h = absurd (ground arith)
is_visible-left (x ∷ a) b h = ground (arith, is_visible-left a b)

is_visible-right : (a b : Text) → is_visible b ≡ true → is_visible (a ++ b) ≡ true
is_visible-right [] b h = h
is_visible-right (x ∷ a) b h = ground (arith, is_visible-right a b h)

is_visible-plain :
    (s : Text) → is_visible s ≡ true → contains s slash ≡ false → is_plain_component s ≡ true
is_visible-plain [] h k = absurd (ground arith)
is_visible-plain (a ∷ []) h k = ground arith
is_visible-plain (a ∷ b ∷ []) h k = ground arith
is_visible-plain (a ∷ b ∷ c ∷ s) h k = rw k (ground arith)

name-is_visible : (s : Text) → IsName s → is_visible s ≡ true
name-is_visible [] h = absurd (omega (arith, h.not_empty))
name-is_visible (b ∷ s) h = let v = h.visible in ground arith

fill-is_visible :
    (n : Name) (ps : List Piece)
    → IsName n.str
    → any is_placeholder ps ≡ true
    → All (Permitted false) ps
    → is_visible (fill n ps) ≡ true
fill-is_visible n [] h e m = absurd (ground arith)
fill-is_visible n (literal s ∷ ps) h e m =
    is_visible-right s (fill n ps) (fill-is_visible n ps h e m.1)
fill-is_visible n (Piece.name ∷ ps) h e m =
    is_visible-left n.str (fill n ps) (name-is_visible n.str h)
fill-is_visible n (level l ∷ ps) h e m = absurd (ground (arith, m.0))

fill-literal :
    (n : Name) (ps : List Piece) → any is_placeholder ps ≡ false → fill n ps ≡ show_pieces ps
fill-literal n [] e = refl
fill-literal n (literal s ∷ ps) e = ap (λ t. s ++ t) (fill-literal n ps e)
fill-literal n (Piece.name ∷ ps) e = absurd (ground arith)
fill-literal n (level l ∷ ps) e = absurd (ground arith)

pub plain-Free : (s : Text) → is_plain_component s ≡ true → Free slash s
plain-Free s h = contains-Free slash s (ground arith)

-- A filled component is a plain name.
pub fill-plain :
    (n : Name) (ps : List Piece)
    → IsName n.str
    → IsComponent false ps
    → is_plain_component (fill n ps) ≡ true
fill-plain n ps h m = elim (Bool-cases (any is_placeholder ps)) [
  | inl e ↦
      is_visible-plain (fill n ps) (fill-is_visible n ps h e m.1)
        (Free-contains slash (fill n ps) (fill-Free n ps h (plain-Free (show_pieces ps) m.0)))
  | inr e ↦ rw (fill-literal n ps e) m.0
]

-- The length with every component added.
abbrev total_of : List Text → ℕ → List Text → ℕ
total_of out total [] = total
total_of out total (c ∷ cs) = total_of (out ++ (c ∷ [])) (add_length out total c) cs

abbrev lengths : List Text → ℕ
lengths [] = 0
lengths (c ∷ cs) = (1 + length c) + lengths cs

snoc-cons : (xs : List Text) (c : Text) → is_empty (xs ++ (c ∷ [])) ≡ false
snoc-cons [] c = refl
snoc-cons (x ∷ xs) c = refl

total_of-lengths :
    (out : List Text) (total : ℕ) (cs : List Text)
    → is_empty out ≡ false
    → total_of out total cs ≡ total + lengths cs
total_of-lengths out total [] e = omega arith
total_of-lengths out total (c ∷ cs) e =
    total_of-lengths (out ++ (c ∷ [])) (add_length out total c) cs (snoc-cons out c)
    ∙ (rw e (omega arith))

length-join : (c : Text) (cs : List Text) → length (join slash (c ∷ cs)) ≡ length c + lengths cs
unfolding join
length-join c [] = omega arith
length-join c (d ∷ cs) =
    omega (arith, length-append c (slash ∷ join slash (d ∷ cs)), length-join d cs)

total_of-join : (cs : List Text) → total_of [] 0 cs ≡ length (join slash cs)
unfolding join
total_of-join [] = refl
total_of-join (c ∷ cs) =
    total_of-lengths (c ∷ []) (0 + (length c + 0)) cs refl ∙ omega (arith, length-join c cs)

abbrev first_long : List Text → Option Text
first_long = find (λ c. ltb max_name_len (length c))

abbrev pub check_path_length : Option Text → List Text → ℕ → Result InterpolateError (List Text)
check_path_length (some c) cs total = err (component_too_long (length c))
check_path_length none cs total =
    if ltb max_path_len total then err (path_too_long total) else ok cs

-- The reference: the first filled component over the limit is an error, then the path over its
-- limit, and otherwise the filled components are the result.
abbrev pub measure : List Text → Result InterpolateError (List Text)
measure cs = check_path_length (first_long cs) cs (length (join slash cs))

abbrev or_long : Option Text → List Text × ℕ → Result InterpolateError (List Text × ℕ)
or_long (some c) r = err (component_too_long (length c))
or_long none r = ok r

interpolate_all-first_long :
    (n : Name) (out : List Text) (total : ℕ) (pss : List (List Piece))
    → IsName n.str
    → All (IsComponent false) pss
    → interpolate_all n out total pss
      ≡ or_long
          (first_long (map (fill n) pss))
          (out ++ map (fill n) pss, total_of out total (map (fill n) pss))
unfolding interpolate_all
interpolate_all-first_long n out total [] h m = rw (append_nil out) refl
interpolate_all-first_long n out total (ps ∷ pss) h m =
    let filled = interpolate_pieces-fill n ps m.0.1 in
    let plain = fill-plain n ps h m.0 in
    let total' = add_length out total (fill n ps) in
    let rest = interpolate_all-first_long n (out ++ (fill n ps ∷ [])) total' pss h m.1 in
    let same = append_assoc out (fill n ps ∷ []) (map (fill n) pss) in
    rw filled (elim (Bool-cases (ltb max_name_len (length (fill n ps)))) [
      | inl e ↦ rw e refl
      | inr e ↦
          rw (e, plain)
            (rest
              ∙ ap
                  (λ cs.
                    or_long (first_long (map (fill n) pss))
                      (cs, total_of (out ++ (fill n ps ∷ [])) total' (map (fill n) pss)))
                  same)
    ])

check_total-or_long :
    (o : Option Text) (cs : List Text) (total : ℕ)
    → (or_long o (cs, total) >>= λ all. check_total all) ≡ check_path_length o cs total
check_total-or_long none cs total = refl
check_total-or_long (some c) cs total = refl

-- Interpolation of a name in a template without levels is the reference, errors included: so no
-- component is ever refused for its form, and no level is found unbound.
pub components-measure :
    (t : Template) (n : Name)
    → IsTemplate false t
    → IsName n.str
    → components t n ≡ measure (map (fill n) t.components)
unfolding components
components-measure t n w h =
    let cs = map (fill n) t.components in
    rw (interpolate_all-first_long n [] 0 t.components h w.parts) (
      check_total-or_long (first_long cs) cs (total_of [] 0 cs)
      ∙ ap (check_path_length (first_long cs) cs) (total_of-join cs))
