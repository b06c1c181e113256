-- ===== src/Template/Clean.antt =====
-- The paths that templates give, beneath the roots and in the state file (src/template.rs,
-- src/state.rs).
use mathlib.Core.Path.{subst}
use byssus.Base.{
  ℕ, ◌≤◌, ◌<◌, ◌≡◌, refl, sym, true, false, Option, none, some, List, [], ◌∷◌, map, find, all,
  length, is_empty, ltb, ◌==◌, nat_eq, list_eq, All, All-mono, All-map, ok, Yields, bind-Yields,
  Bool-cases, inl, inr, Text, slash, Free, join, split, split-join, Free-contains, contains-Free,
  Free-append, arith,
}
use byssus.Name.{Name, max_name_len, is_allowed_byte}
use byssus.Name.Allowed.{IsName}
use byssus.State.Codec.{is_clean_component, is_clean_relative}
use byssus.Template.{Template, Piece, literal, level, max_path_len, placeholder, has_name}
use byssus.Template.Interpolation.{is_plain_component, components, interpolate}
use byssus.Template.Shown.{show_piece, show_pieces}
use byssus.Template.WellFormed.{IsTemplate}
use byssus.Template.Interpolated.{
  fill, fill-plain, plain-Free, Free-concat, measure, check_path_length, components-measure,
}

-- Within the limits, and the components as given.
abbrev pub Fits : List Text → List Text → Type 0
Fits cs r =
    (r ≡ cs) × (length (join slash cs) ≤ max_path_len) × All (λ c. length c ≤ max_name_len) cs

find-short :
    (cs : List Text)
    → find (λ c. ltb max_name_len (length c)) cs ≡ none
    → All (λ c. length c ≤ max_name_len) cs
find-short [] h = tt
find-short (c ∷ cs) h = elim (Bool-cases (ltb max_name_len (length c))) [
  | inl e ↦ absurd (ground (arith))
  | inr e ↦
      let rest : find (λ c. ltb max_name_len (length c)) cs ≡ none = ground arith in
      (ground arith, find-short cs rest)
]

measure-Fits_of :
    (o : Option Text) (cs : List Text)
    → find (λ c. ltb max_name_len (length c)) cs ≡ o
    → Yields (Fits cs) (check_path_length o cs (length (join slash cs)))
measure-Fits_of (some c) cs h = tt
measure-Fits_of none cs h = elim (Bool-cases (ltb max_path_len (length (join slash cs)))) [
  | inl e ↦ rw e tt
  | inr e ↦ let short = find-short cs h in rw e (refl, ground arith, short)
]

pub measure-Fits : (cs : List Text) → Yields (Fits cs) (measure cs)
measure-Fits cs = measure-Fits_of _ cs refl

allowed_nul : (b : ℕ) → is_allowed_byte b ≡ true → (b == 0) ≡ false
unfolding is_allowed_byte
allowed_nul b h = ground arith

allowed-no_nul : (s : Text) → All (λ b. is_allowed_byte b ≡ true) s → Free 0 s
allowed-no_nul s h = All-mono _ _ s (λ b e. allowed_nul b e) h

fill-no_nul :
    (n : Name) (ps : List Piece) → IsName n.str → Free 0 (show_pieces ps) → Free 0 (fill n ps)
fill-no_nul n [] h k = k
fill-no_nul n (literal s ∷ ps) h k =
    let r = Free-append 0 s (show_pieces ps) k in
    Free-concat 0 s (fill n ps) r.0 (fill-no_nul n ps h r.1)
fill-no_nul n (Piece.name ∷ ps) h k =
    Free-concat 0 n.str (fill n ps) (allowed-no_nul n.str h.allowed)
      (fill-no_nul n ps h (Free-append 0 placeholder (show_pieces ps) k).1)
fill-no_nul n (level l ∷ ps) h k =
    fill-no_nul n ps h (Free-append 0 (show_piece (level l)) (show_pieces ps) k).1

Free-join : (b : ℕ) (cs : List Text) → Free b (join slash cs) → All (Free b) cs
unfolding join
Free-join b [] h = tt
Free-join b (c ∷ []) h = (h, tt)
Free-join b (c ∷ d ∷ cs) h =
    let r = Free-append b c (slash ∷ join slash (d ∷ cs)) h in (r.0, Free-join b (d ∷ cs) r.1.1)

join-Free :
    (b : ℕ) (cs : List Text) → (slash == b) ≡ false → All (Free b) cs → Free b (join slash cs)
unfolding join
join-Free b [] e h = tt
join-Free b (c ∷ []) e h = h.0
join-Free b (c ∷ d ∷ cs) e h =
    Free-concat b c (slash ∷ join slash (d ∷ cs)) h.0 (e, join-Free b (d ∷ cs) e h.1)

plain-clean : (c : Text) → is_plain_component c ≡ true → is_clean_component c ≡ true
plain-clean c h = ground arith

all-clean :
    (cs : List Text) → All (λ c. is_plain_component c ≡ true) cs → all is_clean_component cs ≡ true
all-clean [] h = refl
all-clean (c ∷ cs) h = rw (plain-clean c h.0) (all-clean cs h.1)

plain-is_empty : (c : Text) → is_plain_component c ≡ true → is_empty c ≡ false
plain-is_empty c h = ground arith

join-is_empty :
    (c : Text) (cs : List Text) → is_empty c ≡ false → is_empty (join slash (c ∷ cs)) ≡ false
unfolding join
join-is_empty [] cs h = absurd (ground arith)
join-is_empty (x ∷ c) [] h = refl
join-is_empty (x ∷ c) (d ∷ cs) h = refl

join-plain :
    (c : Text) (cs : List Text)
    → All (λ c. is_plain_component c ≡ true) (c ∷ cs)
    → All (Free 0) (c ∷ cs)
    → is_clean_relative (join slash (c ∷ cs)) ≡ true
unfolding is_clean_relative
join-plain c cs h k =
    let free = All-mono _ (Free slash) (c ∷ cs) plain-Free h in
    let pieces = split-join slash c cs free in
    let nul = Free-contains 0 (join slash (c ∷ cs)) (join-Free 0 (c ∷ cs) refl k) in
    rw (pieces, nul)
      (rw (all-clean (c ∷ cs) h) (rw (join-is_empty c cs (plain-is_empty c h.0)) refl))

-- What a relative path must be to stand in the state file and beneath a root, within its limits.
abbrev pub IsPath : Text → Type 0
IsPath path =
    (is_clean_relative path ≡ true)
    × (length path ≤ max_path_len)
    × All (λ c. length c ≤ max_name_len) (split slash path)

map-All :
    {A B : Type 0} (f : A → B) (P : B → Type 0) (xs : List A)
    → All P (map f xs)
    → All (λ a. P (f a)) xs
map-All f P [] h = tt
map-All f P (x ∷ xs) h = (h.0, map-All f P xs h.1)

has_name-length :
    (n : Name) (pss : List (List Piece)) → has_name pss ≡ true → 0 < length (map (fill n) pss)
has_name-length n [] h = absurd (ground arith)
has_name-length n (ps ∷ pss) h = omega arith

fill-All :
    (t : Template) (n : Name)
    → IsTemplate false t
    → IsName n.str
    → All (λ c. is_plain_component c ≡ true) (map (fill n) t.components)
      × All (Free 0) (map (fill n) t.components)
fill-All t n w h =
    let shown =
      Free-join 0 (map show_pieces t.components)
        (subst (Free 0) (sym w.shown) (contains-Free 0 t.raw w.no_nul)) in
    (
      All-map (fill n) _ t.components (All-mono _ _ t.components (λ ps. fill-plain n ps h) w.parts),
      All-map (fill n) _ t.components (
          All-mono _ _ t.components (λ ps. fill-no_nul n ps h)
            (map-All show_pieces (Free 0) t.components shown)),
    )

join-IsPath :
    (cs r : List Text)
    → 0 < length cs
    → All (λ c. is_plain_component c ≡ true) cs
    → All (Free 0) cs
    → Fits cs r
    → IsPath (join slash r)
join-IsPath [] r e h k f = absurd (omega arith)
join-IsPath (c ∷ cs) r e h k f =
    let free = All-mono _ (Free slash) (c ∷ cs) plain-Free h in
    subst (λ x. IsPath (join slash x)) (sym f.0)
      (
        join-plain c cs h k,
        f.1,
        subst (All (λ x. length x ≤ max_name_len)) (sym (split-join slash c cs free)) f.2,
      )

interpolate-Yields :
    (t : Template) (n : Name) → IsTemplate false t → IsName n.str → Yields IsPath (interpolate t n)
unfolding interpolate
interpolate-Yields t n w h =
    let cs = map (fill n) t.components in
    let all = fill-All t n w h in
    let some_component = has_name-length n t.components w.named in
    bind-Yields (Fits cs) _ (components t n) _
      (subst (Yields (Fits cs)) (sym (components-measure t n w h)) (measure-Fits cs))
      (λ r f. join-IsPath cs r some_component all.0 all.1 f)

-- A path that interpolation gives is relative, with no empty, `.` or `..` component and no NUL
-- byte, within the limits on the path and on each component: the decoder of the state file takes it.
pub interpolate-IsPath :
    (t : Template) (n : Name) (path : Text)
    → IsTemplate false t
    → IsName n.str
    → interpolate t n ≡ ok path
    → IsPath path
interpolate-IsPath t n path w h e = subst (Yields IsPath) e (interpolate-Yields t n w h)
