-- ===== src/Base/Bytes.antt =====
-- Text as its bytes. Rust's `str` is UTF-8, and everything that the program searches, splits or
-- measures in it is a byte: the separators are ASCII, and `len` counts bytes.
use Prim.Native.Char.{code}
use Prim.Native.String.{String}
use Prim.Native.Nat.{ℕ}
use native.Mathlib.Omega.{arith}
use mathlib.Core.Path.{◌≡◌, refl}
use mathlib.Core.List.{List, [], ◌∷◌, ◌++◌}
use mathlib.Core.Option.{Option, none, some}
use mathlib.Core.Bool.{true, false}
use mathlib.Core.Logic.{inl, inr}
use byssus.Base.Tests.{if◌then◌else◌, Bool-cases}
use byssus.Base.Order.{◌==◌, nat_eq, list_eq, beq_nat_iff, contains}
use byssus.Base.Lists.{All}

abbrev pub Text : Type 0
Text = List ℕ

-- The bytes of an ASCII literal.
abbrev pub text : String → Text
text String.[] = []
text (String.◌∷◌ c s) = code c ∷ text s

abbrev cons_first : ℕ → List Text → List Text
cons_first b [] = (b ∷ []) ∷ []
cons_first b (p ∷ ps) = (b ∷ p) ∷ ps

-- `str::split` and `slice::split` at one byte: never empty, and a separator at an end leaves an
-- empty piece there.
unfoldable pub split : ℕ → Text → List Text
split sep [] = [] ∷ []
split sep (b ∷ s) = let rest = split sep s in if b == sep then [] ∷ rest else cons_first b rest

-- `[&str]::join` with one byte
unfoldable pub join : ℕ → List Text → Text
join sep [] = []
join sep (p ∷ []) = p
join sep (p ∷ q ∷ ps) = p ++ (sep ∷ join sep (q ∷ ps))

-- `strip_prefix`
abbrev pub strip_prefix : Text → Text → Option Text
strip_prefix [] s = some s
strip_prefix (p ∷ ps) [] = none
strip_prefix (p ∷ ps) (b ∷ s) = if p == b then strip_prefix ps s else none

abbrev pub slash : ℕ
slash = 47

abbrev pub dot : ℕ
dot = 46

-- The byte does not occur in the text.
abbrev pub Free : ℕ → Text → Type 0
Free sep = All (λ b. (b == sep) ≡ false)

pub split-Free : (sep : ℕ) (s : Text) → Free sep s → split sep s ≡ s ∷ []
unfolding split
split-Free sep [] h = refl
split-Free sep (b ∷ s) h = rw (split-Free sep s h.1, h.0)

-- A piece without the separator comes off the front.
pub split-append :
    (sep : ℕ) (p s : Text) → Free sep p → split sep (p ++ (sep ∷ s)) ≡ p ∷ split sep s
unfolding split
split-append sep [] s h = rw ((beq_nat_iff sep sep).1 refl)
split-append sep (b ∷ p) s h = rw (split-append sep p s h.1, h.0)

-- `split` undoes `join` on pieces that lack the separator.
pub split-join :
    (sep : ℕ) (p : Text) (ps : List Text)
    → All (Free sep) (p ∷ ps)
    → split sep (join sep (p ∷ ps)) ≡ p ∷ ps
unfolding join
split-join sep p [] h = split-Free sep p h.0
split-join sep p (q ∷ ps) h = rw (split-append, split-join sep q ps h.1, h.0)

join-cons_first :
    (sep b : ℕ) (p : Text) (ps : List Text)
    → join sep (cons_first b (p ∷ ps)) ≡ b ∷ join sep (p ∷ ps)
unfolding join
join-cons_first sep b p [] = refl
join-cons_first sep b p (q ∷ ps) = refl

pub split-cons : (sep : ℕ) (s : Text) → (p : Text) × (ps : List Text) × (split sep s ≡ p ∷ ps)
unfolding split
split-cons sep [] = ([], [], refl)
split-cons sep (b ∷ s) =
    let (p, ps, e) = split-cons sep s in
    elim (b == sep)
      as (λ t.
        (q : Text) × (qs : List Text) × ((if t
            then [] ∷ split sep s
            else cons_first b (split sep s))
          ≡ q ∷ qs)) [ true ↦ ([], split sep s, refl) | false ↦ rw e (b ∷ p, ps, refl) ]

-- `join` undoes `split`.
pub join-split : (sep : ℕ) (s : Text) → join sep (split sep s) ≡ s
unfolding split join
join-split sep [] = refl
join-split sep (b ∷ s) =
    let (p, ps, e) = split-cons sep s in
    ground (arith, join-split sep s, join-cons_first sep b p ps, beq_nat_iff b sep)

cons_first-Free :
    (sep b : ℕ) (ps : List Text)
    → (b == sep) ≡ false
    → All (Free sep) ps
    → All (Free sep) (cons_first b ps)
cons_first-Free sep b [] e h = ((e, tt), tt)
cons_first-Free sep b (p ∷ ps) e h = ((e, h.0), h.1)

-- The pieces of a text lack the separator.
pub split-All : (sep : ℕ) (s : Text) → All (Free sep) (split sep s)
unfolding split
split-All sep [] = (tt, tt)
split-All sep (b ∷ s) =
    let rest = split-All sep s in
    elim (Bool-cases (b == sep)) [
      | inl e ↦ rw e (tt, rest)
      | inr e ↦ rw e (cons_first-Free sep b (split sep s) e rest)
    ]

pub Free-contains : (sep : ℕ) (s : Text) → Free sep s → contains s sep ≡ false
Free-contains sep [] h = refl
Free-contains sep (b ∷ s) h = rw (h.0) (Free-contains sep s h.1)

pub contains-Free : (sep : ℕ) (s : Text) → contains s sep ≡ false → Free sep s
contains-Free sep [] h = tt
contains-Free sep (b ∷ s) h =
    let e : (b == sep) ≡ false = ground arith in
    let f : contains s sep ≡ false = ground arith in (e, contains-Free sep s f)

-- The parts of a text lack what it lacks.
pub Free-append : (sep : ℕ) (a b : Text) → Free sep (a ++ b) → Free sep a × Free sep b
Free-append sep [] b h = (tt, h)
Free-append sep (x ∷ a) b h = let r = Free-append sep a b h.1 in ((h.0, r.0), r.1)
