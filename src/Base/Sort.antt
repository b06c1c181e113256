-- ===== src/Base/Sort.antt =====
-- `sort_by`, `sort_unstable` and `dedup` of slices. The sort is stable; on numbers stability does
-- not show.
use Prim.Native.Nat.{ℕ, zero, suc, ◌≤◌, Ordering, compare}
use mathlib.Core.Path.{◌≡◌, refl, sym}
use mathlib.Core.Logic.{◌⊎◌, ◌≢◌, inl, inr}
use mathlib.Core.List.{List, [], ◌∷◌}
use mathlib.Core.Option.{some}
use native.Mathlib.Omega.{arith}
use byssus.Base.Tests.{if◌then◌else◌}
use byssus.Base.Order.{Eq, ◌==◌}
use byssus.Base.Lists.{All, All-mono, All-get, Elem, IsNodup, get_elem?, get_elem?-Elem}

module _ {A : Type 0} (cmp : A → A → Ordering) where
  -- `x` stood before all of the list, so it stays before its equals.
  abbrev place : A → List A → List A
  place x [] = x ∷ []
  place x (y ∷ ys) =
      let rest = place x ys in elim (cmp x y) [ Ordering.gt ↦ y ∷ rest | _ ↦ x ∷ y ∷ ys ]

  unfoldable pub sort_by : List A → List A
  sort_by [] = []
  sort_by (x ∷ xs) = place x (sort_by xs)

-- Each element that equals the one kept before it is dropped.
module _ {A : Type 0} ⦃e : Eq A⦄ where
  abbrev pub dedup_after : A → List A → List A
  dedup_after x [] = []
  dedup_after x (y ∷ ys) =
      let same = dedup_after x ys in
      let other = y ∷ dedup_after y ys in if x == y then same else other

  unfoldable pub dedup : List A → List A
  dedup [] = []
  dedup (x ∷ xs) = x ∷ dedup_after x xs

-- A sort keeps the elements, and whatever holds of all of them.
module _ {A : Type 0} (cmp : A → A → Ordering) where
  All-place : (P : A → Type 0) (x : A) (ys : List A) → P x → All P ys → All P (place cmp x ys)
  All-place P x [] h a = (h, tt)
  All-place P x (y ∷ ys) h a = ground (arith, All-place P x ys h a.1)

  pub All-sort_by : (P : A → Type 0) (xs : List A) → All P xs → All P (sort_by cmp xs)
  unfolding sort_by
  All-sort_by P [] a = tt
  All-sort_by P (x ∷ xs) a = All-place P x (sort_by cmp xs) a.0 (All-sort_by P xs a.1)

  IsNodup-place :
      (x : A) (ys : List A) → All (λ y. x ≢ y) ys → IsNodup ys → IsNodup (place cmp x ys)
  IsNodup-place x [] h n = (tt, tt)
  IsNodup-place x (y ∷ ys) h n =
      ground (arith, IsNodup-place x ys h.1 n.1, All-place (λ z. y ≢ z) x ys (λ e. h.0 (sym e)) n.0)

  pub IsNodup-sort_by : (xs : List A) → IsNodup xs → IsNodup (sort_by cmp xs)
  unfolding sort_by
  IsNodup-sort_by [] n = tt
  IsNodup-sort_by (x ∷ xs) n =
      IsNodup-place x (sort_by cmp xs) (All-sort_by (λ y. x ≢ y) xs n.0) (IsNodup-sort_by xs n.1)

  Elem-place_self : (x : A) (ys : List A) → Elem x (place cmp x ys)
  Elem-place_self x [] = inl refl
  Elem-place_self x (y ∷ ys) = ground (arith, Elem-place_self x ys)

  Elem-place : (x a : A) (ys : List A) → Elem a ys → Elem a (place cmp x ys)
  Elem-place x a [] h = elim h [ ]
  Elem-place x a (y ∷ ys) h = ground (arith, Elem-place x a ys)

  pub Elem-sort_by : (xs : List A) (a : A) → Elem a xs → Elem a (sort_by cmp xs)
  unfolding sort_by
  Elem-sort_by [] a h = h
  Elem-sort_by (x ∷ xs) a (inl e) = rw e (Elem-place_self x (sort_by cmp xs))
  Elem-sort_by (x ∷ xs) a (inr h) = Elem-place x a (sort_by cmp xs) (Elem-sort_by xs a h)

-- Sorted by a number that is read off each element.
module _ {A : Type 0} (f : A → ℕ) where
  abbrev pub by_number : A → A → Ordering
  by_number x y = compare (f x) (f y)

  abbrev pub Ascends : List A → Type 0
  Ascends [] = Unit
  Ascends (x ∷ xs) = All (λ y. f x ≤ f y) xs × Ascends xs

  Ascends-place : (x : A) (ys : List A) → Ascends ys → Ascends (place by_number x ys)
  Ascends-place x [] h = (tt, tt)
  Ascends-place x (y ∷ ys) h = ground (
    arith,
    Ascends-place x ys h.1,
    λ (p : f y ≤ f x). All-place by_number (λ z. f y ≤ f z) x ys p h.0,
    λ (p : f x ≤ f y). All-mono (λ z. f y ≤ f z) (λ z. f x ≤ f z) ys (λ z q. omega arith) h.0,
  )

  pub sort_by-Ascends : (xs : List A) → Ascends (sort_by by_number xs)
  unfolding sort_by
  sort_by-Ascends [] = tt
  sort_by-Ascends (x ∷ xs) = Ascends-place x (sort_by by_number xs) (sort_by-Ascends xs)

  pub Ascends-get :
      (xs : List A) (i j : ℕ) (a b : A)
      → Ascends xs
      → i ≤ j
      → get_elem? xs i ≡ some a
      → get_elem? xs j ≡ some b
      → f a ≤ f b
  Ascends-get [] i j a b s le p q = absurd (ground arith)
  Ascends-get (x ∷ xs) zero zero a b s le p q = ground arith
  Ascends-get (x ∷ xs) zero (suc j) a b s le p q =
      let e : x ≡ a = ground arith in
      rw (← e) (All-get (λ y. f x ≤ f y) xs b s.0 (get_elem?-Elem xs j b q))
  Ascends-get (x ∷ xs) (suc i) zero a b s le p q = absurd (omega arith)
  Ascends-get (x ∷ xs) (suc i) (suc j) a b s le p q = Ascends-get xs i j a b s.1 (omega arith) p q

module _ {A : Type 0} ⦃e : Eq A⦄ where
  All-dedup_after : (P : A → Type 0) (x : A) (ys : List A) → All P ys → All P (dedup_after x ys)
  All-dedup_after P x [] a = tt
  All-dedup_after P x (y ∷ ys) a =
      ground (arith, All-dedup_after P x ys a.1, All-dedup_after P y ys a.1)

  pub All-dedup : (P : A → Type 0) (xs : List A) → All P xs → All P (dedup xs)
  unfolding dedup
  All-dedup P [] a = tt
  All-dedup P (x ∷ xs) a = (a.0, All-dedup_after P x xs a.1)

  Elem-dedup_after : (x a : A) (ys : List A) → Elem a ys → (a ≡ x) ⊎ Elem a (dedup_after x ys)
  Elem-dedup_after x a [] h = elim h [ ]
  Elem-dedup_after x a (y ∷ ys) h =
      ground (arith, e.beq_iff x y, Elem-dedup_after x a ys, Elem-dedup_after y a ys)

  pub Elem-dedup : (xs : List A) (a : A) → Elem a xs → Elem a (dedup xs)
  unfolding dedup
  Elem-dedup [] a h = h
  Elem-dedup (x ∷ xs) a (inl p) = inl p
  Elem-dedup (x ∷ xs) a (inr h) = Elem-dedup_after x a xs h
