-- ===== src/Base/Set.antt =====
-- `BTreeSet`: a list kept in the order of its elements, which is the order of iteration.
use byssus.Base.Order.{Ord, contains, eq_of_ord}
use Prim.Native.Nat.{Ordering}
use mathlib.Core.Path.{◌≡◌}
use mathlib.Core.Bool.{Bool, true}
use mathlib.Core.List.{List, [], ◌∷◌}
use native.Mathlib.Omega.{arith}

module _ {K : Type 0} ⦃o : Ord K⦄ where
  unfoldable pub insert : K → List K → List K
  insert k [] = k ∷ []
  insert k (j ∷ s) =
      let rest = insert k s in
      elim (o.cmp k j) [ Ordering.lt ↦ k ∷ j ∷ s | Ordering.eq ↦ j ∷ s | Ordering.gt ↦ j ∷ rest ]

  unfoldable pub extend : List K → List K → List K
  extend s [] = s
  extend s (k ∷ ks) = extend (insert k s) ks

  -- `BTreeSet::contains`
  abbrev pub has : List K → K → Bool
  has = contains ⦃e = eq_of_ord o⦄

  pub has-insert_self : (k : K) (s : List K) → has (insert k s) k ≡ true
  unfolding insert
  has-insert_self k [] = ground (arith, o.cmp_eq k k)
  has-insert_self k (j ∷ s) = ground (arith, has-insert_self k s, o.cmp_eq k k, o.cmp_eq k j)

  pub has-insert : (j k : K) (s : List K) → has s j ≡ true → has (insert k s) j ≡ true
  unfolding insert
  has-insert j k [] h = absurd (ground arith)
  has-insert j k (i ∷ s) h = ground (arith, has-insert j k s)

  -- What is in the set stays, and what it is extended by is in it.
  pub has-extend : (j : K) (ks s : List K) → has s j ≡ true → has (extend s ks) j ≡ true
  unfolding extend
  has-extend j [] s h = h
  has-extend j (k ∷ ks) s h = has-extend j ks (insert k s) (has-insert j k s h)

  pub extend-has : (j : K) (ks s : List K) → has ks j ≡ true → has (extend s ks) j ≡ true
  unfolding extend
  extend-has j [] s h = absurd (ground arith)
  extend-has j (k ∷ ks) s h =
      let stays = has-extend k ks (insert k s) (has-insert_self k s) in
      let later = extend-has j ks (insert k s) in ground (arith, o.cmp_eq k j)
