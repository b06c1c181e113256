-- ===== src/Base/Map.antt =====
-- `BTreeMap` and `BTreeSet`: an association list kept in the order of its keys, which is the order
-- of iteration.
use byssus.Base.Lists.{All, Elem, IsNodup}
use byssus.Base.Order.{Ord}
use byssus.Base.Tests.{if◌then◌else◌}
use mathlib.Core.Bool.{Bool}
use Prim.Native.Nat.{Ordering}
use mathlib.Core.Path.{◌≡◌, refl, ap, ◌∙◌}
use mathlib.Core.Logic.{◌≢◌, ◌↔◌, ◌⊎◌, inl, inr}
use mathlib.Core.List.{List, [], ◌∷◌, ◌++◌}
use mathlib.Core.Option.{Option, none, some}
use native.Mathlib.Omega.{arith}

abbrev pub Map : Type 0 → Type 0 → Type 0
Map K V = List (K × V)

module _ {K V : Type 0} ⦃o : Ord K⦄ where
  unfoldable pub get : K → Map K V → Option V
  get k [] = none
  get k ((j, v) ∷ m) = let rest = get k m in elim (o.cmp k j) [ Ordering.eq ↦ some v | _ ↦ rest ]

  unfoldable pub insert : K → V → Map K V → Map K V
  insert k v [] = (k, v) ∷ []
  insert k v ((j, w) ∷ m) =
      let rest = insert k v m in
      elim (o.cmp k j) [
        | Ordering.lt ↦ (k, v) ∷ (j, w) ∷ m
        | Ordering.eq ↦ (k, v) ∷ m
        | Ordering.gt ↦ (j, w) ∷ rest
      ]

  unfoldable pub remove : K → Map K V → Map K V
  remove k [] = []
  remove k ((j, v) ∷ m) =
      let rest = remove k m in elim (o.cmp k j) [ Ordering.eq ↦ rest | _ ↦ (j, v) ∷ rest ]

  -- `values`
  unfoldable pub values : Map K V → List V
  values [] = []
  values ((k, v) ∷ m) = v ∷ values m

  -- `keys`
  unfoldable pub keys : Map K V → List K
  keys [] = []
  keys ((k, v) ∷ m) = k ∷ keys m

  -- `extend`
  unfoldable pub extend : Map K V → List (K × V) → Map K V
  unfolding insert
  extend m [] = m
  extend m ((k, v) ∷ es) = extend (insert k v m) es

  -- `retain`, by the key
  unfoldable pub retain : (K → Bool) → Map K V → Map K V
  retain p [] = []
  retain p ((k, v) ∷ m) = let rest = retain p m in if p k then (k, v) ∷ rest else rest

  pub get-insert :
      (k j : K) (v : V) (m : Map K V)
      → get j (insert k v m) ≡ elim (o.cmp j k) [ Ordering.eq ↦ some v | _ ↦ get j m ]
  unfolding get insert
  get-insert k j v [] = refl
  get-insert k j v ((i, w) ∷ m) =
      ground (arith, get-insert k j v m, o.cmp_eq k i, o.cmp_eq j i, o.cmp_eq j k, o.cmp_eq k k)

  pub get-insert_self : (k : K) (v : V) (m : Map K V) → get k (insert k v m) ≡ some v
  get-insert_self k v m = ground (arith, get-insert k k v m, o.cmp_eq k k)

  pub get-remove :
      (k j : K) (m : Map K V)
      → get j (remove k m) ≡ elim (o.cmp j k) [ Ordering.eq ↦ none | _ ↦ get j m ]
  unfolding get remove
  get-remove k j [] = ground arith
  get-remove k j ((i, w) ∷ m) =
      ground (arith, get-remove k j m, o.cmp_eq k i, o.cmp_eq j i, o.cmp_eq j k)

  pub get-remove_self : (k : K) (m : Map K V) → get k (remove k m) ≡ none
  get-remove_self k m = ground (arith, get-remove k k m, o.cmp_eq k k)

  -- Every key of the map comes after `k`.
  abbrev pub After : K → Map K V → Type 0
  After k = All (λ e. o.cmp k e.0 ≡ Ordering.lt)

  abbrev pub IsSorted : Map K V → Type 0
  IsSorted [] = Unit
  IsSorted ((k, v) ∷ m) = After k m × IsSorted m

  After-trans : (k j : K) (m : Map K V) → o.cmp k j ≡ Ordering.lt → After j m → After k m
  After-trans k j [] h a = tt
  After-trans k j ((i, w) ∷ m) h a = (o.cmp_trans k j i h a.0, After-trans k j m h a.1)

  After-insert :
      (k j : K) (v : V) (m : Map K V) → o.cmp k j ≡ Ordering.lt → After k m → After k (insert j v m)
  unfolding insert
  After-insert k j v [] h a = (h, tt)
  After-insert k j v ((i, w) ∷ m) h a = ground (arith, After-insert k j v m h a.1)

  pub insert-IsSorted : (k : K) (v : V) (m : Map K V) → IsSorted m → IsSorted (insert k v m)
  unfolding insert
  insert-IsSorted k v [] h = (tt, tt)
  insert-IsSorted k v ((j, w) ∷ m) h = ground (
    arith,
    o.cmp_eq k j,
    o.cmp_flip k j,
    After-trans k j m,
    After-insert j k v m,
    insert-IsSorted k v m h.1,
  )

  After-remove : (k j : K) (m : Map K V) → After k m → After k (remove j m)
  unfolding remove
  After-remove k j [] a = tt
  After-remove k j ((i, w) ∷ m) a = ground (arith, After-remove k j m a.1)

  pub remove-IsSorted : (k : K) (m : Map K V) → IsSorted m → IsSorted (remove k m)
  unfolding remove
  remove-IsSorted k [] h = tt
  remove-IsSorted k ((j, w) ∷ m) h = ground (arith, After-remove j k m h.0, remove-IsSorted k m h.1)

module _ {κ} {K V : Type 0} ⦃o : Ord K⦄ (P : K × V → Type κ) where
  -- A property of all entries survives `insert` and `remove`.
  pub All-insert : (k : K) (v : V) (m : Map K V) → P (k, v) → All P m → All P (insert k v m)
  unfolding insert
  All-insert k v [] h a = (h, tt)
  All-insert k v ((j, w) ∷ m) h a = ground (arith, All-insert k v m h a.1)

  pub All-remove : (k : K) (m : Map K V) → All P m → All P (remove k m)
  unfolding remove
  All-remove k [] a = tt
  All-remove k ((j, w) ∷ m) a = ground (arith, All-remove k m a.1)

module _ {K V : Type 0} ⦃o : Ord K⦄ where
  -- What a key looks up is an entry of the map.
  pub get-Elem : (k : K) (m : Map K V) (v : V) → get k m ≡ some v → Elem (k, v) m
  unfolding get
  get-Elem k [] v h = absurd (ground arith)
  get-Elem k ((j, w) ∷ m) v h = ground (arith, o.cmp_eq k j, get-Elem k m v)

  After-get : (k j : K) (m : Map K V) (v : V) → After k m → Elem (j, v) m → o.cmp k j ≡ Ordering.lt
  After-get k j [] v a h = elim h [ ]
  After-get k j ((i, w) ∷ m) v a (inl e) = rw (ap (λ (p : K × V). p.0) e) a.0
  After-get k j ((i, w) ∷ m) v a (inr h) = After-get k j m v a.1 h

  -- In a sorted map every entry is the one that its key looks up.
  pub Elem-get : (k : K) (m : Map K V) (v : V) → IsSorted m → Elem (k, v) m → get k m ≡ some v
  unfolding get
  Elem-get k [] v s h = elim h [ ]
  Elem-get k ((j, w) ∷ m) v s (inl e) = ground (arith, o.cmp_eq k j)
  Elem-get k ((j, w) ∷ m) v s (inr h) =
      ground (arith, Elem-get k m v s.1 h, After-get j k m v s.0 h, o.cmp_flip j k)

-- A relation between any two entries, in the order of the map.
module _ {K V : Type 0} ⦃o : Ord K⦄ (R : K × V → K × V → Type 0) where
  abbrev pub Pairwise : Map K V → Type 0
  Pairwise [] = Unit
  Pairwise (e ∷ m) = All (R e) m × Pairwise m

  -- A new entry that stands in the relation to all others, both ways, keeps it.
  pub insert-Pairwise :
      (k : K) (v : V) (m : Map K V)
      → All (R (k, v)) m
      → All (λ e. R e (k, v)) m
      → Pairwise m
      → Pairwise (insert k v m)
  unfolding insert
  insert-Pairwise k v [] after before p = (tt, tt)
  insert-Pairwise k v ((j, w) ∷ m) after before p =
      ground (
        arith,
        insert-Pairwise k v m after.1 before.1 p.1,
        All-insert (R (j, w)) k v m before.0 p.0,
      )

module _ {K V : Type 0} ⦃o : Ord K⦄ where
  get-After : (k : K) (m : Map K V) → After k m → get k m ≡ none
  unfolding get
  get-After k [] h = refl
  get-After k ((j, v) ∷ m) h = ground (arith, get-After k m h.1, h.0)

  remove_absent : (k : K) (m : Map K V) → get k m ≡ none → remove k m ≡ m
  unfolding get remove
  remove_absent k [] h = refl
  remove_absent k ((j, v) ∷ m) h = ground (arith, remove_absent k m)

  -- What an insertion of a new key did, its removal undoes.
  pub remove-insert :
      (k : K) (v : V) (m : Map K V) → IsSorted m → get k m ≡ none → remove k (insert k v m) ≡ m
  unfolding get remove insert
  remove-insert k v [] s h = ground (arith, o.cmp_eq k k)
  remove-insert k v ((j, w) ∷ m) s h =
      ground (arith, o.cmp_eq k k, remove-insert k v m s.1, remove_absent k m)

  -- What a replacement did, the insertion of the previous value undoes.
  pub insert-insert :
      (k : K) (v w : V) (m : Map K V)
      → IsSorted m
      → get k m ≡ some w
      → insert k w (insert k v m) ≡ m
  unfolding get insert
  insert-insert k v w [] s h = absurd (ground arith)
  insert-insert k v w ((j, u) ∷ m) s h = ground (
    arith,
    o.cmp_eq k k,
    o.cmp_eq k j,
    insert-insert k v w m s.1,
    get-After k m,
    After-trans k j m,
  )

  pub get-insert_ne : (k j : K) (v : V) (m : Map K V) → j ≢ k → get j (insert k v m) ≡ get j m
  get-insert_ne k j v m n = ground (arith, get-insert k j v m, o.cmp_eq j k)

  pub get-remove_ne : (k j : K) (m : Map K V) → j ≢ k → get j (remove k m) ≡ get j m
  get-remove_ne k j m n = ground (arith, get-remove k j m, o.cmp_eq j k)

  abbrev pub last : K → V → Map K V → Map K V → Map K V
  last k v m rest = m ++ ((k, v) ∷ rest)

  cmp-After :
      (j k : K) (v : V) (m rest : Map K V) → After j (last k v m rest) → o.cmp j k ≡ Ordering.lt
  cmp-After j k v [] rest h = h.0
  cmp-After j k v ((i, w) ∷ m) rest h = cmp-After j k v m rest h.1

  -- A key after all others goes to the end.
  pub insert-last :
      (k : K) (v : V) (m rest : Map K V)
      → IsSorted (last k v m rest)
      → (insert k v m ≡ last k v m []) × (get k m ≡ none)
  unfolding insert get
  insert-last k v [] rest h = (refl, refl)
  insert-last k v ((j, w) ∷ m) rest h =
      ground (arith, cmp-After j k v m rest h.0, o.cmp_flip j k, insert-last k v m rest h.1)

  pub append-last : (k : K) (v : V) (m rest : Map K V) → last k v m [] ++ rest ≡ last k v m rest
  append-last k v [] rest = refl
  append-last k v (e ∷ m) rest = λ i. e ∷ append-last k v m rest i

  -- A look at the front entry.
  pub get-cons_self : (k : K) (v : V) (m : Map K V) → get k ((k, v) ∷ m) ≡ some v
  unfolding get
  get-cons_self k v m = ground (arith, o.cmp_eq k k)

  pub get-cons_ne : (k j : K) (v : V) (m : Map K V) → k ≢ j → get k ((j, v) ∷ m) ≡ get k m
  unfolding get
  get-cons_ne k j v m n = ground (arith, o.cmp_eq k j)

module _ {K : Type 0} ⦃o : Ord K⦄ where
  pub key-cases : (k j : K) → (k ≡ j) ⊎ (k ≢ j)
  key-cases k j =
      elim (o.cmp k j) as (λ c. (c ≡ Ordering.eq) ↔ (k ≡ j) → (k ≡ j) ⊎ (k ≢ j)) [
        | Ordering.lt ↦ λ h. inr (λ e. absurd (ground (arith, h.1 e)))
        | Ordering.eq ↦ λ h. inl (h.0 refl)
        | Ordering.gt ↦ λ h. inr (λ e. absurd (ground (arith, h.1 e)))
      ]
        (o.cmp_eq k j)

module _ {K V : Type 0} ⦃o : Ord K⦄ where
  -- The keys of entries that stand in no order.
  abbrev pub firsts : List (K × V) → List K
  firsts [] = []
  firsts ((k, v) ∷ es) = k ∷ firsts es

  pub get-extend_ne :
      (k : K) (es : List (K × V)) (m : Map K V)
      → All (λ j. k ≢ j) (firsts es)
      → get k (extend m es) ≡ get k m
  unfolding extend
  get-extend_ne k [] m h = refl
  get-extend_ne k ((j, v) ∷ es) m h =
      get-extend_ne k es (insert j v m) h.1 ∙ get-insert_ne j k v m h.0

  -- With distinct keys, every entry is found after all of them were inserted.
  pub get-extend :
      (es : List (K × V)) (m : Map K V)
      → IsNodup (firsts es)
      → All (λ e. get e.0 (extend m es) ≡ some e.1) es
  unfolding extend
  get-extend [] m h = tt
  get-extend ((k, v) ∷ es) m h = (
    get-extend_ne k es (insert k v m) h.0 ∙ get-insert_self k v m,
    get-extend es (insert k v m) h.1,
  )

  pub get-present : (k : K) (v : V) (m : Map K V) → Elem (k, v) m → get k m ≢ none
  unfolding get
  get-present k v [] h = elim h [ ]
  get-present k v ((j, w) ∷ m) (inl e) = ground (arith, o.cmp_eq k j)
  get-present k v ((j, w) ∷ m) (inr h) = ground (arith, get-present k v m h)
