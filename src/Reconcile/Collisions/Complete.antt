-- ===== src/Reconcile/Collisions/Complete.antt =====
-- The members that collide with no other (src/reconcile/plan.rs, `resolve_collisions`).
use byssus.Base.{
  ◌≡◌, ◌≢◌, ◌⊎◌, refl, sym, ap, ◌∙◌, false, inl, inr, none, some, List, [], ◌∷◌, map, arith,
  Bool-cases, All, All-get, All-Elem, Elem, Elem-map, IsNodup,
}
use byssus.Base.Map
use byssus.Base.Map.{Map}
use byssus.State.{RecordKey, key_ord}
use byssus.Reconcile.Types.{Location, location_ord, DesiredMount, PlanInput}
use byssus.Reconcile.Builder.{Builder, frozen}
use byssus.Reconcile.Collisions.{add_to, group_by_target, accept, accept_all, resolve_collisions}

pub IsNodup-inj :
    {A B : Type 0} (f : A → B) (xs : List A) (a b : A)
    → IsNodup (map f xs)
    → Elem a xs
    → Elem b xs
    → f a ≡ f b
    → a ≡ b
IsNodup-inj f [] a b n h k e = elim h [ ]
IsNodup-inj f (x ∷ xs) a b n (inl h) (inl k) e = h ∙ sym k
IsNodup-inj f (x ∷ xs) a b n (inl h) (inr k) e =
    absurd (All-get (λ y. f x ≢ y) (map f xs) (f b) n.0 (Elem-map f xs b k) (sym (ap f h) ∙ e))
IsNodup-inj f (x ∷ xs) a b n (inr h) (inl k) e =
    absurd (All-get (λ y. f x ≢ y) (map f xs) (f a) n.0 (Elem-map f xs a h) (sym (ap f k) ∙ sym e))
IsNodup-inj f (x ∷ xs) a b n (inr h) (inr k) e = IsNodup-inj f xs a b n.1 h k e

-- The members wanted at a target.
abbrev Buckets : Type 0
Buckets = Map Location (List DesiredMount)

abbrev target_of : DesiredMount → Location
target_of d = d.target

module _ (input : PlanInput) where
  add_to-get_ne :
      (t : Location) (d : DesiredMount) (m : Buckets)
      → t ≢ d.target
      → Map.get t (add_to d m) ≡ Map.get t m
  unfolding add_to
  add_to-get_ne t d m n = Map.get-insert_ne d.target t _ m n

  add_to-get_self :
      (d : DesiredMount) (m : Buckets)
      → Map.get d.target m ≡ none
      → Map.get d.target (add_to d m) ≡ some (d ∷ [])
  unfolding add_to
  add_to-get_self d m e = rw e (Map.get-insert_self d.target (d ∷ []) m)

  group_by_target-get_ne :
      (t : Location) (ds : List DesiredMount) (m : Buckets)
      → All (λ x. t ≢ x) (map target_of ds)
      → Map.get t (group_by_target input ds m) ≡ Map.get t m
  unfolding group_by_target
  group_by_target-get_ne t [] m n = refl
  group_by_target-get_ne t (d ∷ ds) m n = elim (Bool-cases (frozen input d.key.group)) [
    | inl e ↦ rw e (group_by_target-get_ne t ds m n.1)
    | inr e ↦ rw e (group_by_target-get_ne t ds (add_to d m) n.1 ∙ add_to-get_ne t d m n.0)
  ]

  absent-add_to :
      (d : DesiredMount) (m : Buckets) (ts : List Location)
      → All (λ t. d.target ≢ t) ts
      → All (λ t. Map.get t m ≡ none) ts
      → All (λ t. Map.get t (add_to d m) ≡ none) ts
  absent-add_to d m [] n f = tt
  absent-add_to d m (t ∷ ts) n f =
      (add_to-get_ne t d m (λ e. n.0 (sym e)) ∙ f.0, absent-add_to d m ts n.1 f.1)

  -- A member of a group that is not frozen is alone at its target.
  group_by_target-get :
      (d : DesiredMount) (ds : List DesiredMount) (m : Buckets)
      → IsNodup (map target_of ds)
      → All (λ t. Map.get t m ≡ none) (map target_of ds)
      → frozen input d.key.group ≡ false
      → Elem d ds
      → Map.get d.target (group_by_target input ds m) ≡ some (d ∷ [])
  unfolding group_by_target
  group_by_target-get d [] m n f e h = elim h [ ]
  group_by_target-get d (x ∷ ds) m n f e (inl h) = rw h (
      rw (ap (λ (y : DesiredMount). frozen input y.key.group) (sym h) ∙ e)
        (group_by_target-get_ne x.target ds (add_to x m) n.0 ∙ add_to-get_self x m f.0))
  group_by_target-get d (x ∷ ds) m n f e (inr h) = elim (Bool-cases (frozen input x.key.group)) [
    | inl g ↦ rw g (group_by_target-get d ds m n.1 f.1 e h)
    | inr g ↦ rw g (
        group_by_target-get d ds (add_to x m) n.1 (absent-add_to x m (map target_of ds) n.0 f.1) e
          h)
  ]

  -- One member of the input, alone.
  abbrev IsSingle : Location × List DesiredMount → Type 0
  IsSingle e = (d : DesiredMount) × Elem d input.desired × (e.1 ≡ d ∷ [])

  add_to-IsSingle :
      (d : DesiredMount) (m : Buckets)
      → Elem d input.desired
      → Map.get d.target m ≡ none
      → All IsSingle m
      → All IsSingle (add_to d m)
  unfolding add_to
  add_to-IsSingle d m h e a = rw e (Map.All-insert IsSingle d.target (d ∷ []) m (d, h, refl) a)

  group_by_target-IsSingle :
      (ds : List DesiredMount) (m : Buckets)
      → All (λ d. Elem d input.desired) ds
      → IsNodup (map target_of ds)
      → All (λ t. Map.get t m ≡ none) (map target_of ds)
      → All IsSingle m
      → All IsSingle (group_by_target input ds m)
  unfolding group_by_target
  group_by_target-IsSingle [] m h n f a = a
  group_by_target-IsSingle (d ∷ ds) m h n f a = elim (Bool-cases (frozen input d.key.group)) [
    | inl g ↦ rw g (group_by_target-IsSingle ds m h.1 n.1 f.1 a)
    | inr g ↦ rw g (
        group_by_target-IsSingle ds (add_to d m) h.1 n.1
          (absent-add_to d m (map target_of ds) n.0 f.1) (add_to-IsSingle d m h.0 f.0 a))
  ]

  -- The member is accepted, or waits in a bucket.
  abbrev IsComing : DesiredMount → Buckets → Map RecordKey DesiredMount → Type 0
  IsComing d buckets accepted =
      (Map.get d.key accepted ≡ some d) ⊎ ((t : Location) × Elem (t, d ∷ []) buckets)

  IsComing-next :
      (d x : DesiredMount) (t : Location) (members : List DesiredMount) (rest : Buckets)
      (accepted : Map RecordKey DesiredMount)
      → (d.key ≡ x.key → d ≡ x)
      → members ≡ x ∷ []
      → IsComing d ((t, members) ∷ rest) accepted
      → IsComing d rest (Map.insert x.key x accepted)
  IsComing-next d x t members rest accepted same e h = elim (Map.key-cases d.key x.key) [
    | inl k ↦ inl (rw (same k) (Map.get-insert_self x.key x accepted))
    | inr n ↦ elim h [
      | inl g ↦ inl (Map.get-insert_ne x.key d.key x accepted n ∙ g)
      | inr (l, inr g) ↦ inr (l, g)
      | inr (l, inl g) ↦
          let one : d ∷ [] ≡ x ∷ [] = ap (λ (y : Location × List DesiredMount). y.1) g ∙ e in
          let same_member : d ≡ x = ground arith in
          absurd (n (ap (λ (y : DesiredMount). y.key) same_member))
    ]
  ]

  accept_all-get :
      (d : DesiredMount) (buckets : Buckets) (b : Builder) (accepted : Map RecordKey DesiredMount)
      → ((x : DesiredMount) → Elem x input.desired → d.key ≡ x.key → d ≡ x)
      → All IsSingle buckets
      → IsComing d buckets accepted
      → Map.get d.key (accept_all input buckets b accepted).1 ≡ some d
  unfolding accept_all accept
  accept_all-get d [] b accepted same a (inl h) = h
  accept_all-get d [] b accepted same a (inr (t, h)) = elim h [ ]
  accept_all-get d ((t, members) ∷ rest) b accepted same a h =
      let (x, m, e) = a.0 in
      rw e (
        accept_all-get d rest b (Map.insert x.key x accepted) same a.1
          (IsComing-next d x t members rest accepted (same x m) e h))

  -- If the members' keys and targets are distinct, every member of a group that is not frozen is
  -- accepted.
  pub resolve_collisions-get :
      (d : DesiredMount) (b : Builder)
      → IsNodup (map (λ (x : DesiredMount). x.key) input.desired)
      → IsNodup (map (λ (x : DesiredMount). x.target) input.desired)
      → Elem d input.desired
      → frozen input d.key.group ≡ false
      → Map.get d.key (resolve_collisions input b).1 ≡ some d
  unfolding resolve_collisions Map.get
  resolve_collisions-get d b keys targets h e =
      let buckets = group_by_target input input.desired [] in
      let none_yet =
        All-Elem (λ t. Map.get t [] ≡ none) (map target_of input.desired) (λ t m. refl) in
      accept_all-get d buckets b []
        (λ x m k. IsNodup-inj (λ (y : DesiredMount). y.key) input.desired d x keys h m k)
        (group_by_target-IsSingle input.desired [] (All-Elem _ input.desired (λ x m. m)) targets
          none_yet tt)
        (inr (
          d.target,
          Map.get-Elem d.target buckets (d ∷ [])
              (group_by_target-get d input.desired [] targets none_yet e h),
        ))
