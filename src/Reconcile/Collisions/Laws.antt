-- ===== src/Reconcile/Collisions/Laws.antt =====
-- The members that `resolve_collisions` accepts (src/reconcile/plan.rs).
use byssus.Base.{
  ◌≡◌, refl, sym, ◌≢◌, false, Option, none, some, inl, inr, ◌∙◌, All-mono, All-Elem, List, [], ◌∷◌,
  arith, Bool-cases, Option-cases, All, All-snoc, All-sort_by, All-get, find-some, sort_by, Elem,
}
use byssus.Base.Map
use byssus.Base.Map.{Map}
use byssus.State.{RecordKey, key_ord}
use byssus.Reconcile.Types.{Location, location_ord, DesiredMount, PlanInput}
use byssus.Reconcile.Builder.{Builder, frozen, target_at}
use byssus.Reconcile.Collisions.{
  add_to, key_order, group_by_target, is_kept, keep_in, collide, accept, accept_all,
  resolve_collisions,
}

module _ (input : PlanInput) where
  -- Desired, and of a group that is not frozen.
  abbrev pub IsWanted : DesiredMount → Type 0
  IsWanted d = Elem d input.desired × (frozen input d.key.group ≡ false)

  abbrev Fits : Location × List DesiredMount → Type 0
  Fits e = All (λ d. IsWanted d × (d.target ≡ e.0)) e.1

  abbrev Buckets : Type 0
  Buckets = Map Location (List DesiredMount)

  add_to-Fits : (d : DesiredMount) (m : Buckets) → IsWanted d → All Fits m → All Fits (add_to d m)
  unfolding add_to
  add_to-Fits d m w a = elim (Option-cases (Map.get d.target m)) [
    | inl e ↦ rw e (Map.All-insert Fits d.target _ m ((w, refl), tt) a)
    | inr (ds, e) ↦ rw e (
        Map.All-insert Fits d.target _ m
          (All-snoc (λ x. IsWanted x × (x.target ≡ d.target)) ds d
            (All-get Fits m (d.target, ds) a (Map.get-Elem d.target m ds e)) (w, refl))
          a)
  ]

  add_to-IsSorted : (d : DesiredMount) (m : Buckets) → Map.IsSorted m → Map.IsSorted (add_to d m)
  unfolding add_to
  add_to-IsSorted d m = Map.insert-IsSorted d.target _ m

  group_by_target-Fits :
      (ds : List DesiredMount) (m : Buckets)
      → All (λ d. Elem d input.desired) ds
      → All Fits m
      → Map.IsSorted m
      → All Fits (group_by_target input ds m) × Map.IsSorted (group_by_target input ds m)
  unfolding group_by_target
  group_by_target-Fits [] m el a s = (a, s)
  group_by_target-Fits (d ∷ ds) m el a s = elim (Bool-cases (frozen input d.key.group)) [
    | inl e ↦ rw e (group_by_target-Fits ds m el.1 a s)
    | inr e ↦ rw e (
        group_by_target-Fits ds (add_to d m) el.1 (add_to-Fits d m (el.0, e) a)
          (add_to-IsSorted d m s))
  ]

  -- An accepted member, under its key.
  abbrev pub IsAccepted : RecordKey × DesiredMount → Type 0
  IsAccepted e = (e.0 ≡ e.1.key) × IsWanted e.1

  abbrev pub Apart : RecordKey × DesiredMount → RecordKey × DesiredMount → Type 0
  Apart a b = a.1.target ≢ b.1.target

  abbrev Accepted : Type 0
  Accepted = Map RecordKey DesiredMount

  -- No accepted member has this target yet.
  abbrev Fresh : Location → Accepted → Type 0
  Fresh t = All (λ a. a.1.target ≢ t)

  record IsResolved (rest : List (Location × List DesiredMount)) (accepted : Accepted)
      : Type 0 where
    members : All IsAccepted accepted
    apart : Map.Pairwise Apart accepted
    fresh : All (λ e. Fresh e.0 accepted) rest

  insert-Fresh :
      (t : Location) (d : DesiredMount) (rest : Buckets) (accepted : Accepted)
      → d.target ≡ t
      → Map.After t rest
      → All (λ e. Fresh e.0 accepted) rest
      → All (λ e. Fresh e.0 (Map.insert d.key d accepted)) rest
  insert-Fresh t d [] accepted p after f = tt
  insert-Fresh t d (e ∷ rest) accepted p after f = (
    Map.All-insert (λ a. a.1.target ≢ e.0) d.key d accepted
        (λ q. ground (arith, location_ord.cmp_eq t e.0, after.0)) f.0,
    insert-Fresh t d rest accepted p after.1 f.1,
  )

  insert-IsResolved :
      (t : Location) (members : List DesiredMount) (d : DesiredMount) (rest : Buckets)
      (accepted : Accepted)
      → Map.After t rest
      → IsWanted d × (d.target ≡ t)
      → IsResolved ((t, members) ∷ rest) accepted
      → IsResolved rest (Map.insert d.key d accepted)
  insert-IsResolved t members d rest accepted after w r = record {
    members = Map.All-insert IsAccepted d.key d accepted (refl, w.0) r.members;
    apart =
        Map.insert-Pairwise Apart d.key d accepted
          (All-mono (λ a. a.1.target ≢ t) (Apart (d.key, d)) accepted (λ a ne q. ne (sym q ∙ w.1))
            r.fresh.0)
          (All-mono (λ a. a.1.target ≢ t) (λ a. Apart a (d.key, d)) accepted
            (λ a ne q. ne (q ∙ w.1)) r.fresh.0)
          r.apart;
    fresh = insert-Fresh t d rest accepted w.1 after r.fresh.1;
  }

  drop-IsResolved :
      (e : Location × List DesiredMount) (rest : Buckets) (accepted : Accepted)
      → IsResolved (e ∷ rest) accepted
      → IsResolved rest accepted
  drop-IsResolved e rest accepted r = record {
    members = r.members;
    apart = r.apart;
    fresh = r.fresh.1;
  }

  keep_in-IsResolved :
      (t : Location) (members : List DesiredMount) (kept : Option DesiredMount) (rest : Buckets)
      (accepted : Accepted)
      → Map.After t rest
      → ((d : DesiredMount) → kept ≡ some d → IsWanted d × (d.target ≡ t))
      → IsResolved ((t, members) ∷ rest) accepted
      → IsResolved rest (keep_in input kept accepted)
  unfolding keep_in
  keep_in-IsResolved t members none rest accepted after w r = drop-IsResolved _ rest accepted r
  keep_in-IsResolved t members (some d) rest accepted after w r =
      insert-IsResolved t members d rest accepted after (w d refl) r

  collide-IsResolved :
      (t : Location) (members : List DesiredMount) (rest : Buckets) (b : Builder)
      (accepted : Accepted)
      → Map.After t rest
      → Fits (t, members)
      → IsResolved ((t, members) ∷ rest) accepted
      → IsResolved rest (collide input t members b accepted).1
  unfolding collide
  collide-IsResolved t members rest b accepted after fits r =
      keep_in-IsResolved t members _ rest accepted after
        (λ d found.
          let f =
            find-some (is_kept input (target_at input t)) (sort_by key_order members) d found in
          All-get (λ x. IsWanted x × (x.target ≡ t)) (sort_by key_order members) d
            (All-sort_by key_order (λ x. IsWanted x × (x.target ≡ t)) members fits) f.0)
        r

  accept-IsResolved :
      (t : Location) (members : List DesiredMount) (rest : Buckets) (b : Builder)
      (accepted : Accepted)
      → Map.After t rest
      → Fits (t, members)
      → IsResolved ((t, members) ∷ rest) accepted
      → IsResolved rest (accept input t members b accepted).1
  unfolding accept
  accept-IsResolved t (d ∷ []) rest b accepted after fits r =
      insert-IsResolved t (d ∷ []) d rest accepted after fits.0 r
  accept-IsResolved t members rest b accepted after fits r =
      collide-IsResolved t members rest b accepted after fits r

  accept_all-IsResolved :
      (buckets : Buckets) (b : Builder) (accepted : Accepted)
      → Map.IsSorted buckets
      → All Fits buckets
      → IsResolved buckets accepted
      → IsResolved [] (accept_all input buckets b accepted).1
  unfolding accept_all
  accept_all-IsResolved [] b accepted s fits r = r
  accept_all-IsResolved ((t, members) ∷ rest) b accepted s fits r =
      accept_all-IsResolved rest _ _ s.1 fits.1
        (accept-IsResolved t members rest b accepted s.0 fits.0 r)

  unstarted : (buckets : Buckets) → IsResolved buckets []
  unstarted buckets = record {
    members = tt;
    apart = tt;
    fresh = All-Elem (λ e. Fresh e.0 []) buckets (λ e m. tt);
  }

  resolve_collisions-IsResolved : (b : Builder) → IsResolved [] (resolve_collisions input b).1
  unfolding resolve_collisions
  resolve_collisions-IsResolved b =
      let g =
        group_by_target-Fits input.desired []
          (All-Elem (λ d. Elem d input.desired) input.desired (λ d m. m)) tt tt in
      accept_all-IsResolved _ b [] g.1 g.0 (unstarted _)

  -- Every accepted member is desired and not frozen, and stands under its key.
  pub resolve_collisions-IsAccepted : (b : Builder) → All IsAccepted (resolve_collisions input b).1
  resolve_collisions-IsAccepted b = (resolve_collisions-IsResolved b).members

  -- No two accepted members have one target.
  pub resolve_collisions-Apart : (b : Builder) → Map.Pairwise Apart (resolve_collisions input b).1
  resolve_collisions-Apart b = (resolve_collisions-IsResolved b).apart

  keep_in-steps :
      (t : Location) (members : List DesiredMount) (b : Builder) (accepted : Accepted)
      → (accept input t members b accepted).0.steps ≡ b.steps
  unfolding accept collide
  keep_in-steps t [] b accepted = refl
  keep_in-steps t (d ∷ []) b accepted = refl
  keep_in-steps t (d ∷ e ∷ ds) b accepted = refl

  accept_all-steps :
      (buckets : Buckets) (b : Builder) (accepted : Accepted)
      → (accept_all input buckets b accepted).0.steps ≡ b.steps
  unfolding accept_all
  accept_all-steps [] b accepted = refl
  accept_all-steps ((t, members) ∷ rest) b accepted =
      accept_all-steps rest _ _ ∙ keep_in-steps t members b accepted

  -- Resolving collisions plans no step.
  pub resolve_collisions-steps : (b : Builder) → (resolve_collisions input b).0.steps ≡ b.steps
  unfolding resolve_collisions
  resolve_collisions-steps b = accept_all-steps _ b []
