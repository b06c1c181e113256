-- ===== src/Reconcile/Plan/Departing.antt =====
-- The invariant through phase A, `plan_departing_records` (src/reconcile/plan.rs).
use byssus.Base.{
  ℕ, ◌≡◌, inl, inr, refl, Option, none, some, List, [], ◌∷◌, ◌++◌, arith, Bool-cases, All, Elem,
  get_elem?-length, length,
}
use byssus.Base.Map
use byssus.Base.Map.{Map}
use byssus.Identity.{MountIdentity, matches}
use byssus.State
use byssus.State.{RecordKey, key_ord, MountRecord, identity, key}
use byssus.Reconcile.Types.{
  Location, location_ord, target_location, DesiredMount, ObservedAttrs, TargetState, not_mounted,
  mounted, PlanInput, Action, unmount, drop_record, mount, phase, UnmountReason,
}
use byssus.Reconcile.Builder.{Builder, push, target_at, frozen, record_matches_desired}
use byssus.Reconcile.Plan.{
  Departures, depart, is_some_and, plan_departing_record, plan_departing_records, departure_reason,
}
use byssus.Reconcile.Plan.Spec.{IsOurs, IsRecorded, IsJustified, Frees, IsRemoval}
use byssus.Reconcile.Plan.Invariant.{
  Entry, action_at, action_at-append, IsRemoval-append, target_at-get, target_at-get_none, AllSound,
  AllSound-snoc,
}

pub action_at-snoc :
    (steps : List Entry) (s : Entry) → action_at (steps ++ (s ∷ [])) (length steps) ≡ some s.0
action_at-snoc steps s = rw (get_elem?-length steps [] s)

module _ (input : PlanInput) where
  abbrev pub IsRemoving : List Entry → RecordKey × Option ℕ → Type 0
  IsRemoving steps (k, none) = Unit
  IsRemoving steps (k, some id) = IsRemoval (action_at steps id)

  abbrev pub IsFreeing : List Entry → Location × (ℕ × MountIdentity) → Type 0
  IsFreeing steps e =
      (a : Action) × (action_at steps e.1.0 ≡ some a) × Frees input e.0 a × (phase a ≡ 0)

  -- What holds between the records of phase A: the steps are sound, and the departures name
  -- removals and freeing unmounts among them.
  pub record IsTracked (steps : List Entry) (departures : Departures) : Type 0 where
    pub sound : AllSound input steps
    pub removals : All (IsRemoving steps) departures.old_record_removal
    pub freed : All (IsFreeing steps) departures.freed_targets

  pub removals-append :
      (steps more : List Entry) (m : Map RecordKey (Option ℕ))
      → All (IsRemoving steps) m
      → All (IsRemoving (steps ++ more)) m
  removals-append steps more [] h = tt
  removals-append steps more ((k, none) ∷ m) h = (tt, removals-append steps more m h.1)
  removals-append steps more ((k, some id) ∷ m) h =
      (IsRemoval-append steps more id h.0, removals-append steps more m h.1)

  pub freed-append :
      (steps more : List Entry) (m : Map Location (ℕ × MountIdentity))
      → All (IsFreeing steps) m
      → All (IsFreeing (steps ++ more)) m
  freed-append steps more [] h = tt
  freed-append steps more (e ∷ m) ((a, p, f, q), h) =
      ((a, action_at-append steps more e.1.0 a p, f, q), freed-append steps more m h)

  -- A removal of the record of `k`, with no dependencies, is pushed and noted.
  removal-IsTracked :
      (steps : List Entry) (departures : Departures) (a : Action) (k : RecordKey)
      → IsTracked steps departures
      → IsJustified input a
      → phase a ≡ 0
      → IsTracked (steps ++ ((a, []) ∷ [])) (record departures {
        old_record_removal = Map.insert k (some (length steps)) departures.old_record_removal;
      })
  unfolding phase
  removal-IsTracked steps departures (mount d) k t j p = absurd (omega arith)
  removal-IsTracked steps departures (unmount r reason) k t j p = record {
    sound = AllSound-snoc input steps (unmount r reason, []) t.sound (j, refl, tt);
    removals =
        Map.All-insert (IsRemoving (steps ++ ((unmount r reason, []) ∷ []))) k _ _
          (rw (action_at-snoc steps (unmount r reason, [])) refl)
          (removals-append steps _ _ t.removals);
    freed = freed-append steps _ _ t.freed;
  }
  removal-IsTracked steps departures (drop_record r reason) k t j p = record {
    sound = AllSound-snoc input steps (drop_record r reason, []) t.sound (j, refl, tt);
    removals =
        Map.All-insert (IsRemoving (steps ++ ((drop_record r reason, []) ∷ []))) k _ _
          (rw (action_at-snoc steps (drop_record r reason, [])) refl)
          (removals-append steps _ _ t.removals);
    freed = freed-append steps _ _ t.freed;
  }

  abbrev Tracked : Builder × Departures → Type 0
  Tracked s = IsTracked s.0.steps s.1

  depart-mounted :
      (r : MountRecord) (reason : UnmountReason) (found : MountIdentity)
      (attrs : Option ObservedAttrs) (b : Builder) (departures : Departures)
      → IsRecorded input r
      → target_at input (target_location r) ≡ mounted found attrs
      → Tracked (b, departures)
      → Tracked (depart r reason (mounted found attrs) (b, departures))
  unfolding depart push phase
  depart-mounted r reason found attrs b departures rec e t =
      elim (Bool-cases (matches found (identity r))) [
        | inl m ↦
            let ours : IsOurs input r = (found, attrs, target_at-get input _ found attrs e, m) in
            let u =
              removal-IsTracked b.steps departures (unmount r reason) (key r) t (rec, ours) refl in
            rw m (record {
              sound = u.sound;
              removals = u.removals;
              freed =
                  Map.All-insert (IsFreeing (b.steps ++ ((unmount r reason, []) ∷ [])))
                    (target_location r) (length b.steps, found) departures.freed_targets
                    (
                      unmount r reason,
                      action_at-snoc b.steps (unmount r reason, []),
                      (refl, ours),
                      refl,
                    )
                    u.freed;
            })
        | inr m ↦ rw m (
            removal-IsTracked b.steps departures _ (key r) t
              (rec, inr (found, attrs, target_at-get input _ found attrs e, m)) refl)
      ]

  depart-Tracked :
      (r : MountRecord) (reason : UnmountReason) (target : TargetState) (s : Builder × Departures)
      → IsRecorded input r
      → target_at input (target_location r) ≡ target
      → Tracked s
      → Tracked (depart r reason target s)
  unfolding depart push phase
  depart-Tracked r reason not_mounted (b, departures) rec e t =
      removal-IsTracked b.steps departures _ (key r) t (rec, inl (target_at-get_none input _ e))
        refl
  depart-Tracked r reason (mounted found attrs) (b, departures) rec e t =
      depart-mounted r reason found attrs b departures rec e t
  depart-Tracked r reason (TargetState.unavailable why) (b, departures) rec e t = record {
    sound = t.sound;
    removals = Map.All-insert (IsRemoving b.steps) (key r) none _ tt t.removals;
    freed = t.freed;
  }

  plan_departing_record-Tracked :
      (desired : Map RecordKey DesiredMount) (r : MountRecord) (s : Builder × Departures)
      → Elem r (State.records input.state)
      → Tracked s
      → Tracked (plan_departing_record input desired r s)
  unfolding plan_departing_record
  plan_departing_record-Tracked desired r s el t = elim (Bool-cases (frozen input r.group)) [
    | inl f ↦ rw f t
    | inr f ↦ elim (Bool-cases (is_some_and (record_matches_desired r) (Map.get (key r) desired))) [
      | inl g ↦ rw (f, g) t
      | inr g ↦
          rw (f, g)
            (depart-Tracked r (departure_reason input r (Map.get (key r) desired))
              (target_at input (target_location r)) s (el, f) refl t)
    ]
  ]

  -- After phase A every step is sound and the departures are true.
  pub plan_departing_records-Tracked :
      (desired : Map RecordKey DesiredMount) (rs : List MountRecord) (s : Builder × Departures)
      → All (λ r. Elem r (State.records input.state)) rs
      → Tracked s
      → Tracked (plan_departing_records input desired rs s)
  unfolding plan_departing_records
  plan_departing_records-Tracked desired [] s el t = t
  plan_departing_records-Tracked desired (r ∷ rs) s el t =
      plan_departing_records-Tracked desired rs _ el.1
        (plan_departing_record-Tracked desired r s el.0 t)
