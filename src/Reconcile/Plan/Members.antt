-- ===== src/Reconcile/Plan/Members.antt =====
-- The invariant through phase B, `plan_recorded_member` and `plan_unrecorded_member`
-- (src/reconcile/plan.rs).
use byssus.Base.{
  ℕ, ◌≡◌, inl, inr, refl, sym, ap, true, Option, none, some, List, [], ◌∷◌, ◌++◌, arith, ◌==◌,
  Bool-cases, and_right, Option-cases, All, All-get, All-snoc, Elem-append_right, length,
}
use byssus.Base.Map
use byssus.Base.Map.{Map}
use byssus.Identity.{DevIno, dev_ino_eq, MountIdentity, matches}
use byssus.Config.{attrs_eq}
use byssus.State
use byssus.State.{RecordKey, key_ord, MountRecord, identity, key}
use byssus.State.Laws.{IsKeyed, IsKeyed-get, get-records}
use byssus.Reconcile.Types.{
  Location, location_ord, location_eq, target_location, DesiredMount, ObservedAttrs, SourceState,
  resolved, TargetState, not_mounted, mounted, PlanInput, Action, unmount, drop_record, mount,
  phase, UnmountReason, DropReason, attributes_changed, attributes_drifted, source_changed,
  source_gone,
}
use byssus.Reconcile.Builder.{Builder, push, target_at, source_of, record_matches_desired}
use byssus.Reconcile.Collisions.Laws.{IsWanted, IsAccepted}
use byssus.Reconcile.Plan.{
  Departures, mount_if_resolved, freed_by, mount_at_target, plan_unrecorded_member, remount,
  drifted, plan_our_mount, plan_recorded_member, plan_member, plan_members,
}
use byssus.Reconcile.Plan.Spec.{IsOurs, IsRecorded, Frees, IsReady, IsRemoval}
use byssus.Reconcile.Plan.Invariant.{
  Entry, action_at, source_of-get, target_at-get, target_at-get_none, IsSound, AllSound-snoc,
}
use byssus.Reconcile.Plan.Departing.{
  IsTracked, IsRemoving, IsFreeing, removals-append, freed-append, action_at-snoc,
}

pub record_matches-target :
    (r : MountRecord) (d : DesiredMount)
    → record_matches_desired r d ≡ true
    → target_location r ≡ d.target
unfolding record_matches_desired
record_matches-target r d h = (location_eq.beq_iff (target_location r) d.target).0 (and_right _ _ h)

module _ (input : PlanInput) (departures : Departures) where
  abbrev Tracked : Builder → Type 0
  Tracked b = IsTracked input b.steps departures

  IsTracked-snoc :
      (steps : List Entry) (s : Entry)
      → IsTracked input steps departures
      → IsSound input steps s
      → IsTracked input (steps ++ (s ∷ [])) departures
  IsTracked-snoc steps s t k = record {
    sound = AllSound-snoc input steps s t.sound k;
    removals = removals-append input steps (s ∷ []) departures.old_record_removal t.removals;
    freed = freed-append input steps (s ∷ []) departures.freed_targets t.freed;
  }

  abbrev AreRemovals : List ℕ → Builder → Type 0
  AreRemovals deps b = All (λ id. IsRemoval (action_at b.steps id)) deps

  mount_if_resolved-Tracked :
      (d : DesiredMount) (deps : List ℕ) (source : SourceState) (b : Builder)
      → IsWanted input d
      → source_of input d.key ≡ source
      → IsReady input (action_at b.steps) (mount d) deps
      → AreRemovals deps b
      → Tracked b
      → Tracked (mount_if_resolved d deps source b)
  unfolding mount_if_resolved push
  mount_if_resolved-Tracked d deps (resolved root) b w e ready rm t =
      IsTracked-snoc b.steps (mount d, deps) t
        ((w.0, w.1, (root, source_of-get input d.key root e)), ready, rm)
  mount_if_resolved-Tracked d deps (SourceState.unavailable why) b w e ready rm t = t

  freed_by-Frees :
      (b : Builder) (l : Location) (found : MountIdentity) (id : ℕ)
      → Tracked b
      → freed_by departures l found ≡ some id
      → (a : Action) × (action_at b.steps id ≡ some a) × Frees input l a × (phase a ≡ 0)
  freed_by-Frees b l found id t e = elim (Option-cases (Map.get l departures.freed_targets)) [
    | inl n ↦ absurd (ground arith)
    | inr (f, g) ↦
        let p : f.0 ≡ id = ground arith in
        let q =
          All-get (IsFreeing input b.steps) departures.freed_targets (l, f) t.freed
            (Map.get-Elem l departures.freed_targets f g) in
        (q.0, rw (← p) (q.1), q.2, q.3)
  ]

  mount_at_target-Tracked :
      (d : DesiredMount) (deps : List ℕ) (target : TargetState) (source : SourceState) (b : Builder)
      → IsWanted input d
      → target_at input d.target ≡ target
      → source_of input d.key ≡ source
      → AreRemovals deps b
      → Tracked b
      → Tracked (mount_at_target d departures deps target source b)
  unfolding mount_at_target
  mount_at_target-Tracked d deps not_mounted source b w e s rm t =
      mount_if_resolved-Tracked d deps source b w s (inl (target_at-get_none input _ e)) rm t
  mount_at_target-Tracked d deps (mounted found attrs) source b w e s rm t =
      elim (Option-cases (freed_by departures d.target found)) [
        | inl n ↦ rw (n, mount_at_target) t
        | inr (id, p) ↦
            let f = freed_by-Frees b d.target found id t p in
            rw (p, mount_at_target)
              (mount_if_resolved-Tracked d (deps ++ (id ∷ [])) source b w s
                (inr (id, f.0, Elem-append_right id deps (id ∷ []) (inl refl), f.1, f.2))
                (All-snoc (λ j. IsRemoval (action_at b.steps j)) deps id rm (rw f.1 f.3)) t)
      ]
  mount_at_target-Tracked d deps (TargetState.unavailable why) source b w e s rm t = t

  plan_unrecorded_member-Tracked :
      (d : DesiredMount) (target : TargetState) (source : SourceState) (b : Builder)
      → IsWanted input d
      → target_at input d.target ≡ target
      → source_of input d.key ≡ source
      → Tracked b
      → Tracked (plan_unrecorded_member input d departures target source b)
  unfolding plan_unrecorded_member
  plan_unrecorded_member-Tracked d target source b w e s t =
      by_removal (Map.get d.key departures.old_record_removal) refl
    where
      by_removal :
          (o : Option (Option ℕ))
          → Map.get d.key departures.old_record_removal ≡ o
          → Tracked (plan_unrecorded_member input d departures target source b)
      by_removal none p =
          rw (p, plan_unrecorded_member) (mount_at_target-Tracked d [] target source b w e s tt t)
      by_removal (some none) p = rw (p, plan_unrecorded_member) t
      by_removal (some (some id)) p =
          let m = Map.get-Elem d.key departures.old_record_removal (some id) p in
          rw (p, plan_unrecorded_member)
            (mount_at_target-Tracked d (id ∷ []) target source b w e s
              (
                All-get (IsRemoving input b.steps) departures.old_record_removal (d.key, some id)
                    t.removals m,
                tt,
              )
              t)

  -- Our mount is unmounted, and the member is mounted again once it is gone.
  remount-Tracked :
      (r : MountRecord) (reason : UnmountReason) (d : DesiredMount) (root : DevIno) (b : Builder)
      → IsRecorded input r × IsOurs input r
      → target_location r ≡ d.target
      → IsWanted input d
      → source_of input d.key ≡ resolved root
      → Tracked b
      → Tracked (remount r reason d b)
  unfolding push phase
  remount-Tracked r reason d root b j l w s t =
      let u : Entry = (unmount r reason, []) in
      let at = action_at-snoc b.steps u in
      IsTracked-snoc (b.steps ++ (u ∷ [])) (mount d, length b.steps ∷ [])
        (IsTracked-snoc b.steps u t (j, refl, tt))
        (
          (w.0, w.1, (root, source_of-get input d.key root s)),
          inr (length b.steps, unmount r reason, inl refl, at, (l, j.1)),
          (rw at refl, tt),
        )

  plan_our_mount-Tracked :
      (d : DesiredMount) (r : MountRecord) (attrs : Option ObservedAttrs) (source : SourceState)
      (b : Builder)
      → IsRecorded input r × IsOurs input r
      → target_location r ≡ d.target
      → IsWanted input d
      → source_of input d.key ≡ source
      → Tracked b
      → Tracked (plan_our_mount d r attrs source b)
  unfolding plan_our_mount push
  plan_our_mount-Tracked d r attrs (resolved root) b j l w s t =
      elim (Bool-cases (root == (identity r).root)) [
        | inl e ↦ elim (Bool-cases (State.attrs r == d.attrs)) [
          | inl f ↦ elim (Bool-cases (drifted attrs d)) [
            | inl g ↦ rw (e, f, g) (remount-Tracked r attributes_drifted d root b j l w s t)
            | inr g ↦ rw (e, f, g) t
          ]
          | inr f ↦ rw (e, f) (remount-Tracked r attributes_changed d root b j l w s t)
        ]
        | inr e ↦ rw e (remount-Tracked r source_changed d root b j l w s t)
      ]
  plan_our_mount-Tracked d r attrs (SourceState.unavailable why) b j l w s t =
      IsTracked-snoc b.steps (unmount r (source_gone why), []) t (j, refl, tt)

  plan_recorded_member-Tracked :
      (d : DesiredMount) (r : MountRecord) (target : TargetState) (source : SourceState)
      (b : Builder)
      → IsRecorded input r
      → target_location r ≡ d.target
      → IsWanted input d
      → target_at input d.target ≡ target
      → source_of input d.key ≡ source
      → Tracked b
      → Tracked (plan_recorded_member d r target source b)
  unfolding plan_recorded_member push
  plan_recorded_member-Tracked d r (mounted found attrs) source b rec l w e s t =
      elim (Bool-cases (matches found (identity r))) [
        | inl m ↦ rw m (
            plan_our_mount-Tracked d r attrs source b
              (rec, (found, attrs, target_at-get input _ found attrs (rw l e), m)) l w s t)
        | inr m ↦ rw m t
      ]
  plan_recorded_member-Tracked d r not_mounted (resolved root) b rec l w e s t =
      IsTracked-snoc b.steps (mount d, []) t
        (
          (w.0, w.1, (root, source_of-get input d.key root s)),
          inl (target_at-get_none input _ e),
          tt,
        )
  plan_recorded_member-Tracked d r not_mounted (SourceState.unavailable why) b rec l w e s t =
      IsTracked-snoc b.steps (drop_record r (DropReason.source_unavailable why), []) t
        ((rec, inl (target_at-get_none input _ (rw l e))), refl, tt)
  plan_recorded_member-Tracked d r (TargetState.unavailable why) source b rec l w e s t = t

  plan_member-Tracked :
      (d : DesiredMount) (b : Builder)
      → IsKeyed input.state
      → IsWanted input d
      → Tracked b
      → Tracked (plan_member input departures d b)
  unfolding plan_member
  plan_member-Tracked d b keyed w t = elim (Option-cases (State.get input.state d.key)) [
    | inl n ↦ rw (n, plan_member) (plan_unrecorded_member-Tracked d _ _ b w refl refl t)
    | inr (r, p) ↦
        let g : (key r).group ≡ d.key.group =
          ap (λ k. k.group) (sym (IsKeyed-get _ d.key r keyed p)) in
        elim (Bool-cases (record_matches_desired r d)) [
          | inl m ↦
              rw (p, m, plan_member)
                (plan_recorded_member-Tracked d r _ _ b
                  (get-records input.state d.key r p, rw g w.1) (record_matches-target r d m) w refl
                  refl t)
          | inr m ↦ rw (p, m, plan_member) (plan_unrecorded_member-Tracked d _ _ b w refl refl t)
        ]
  ]

  -- After phase B every step is sound.
  pub plan_members-Tracked :
      (accepted : Map RecordKey DesiredMount) (b : Builder)
      → IsKeyed input.state
      → All (IsAccepted input) accepted
      → Tracked b
      → Tracked (plan_members input departures accepted b)
  unfolding plan_members
  plan_members-Tracked [] b keyed a t = t
  plan_members-Tracked ((k, d) ∷ rest) b keyed a t =
      plan_members-Tracked rest _ keyed a.1 (plan_member-Tracked d b keyed a.0.1 t)
