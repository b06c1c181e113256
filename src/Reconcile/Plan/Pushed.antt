-- ===== src/Reconcile/Plan/Pushed.antt =====
-- Steps that stay while members are planned (src/reconcile/plan.rs).
use byssus.Base.{
  ℕ, ◌≡◌, refl, inl, inr, Option, none, some, List, [], ◌∷◌, ◌++◌, ◌==◌, Bool-cases, Option-cases,
  Elem, Elem-append_left, Elem-append_right, option_eq, nat_eq,
}
use byssus.Base.Map
use byssus.Base.Map.{Map}
use byssus.Name.{group_eq}
use byssus.Identity.{matches, dev_ino_eq, identity_eq}
use byssus.Config.{attrs_eq}
use byssus.State
use byssus.State.{State, RecordKey, key_ord, MountRecord, key, identity}
use byssus.Reconcile.Types.{
  location_ord, DesiredMount, ObservedAttrs, SourceState, resolved, TargetState, mounted,
  not_mounted, PlanInput, Action, mount, UnmountReason,
}
use byssus.Reconcile.Builder.{Builder, push, push_, target_at, source_of, record_matches_desired}
use byssus.Reconcile.Plan.{
  Departures, drifted, freed_by, mount_if_resolved, mount_at_target, remount, plan_our_mount,
  plan_recorded_member, plan_unrecorded_member, plan_member, plan_members,
}

-- A step with this action was pushed.
abbrev pub IsPushed : Action → Builder → Type 0
IsPushed a b = (deps : List ℕ) × Elem (a, deps) b.steps

push-IsPushed :
    (a c : Action) (deps : List ℕ) (b : Builder) → IsPushed a b → IsPushed a (push_ c deps b)
unfolding push
push-IsPushed a c deps b (ds, h) = (ds, Elem-append_left (a, ds) b.steps ((c, deps) ∷ []) h)

pub pushed : (a : Action) (deps : List ℕ) (b : Builder) → IsPushed a (push_ a deps b)
unfolding push
pushed a deps b = (deps, Elem-append_right (a, deps) b.steps ((a, deps) ∷ []) (inl refl))

-- What planning a member keeps of the steps before it.
module _ (a : Action) where
  mount_if_resolved-IsPushed :
      (d : DesiredMount) (deps : List ℕ) (source : SourceState) (b : Builder)
      → IsPushed a b
      → IsPushed a (mount_if_resolved d deps source b)
  unfolding mount_if_resolved
  mount_if_resolved-IsPushed d deps (resolved root) b h = push-IsPushed a (mount d) deps b h
  mount_if_resolved-IsPushed d deps (SourceState.unavailable why) b h = h

  mount_at_target-IsPushed :
      (d : DesiredMount) (departures : Departures) (deps : List ℕ) (t : TargetState)
      (source : SourceState) (b : Builder)
      → IsPushed a b
      → IsPushed a (mount_at_target d departures deps t source b)
  unfolding mount_at_target
  mount_at_target-IsPushed d departures deps not_mounted source b h =
      mount_if_resolved-IsPushed d deps source b h
  mount_at_target-IsPushed d departures deps (TargetState.unavailable why) source b h = h
  mount_at_target-IsPushed d departures deps (mounted found attrs) source b h =
      elim (Option-cases (freed_by departures d.target found)) [
        | inl e ↦ rw (e, mount_at_target) h
        | inr (id, e) ↦
            rw (e, mount_at_target) (mount_if_resolved-IsPushed d (deps ++ (id ∷ [])) source b h)
      ]

  remount-IsPushed :
      (r : MountRecord) (reason : UnmountReason) (d : DesiredMount) (b : Builder)
      → IsPushed a b
      → IsPushed a (remount r reason d b)
  remount-IsPushed r reason d b h =
      push-IsPushed a (mount d) _ _ (push-IsPushed a (Action.unmount r reason) [] b h)

  plan_our_mount-IsPushed :
      (d : DesiredMount) (r : MountRecord) (attrs : Option ObservedAttrs) (source : SourceState)
      (b : Builder)
      → IsPushed a b
      → IsPushed a (plan_our_mount d r attrs source b)
  unfolding plan_our_mount
  plan_our_mount-IsPushed d r attrs (SourceState.unavailable why) b h = push-IsPushed a _ [] b h
  plan_our_mount-IsPushed d r attrs (resolved root) b h =
      elim (Bool-cases (root == (identity r).root)) [
        | inr e ↦ rw e (remount-IsPushed r UnmountReason.source_changed d b h)
        | inl e ↦ rw e (elim (Bool-cases (State.attrs r == d.attrs)) [
          | inr f ↦ rw f (remount-IsPushed r UnmountReason.attributes_changed d b h)
          | inl f ↦ rw f (elim (Bool-cases (drifted attrs d)) [
            | inl g ↦ rw g (remount-IsPushed r UnmountReason.attributes_drifted d b h)
            | inr g ↦ rw g h
          ])
        ])
      ]

  plan_recorded_member-IsPushed :
      (d : DesiredMount) (r : MountRecord) (t : TargetState) (source : SourceState) (b : Builder)
      → IsPushed a b
      → IsPushed a (plan_recorded_member d r t source b)
  unfolding plan_recorded_member
  plan_recorded_member-IsPushed d r (mounted found attrs) source b h =
      elim (Bool-cases (matches found (identity r))) [
        | inl e ↦ rw e (plan_our_mount-IsPushed d r attrs source b h)
        | inr e ↦ rw e h
      ]
  plan_recorded_member-IsPushed d r not_mounted (resolved root) b h =
      push-IsPushed a (mount d) [] b h
  plan_recorded_member-IsPushed d r not_mounted (SourceState.unavailable why) b h =
      push-IsPushed a _ [] b h
  plan_recorded_member-IsPushed d r (TargetState.unavailable why) source b h = h

  module _ (input : PlanInput) (departures : Departures) where
    unrecorded_of :
        (d : DesiredMount) (o : Option (Option ℕ)) (t : TargetState) (source : SourceState)
        (b : Builder)
        → Map.get d.key departures.old_record_removal ≡ o
        → IsPushed a b
        → IsPushed a (plan_unrecorded_member input d departures t source b)
    unfolding plan_unrecorded_member
    unrecorded_of d none t source b e h =
        rw (e, plan_unrecorded_member) (mount_at_target-IsPushed d departures [] t source b h)
    unrecorded_of d (some none) t source b e h = rw (e, plan_unrecorded_member) h
    unrecorded_of d (some (some id)) t source b e h =
        rw (e, plan_unrecorded_member)
          (mount_at_target-IsPushed d departures (id ∷ []) t source b h)

    plan_member-IsPushed :
        (d : DesiredMount) (b : Builder)
        → IsPushed a b
        → IsPushed a (plan_member input departures d b)
    unfolding plan_member
    plan_member-IsPushed d b h =
        let t = target_at input d.target in
        let source = source_of input d.key in
        let other = unrecorded_of d _ t source b refl h in
        elim (Option-cases (State.get input.state d.key)) [
          | inl e ↦ rw (e, plan_member) other
          | inr (r, e) ↦
              rw (e, plan_member)
                (elim (Bool-cases (record_matches_desired r d)) [
                  | inl f ↦ rw f (plan_recorded_member-IsPushed d r t source b h)
                  | inr f ↦ rw f other
                ])
        ]

    pub plan_members-IsPushed :
        (accepted : Map RecordKey DesiredMount) (b : Builder)
        → IsPushed a b
        → IsPushed a (plan_members input departures accepted b)
    unfolding plan_members
    plan_members-IsPushed [] b h = h
    plan_members-IsPushed ((k, d) ∷ rest) b h =
        plan_members-IsPushed rest (plan_member input departures d b) (plan_member-IsPushed d b h)
