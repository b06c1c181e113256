-- ===== src/Reconcile/Plan.antt =====
-- The planner (src/reconcile/plan.rs): the decision table that compares desired membership, the
-- recorded mounts and the observations.
pub mod Spec
mod Invariant
mod Departing
mod Members
pub mod Safety
pub mod Targets
pub mod Settled
mod Pushed
pub mod Progress
use byssus.Base.{
  ℕ, Bool, true, false, ◌&&◌, ◌||◌, not, Option, none, some, List, [], ◌∷◌, ◌++◌, if◌then◌else◌,
  ◌==◌, any, option_eq, nat_eq,
}
use byssus.Base.Map
use byssus.Base.Map.{Map}
use byssus.Name.{group_eq}
use byssus.Identity.{dev_ino_eq, MountIdentity, identity_eq, matches}
use byssus.Config.{attrs_eq}
use byssus.State
use byssus.State.{RecordKey, key_ord, key_eq, MountRecord, State, key, identity}
use byssus.Reconcile.Types.{
  Location, location_ord, location_eq, target_location, DesiredMount, ObservedAttrs, enforce,
  SourceState, resolved, TargetState, not_mounted, mounted, PlanInput, UnmountReason, not_member,
  relocated, source_gone, source_changed, target_collision, attributes_changed, attributes_drifted,
  DropReason, mount_gone, foreign_mount_at_target, unmount, drop_record, mount, foreign_mount,
  target_replaced, Finding, conflict, target_unavailable, relocation_blocked, Plan,
}
use byssus.Reconcile.Builder.{
  Builder, empty_builder, push, push_, report, target_at, source_of, frozen, record_matches_desired,
  finish,
}
use byssus.Reconcile.Collisions.{resolve_collisions}

-- What phase A leaves to phase B: the step that removes a member's old record, or `none` if that
-- record stays; and the targets that an unmount frees, with the step and the identity removed.
pub record Departures : Type 0 where
  pub old_record_removal : Map RecordKey (Option ℕ)
  pub freed_targets : Map Location (ℕ × MountIdentity)

abbrev pub no_departures : Departures
no_departures = record { old_record_removal = []; freed_targets = [] }

abbrev pub is_some_and : {A : Type 0} → (A → Bool) → Option A → Bool
is_some_and p none = false
is_some_and p (some a) = p a

abbrev pub is_some : {A : Type 0} → Option A → Bool
is_some = is_some_and (λ _. true)

unfoldable pub depart :
    MountRecord → UnmountReason → TargetState → Builder × Departures → Builder × Departures
depart r reason not_mounted (b, deps) =
    let (id, b') = push (drop_record r mount_gone) [] b in
    (b', record deps { old_record_removal = Map.insert (key r) (some id) deps.old_record_removal })
depart r reason (mounted found attrs) (b, deps) =
    if matches found (identity r)
    then (let (id, b') = push (unmount r reason) [] b in
        (
          b',
          record {
            old_record_removal = Map.insert (key r) (some id) deps.old_record_removal;
            freed_targets = Map.insert (target_location r) (id, found) deps.freed_targets;
          },
        ))
    else (let (id, b') = push (drop_record r foreign_mount_at_target) [] b in
        (
          b',
          record deps { old_record_removal = Map.insert (key r) (some id) deps.old_record_removal },
        ))
depart r reason (TargetState.unavailable why) (b, deps) = (
  report (target_unavailable (key r) (target_location r) why) b,
  record deps { old_record_removal = Map.insert (key r) none deps.old_record_removal },
)

-- The end of rows 1-3: the source decides.
unfoldable pub mount_if_resolved : DesiredMount → List ℕ → SourceState → Builder → Builder
mount_if_resolved d deps (resolved root) b = push_ (mount d) deps b
mount_if_resolved d deps (SourceState.unavailable why) b =
    report (Finding.source_unavailable d.key d.source why) b

abbrev pub freed_by : Departures → Location → MountIdentity → Option ℕ
freed_by departures target found = elim (Map.get target departures.freed_targets) [
  | none ↦ none
  | some e ↦ if e.1 == found then some e.0 else none
]

unfoldable pub mount_at_target :
    DesiredMount → Departures → List ℕ → TargetState → SourceState → Builder → Builder
mount_at_target d departures deps not_mounted source b = mount_if_resolved d deps source b
mount_at_target d departures deps (mounted found attrs) source b =
    elim (freed_by departures d.target found) [
      | none ↦ report (conflict d.key d.target foreign_mount) b
      | some id ↦ mount_if_resolved d (deps ++ (id ∷ [])) source b
    ]
mount_at_target d departures deps (TargetState.unavailable why) source b =
    report (target_unavailable d.key d.target why) b

abbrev pub remount : MountRecord → UnmountReason → DesiredMount → Builder → Builder
remount r reason d b = let (id, b') = push (unmount r reason) [] b in push_ (mount d) (id ∷ []) b'

abbrev pub drifted : Option ObservedAttrs → DesiredMount → Bool
drifted attrs d = is_some_and (λ a. not (enforce a d.attrs)) attrs

-- Rows 4-6: our mount is at the target.
unfoldable pub plan_our_mount :
    DesiredMount → MountRecord → Option ObservedAttrs → SourceState → Builder → Builder
plan_our_mount d r attrs (resolved root) b =
    if root == (identity r).root
    then (if not (State.attrs r == d.attrs)
        then remount r attributes_changed d b
        else if drifted attrs d
        then remount r attributes_drifted d b
        else b)
    else remount r source_changed d b
plan_our_mount d r attrs (SourceState.unavailable why) b = push_ (unmount r (source_gone why)) [] b

-- Rows 4-9: the member has a record at its desired location.
unfoldable pub plan_recorded_member :
    DesiredMount → MountRecord → TargetState → SourceState → Builder → Builder
plan_recorded_member d r (mounted found attrs) source b =
    if matches found (identity r)
    then plan_our_mount d r attrs source b
    else report (conflict d.key d.target target_replaced) b
plan_recorded_member d r not_mounted (resolved root) b = push_ (mount d) [] b
plan_recorded_member d r not_mounted (SourceState.unavailable why) b =
    report (Finding.source_unavailable d.key d.source why)
      (push_ (drop_record r (DropReason.source_unavailable why)) [] b)
plan_recorded_member d r (TargetState.unavailable why) source b =
    report (target_unavailable d.key d.target why) b

module _ (input : PlanInput) where
  -- Why a record that is not desired at its location goes: `here` is the accepted member of its key.
  unfoldable pub departure_reason : MountRecord → Option DesiredMount → UnmountReason
  departure_reason r here =
      if not (is_some here)
        && any (λ d. d.key == key r && not (frozen input d.key.group)) input.desired
      then target_collision
      else if is_some here
      then relocated
      else not_member

  -- Phase A for one record: it stays if its group is frozen or it is desired where it is.
  unfoldable pub plan_departing_record :
      Map RecordKey DesiredMount → MountRecord → Builder × Departures → Builder × Departures
  plan_departing_record desired r s =
      let here = Map.get (key r) desired in
      if frozen input r.group || is_some_and (record_matches_desired r) here
      then s
      else depart r (departure_reason r here) (target_at input (target_location r)) s

  unfoldable pub plan_departing_records :
      Map RecordKey DesiredMount → List MountRecord → Builder × Departures → Builder × Departures
  plan_departing_records desired [] s = s
  plan_departing_records desired (r ∷ rs) s =
      plan_departing_records desired rs (plan_departing_record desired r s)

  -- Rows 1-3: the member has no record at its desired location.
  unfoldable pub plan_unrecorded_member :
      DesiredMount → Departures → TargetState → SourceState → Builder → Builder
  plan_unrecorded_member d departures target source b =
      elim (Map.get d.key departures.old_record_removal) [
        | none ↦ mount_at_target d departures [] target source b
        | some none ↦
            report
              (relocation_blocked d.key (elim (State.get input.state d.key) [
                | none ↦ d.target
                | some r ↦ target_location r
              ]))
              b
        | some (some id) ↦ mount_at_target d departures (id ∷ []) target source b
      ]

  -- The body of the loop over the accepted members.
  unfoldable pub plan_member : Departures → DesiredMount → Builder → Builder
  plan_member departures d b =
      let target = target_at input d.target in
      let source = source_of input d.key in
      let other = plan_unrecorded_member d departures target source b in
      elim (State.get input.state d.key) [
        | none ↦ other
        | some r ↦
            if record_matches_desired r d then plan_recorded_member d r target source b else other
      ]

  unfoldable pub plan_members : Departures → Map RecordKey DesiredMount → Builder → Builder
  plan_members departures [] b = b
  plan_members departures ((k, d) ∷ rest) b =
      plan_members departures rest (plan_member departures d b)

unfoldable pub plan : PlanInput → Plan
unfolding finish resolve_collisions plan_departing_records plan_members
plan input =
    let (b, desired) = resolve_collisions input empty_builder in
    let (b', departures) =
      plan_departing_records input desired (State.records input.state) (b, no_departures) in
    finish (plan_members input departures desired b')
