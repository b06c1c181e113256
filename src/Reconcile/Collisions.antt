-- ===== src/Reconcile/Collisions.antt =====
-- Members that resolve to one target (src/reconcile/plan.rs, `resolve_collisions`).
pub mod Laws
pub mod Complete
use byssus.Base.{
  Bool, false, ◌&&◌, Option, none, some, List, [], ◌∷◌, ◌++◌, map, if◌then◌else◌, Ordering, find,
  sort_by, option_eq, nat_eq,
}
use mathlib.Core.Option
use byssus.Base.Map
use byssus.Base.Map.{Map}
use byssus.Name.{group_eq}
use byssus.Identity.{dev_ino_eq, identity_eq}
use byssus.Config.{attrs_eq}
use byssus.State
use byssus.State.{RecordKey, key_ord, key_eq, MountRecord, State, key, identity}
use byssus.Reconcile.Types.{
  Location, location_ord, location_eq, DesiredMount, TargetState, PlanInput, Finding,
}
use byssus.Reconcile.Builder.{Builder, report, ours, target_at, frozen, record_matches_desired}

-- `entry(target).or_default().push(d)`
unfoldable pub add_to :
    DesiredMount → Map Location (List DesiredMount) → Map Location (List DesiredMount)
add_to d m = Map.insert d.target (Option.get_or (Map.get d.target m) [] ++ (d ∷ [])) m

abbrev pub key_order : DesiredMount → DesiredMount → Ordering
key_order a b = key_ord.cmp a.key b.key

module _ (input : PlanInput) where
  unfoldable pub group_by_target :
      List DesiredMount → Map Location (List DesiredMount) → Map Location (List DesiredMount)
  group_by_target [] m = m
  group_by_target (d ∷ ds) m =
      group_by_target ds (if frozen input d.key.group then m else add_to d m)

  -- The member of a collision that stays: it is recorded at the target and mounted there.
  unfoldable pub is_kept : TargetState → DesiredMount → Bool
  is_kept observed d = elim (State.get input.state d.key) [
    | none ↦ false
    | some r ↦ record_matches_desired r d && ours observed r
  ]

  unfoldable pub keep_in :
      Option DesiredMount → Map RecordKey DesiredMount → Map RecordKey DesiredMount
  keep_in none accepted = accepted
  keep_in (some d) accepted = Map.insert d.key d accepted

  unfoldable pub collide :
      Location
      → List DesiredMount
      → Builder
      → Map RecordKey DesiredMount
      → Builder × Map RecordKey DesiredMount
  collide target members b accepted =
      let sorted = sort_by key_order members in
      let kept = find (is_kept (target_at input target)) sorted in
      (
        report
            (Finding.target_collision target (map (λ d. d.key) sorted)
              (Option.map (λ d. d.key) kept))
            b,
        keep_in kept accepted,
      )

  unfoldable pub accept :
      Location
      → List DesiredMount
      → Builder
      → Map RecordKey DesiredMount
      → Builder × Map RecordKey DesiredMount
  accept target (d ∷ []) b accepted = (b, Map.insert d.key d accepted)
  accept target members b accepted = collide target members b accepted

  unfoldable pub accept_all :
      List (Location × List DesiredMount)
      → Builder
      → Map RecordKey DesiredMount
      → Builder × Map RecordKey DesiredMount
  accept_all [] b accepted = (b, accepted)
  accept_all ((target, members) ∷ rest) b accepted =
      let r = accept target members b accepted in accept_all rest r.0 r.1

  unfoldable pub resolve_collisions : Builder → Builder × Map RecordKey DesiredMount
  resolve_collisions b = accept_all (group_by_target input.desired []) b []
