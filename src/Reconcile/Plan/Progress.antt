-- ===== src/Reconcile/Plan/Progress.antt =====
-- The mounts that a plan makes (src/reconcile/plan.rs, `plan`).
use byssus.Base.{◌≡◌, false, none, map, Elem, IsNodup, option_eq, nat_eq}
use byssus.Base.Map
use byssus.Base.Map.{Map}
use byssus.Name.{group_eq}
use byssus.Identity.{DevIno, dev_ino_eq, identity_eq}
use byssus.Config.{attrs_eq}
use byssus.State
use byssus.State.{State, RecordKey, key_ord, key}
use byssus.Reconcile.Types.{location_ord, DesiredMount, resolved, not_mounted, PlanInput}
use byssus.Reconcile.Builder.{Builder, target_at, source_of, frozen}
use byssus.Reconcile.Plan.{Departures}

module _ (input : PlanInput) (departures : Departures) where
  -- A member without a record, whose target is free and whose source is there.
  record IsMissing (d : DesiredMount) : Type 0 where
    pub unrecorded : State.get input.state d.key ≡ none
    pub staying : Map.get d.key departures.old_record_removal ≡ none
    pub free : target_at input d.target ≡ not_mounted
    pub root : DevIno
    pub source : source_of input d.key ≡ resolved root

-- Departing records leave other members alone.
abbrev Stays : RecordKey → Builder × Departures → Type 0
Stays k s = Map.get k s.1.old_record_removal ≡ none

-- A desired member of a group that is not frozen, without a record; nothing is at its target, and its
-- source is there. The members' keys and targets are distinct.
pub record IsAwaiting (input : PlanInput) (d : DesiredMount) : Type 0 where
  pub keys : IsNodup (map (λ (x : DesiredMount). x.key) input.desired)
  pub targets : IsNodup (map (λ (x : DesiredMount). x.target) input.desired)
  pub desired : Elem d input.desired
  pub thawed : frozen input d.key.group ≡ false
  pub unrecorded : State.get input.state d.key ≡ none
  pub free : target_at input d.target ≡ not_mounted
  pub root : DevIno
  pub source : source_of input d.key ≡ resolved root
