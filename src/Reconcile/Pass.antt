-- ===== src/Reconcile/Pass.antt =====
-- One reconciliation pass: discovery, observation, planning, execution (src/reconcile/mod.rs).
pub mod Frozen
mod Tests
use byssus.Base.{Bool, true, false, ◌||◌, Option, none, some, List, [], ◌∷◌, ◌++◌, map, keep, any}
use byssus.Base.Set
use byssus.Name.{Name, GroupId, name_ord, group_ord, starts_with}
use byssus.State
use byssus.State.{State, MountRecord}
use byssus.System.{System}
use byssus.Runtime.{Runtime, Discovery}
use byssus.Runtime.Scan.{discover}
use byssus.Reconcile.Types.{PlanInput, Plan}
use byssus.Reconcile.Notes.{Observed, NoteEvent, NoteLog, update}
use byssus.Reconcile.Observe.{observe}
use byssus.Reconcile.Plan.{plan}
use byssus.Reconcile.Execute.{Machine, Sink, StepResult, execute}

pub record Degraded : Type 0 where
  pub groups : List GroupId
  pub sets : List Name

-- The set of a group is one of these.
abbrev pub in_sets : List Name → Option Name → Bool
in_sets sets none = false
in_sets sets (some set) = Set.has sets set

-- The records of these groups are left untouched, besides those of degraded groups.
abbrev pub is_withheld : List Name → List GroupId → MountRecord → Bool
is_withheld frozen_sets unavailable r =
    in_sets frozen_sets r.group.set || any (starts_with r.group) unavailable

abbrev pub plan_input : State → Observed → PlanInput
plan_input s o = record {
  desired = o.desired;
  state = s;
  frozen_groups = o.frozen;
  observations = o.observations;
}

pub record Pass : Type 0 where
  pub observed : Observed
  pub plan : Plan
  pub execution : List StepResult

module _ (sys : System) where
  open sys use {World}

  unfoldable pub frozen_groups : Degraded → Discovery sys → State → List GroupId
  unfolding starts_with State.records
  frozen_groups degraded d s =
      let frozen_sets = Set.extend degraded.sets d.unavailable_sets in
      Set.extend (Set.extend degraded.groups d.unavailable)
        (map (λ r. r.group) (keep (is_withheld frozen_sets d.unavailable) (State.records s)))

  -- What a pass acts on; the log remembers the notes that were reported.
  pub record PassState : Type 0 where
    pub runtime : Runtime sys
    pub state : State
    pub log : NoteLog
    pub world : World

  abbrev pub machine : PassState → Machine sys
  machine p = record { world = p.world; roots = p.runtime.roots; state = p.state }

  -- The state after code that acts on the machine.
  abbrev pub after : PassState → Machine sys → PassState
  after p m = record {
    runtime = record p.runtime { roots = m.roots };
    state = m.state;
    log = p.log;
    world = m.world;
  }

  -- `after_discovery` is the caller's, and may act on the world.
  module _ (unique_supported : Bool) (after_discovery : Runtime sys → World → World) where
    unfoldable pub discover_and_observe : Degraded → PassState → Observed × PassState
    unfolding discover frozen_groups observe
    discover_and_observe degraded p =
        let (runtime, (d, w)) = discover sys degraded.sets p.runtime p.world in
        let p' : PassState = record p { runtime = runtime; world = after_discovery runtime w } in
        let (o, m) =
          observe sys unique_supported runtime.groups (frozen_groups degraded d p.state)
            (machine p') in
        (record o { notes = d.notes ++ o.notes; scanned_sets = d.scanned_sets }, after p' m)

    unfoldable pub run_pass : Sink sys → Degraded → PassState → Pass × PassState
    unfolding discover_and_observe update plan execute
    run_pass sink degraded p =
        let (o, p') = discover_and_observe degraded p in
        let (events, log) = update p'.log o in
        let steps = plan (plan_input p'.state o) in
        let (results, m) = execute sys sink unique_supported steps (machine p') in
        (
          record { observed = o; plan = steps; execution = results },
          record (after p' m) { log = log },
        )
