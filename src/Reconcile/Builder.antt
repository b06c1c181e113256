-- ===== src/Reconcile/Builder.antt =====
-- The planner's working state (src/reconcile/plan.rs): the steps and findings so far, how the
-- observations are read, and how the steps are put in order at the end.
pub mod Finish
use Prim.Native.Nat.{compare}
use byssus.Base.{
  ℕ, zero, suc, ◌+◌, Bool, false, ◌&&◌, none, some, List, [], ◌∷◌, ◌++◌, map, Ordering, text, ◌==◌,
  contains, length, get_elem?, get_or, set, replicate, sort_by, dedup, option_eq, nat_eq,
}
use mathlib.Core.Option
use byssus.Base.Map
use byssus.Base.Map.{Map}
use byssus.Name.{GroupId, group_eq}
use byssus.Identity.{dev_ino_eq, identity_eq, matches}
use byssus.Config.{attrs_eq}
use byssus.State.{RecordKey, key_ord, key_eq, MountRecord, identity}
use byssus.Reconcile.Types.{
  Location, location_ord, location_eq, source_location, target_location, DesiredMount, SourceState,
  TargetState, mounted, PlanInput, Action, phase, Step, Finding, Plan,
}

unfoldable pub record_matches_desired : MountRecord → DesiredMount → Bool
record_matches_desired r d = source_location r == d.source && target_location r == d.target

-- The steps so far, each with the ids of the steps that it depends on; an id is a place in the list.
pub record Builder : Type 0 where
  pub steps : List (Action × List ℕ)
  pub findings : List Finding

abbrev pub empty_builder : Builder
empty_builder = record { steps = []; findings = [] }

-- The new step's id comes back.
unfoldable pub push : Action → List ℕ → Builder → ℕ × Builder
push action depends_on b =
    (length b.steps, record b { steps = b.steps ++ ((action, depends_on) ∷ []) })

abbrev pub push_ : Action → List ℕ → Builder → Builder
push_ action depends_on b = (push action depends_on b).1

abbrev pub report : Finding → Builder → Builder
report f b = record b { findings = b.findings ++ (f ∷ []) }

abbrev pub ours : TargetState → MountRecord → Bool
ours (mounted found attrs) r = matches found (identity r)
ours _ r = false

module _ (input : PlanInput) where
  unfoldable pub target_at : Location → TargetState
  target_at location =
      Option.get_or (Map.get location input.observations.targets)
        (TargetState.unavailable (text "target was not observed"))

  unfoldable pub source_of : RecordKey → SourceState
  source_of k =
      Option.get_or (Map.get k input.observations.sources)
        (SourceState.unavailable (text "source was not observed"))

  abbrev pub frozen : GroupId → Bool
  frozen g = contains input.frozen_groups g

-- `(i..i + n).collect()`
abbrev pub indices : ℕ → ℕ → List ℕ
indices i zero = []
indices i (suc n) = i ∷ indices (i + 1) n

abbrev pub phase_at : List (Action × List ℕ) → ℕ → ℕ
phase_at steps id = elim (get_elem? steps id) [ none ↦ 0 | some s ↦ phase s.0 ]

abbrev pub phase_order : List (Action × List ℕ) → ℕ → ℕ → Ordering
phase_order steps i j = compare (phase_at steps i) (phase_at steps j)

-- The loop that writes `index_of[id] = index`, from the place `index` of the order on.
unfoldable pub fill_index : ℕ → List ℕ → List ℕ → List ℕ
fill_index index [] index_of = index_of
fill_index index (id ∷ order) index_of = fill_index (index + 1) order (set index_of id index)

abbrev pub final_step : List ℕ → Action × List ℕ → Step
final_step index_of s = record {
  action = s.0;
  depends_on = dedup (sort_by compare (map (λ d. get_or index_of d 0) s.1));
}

-- An id that is out of range, or that is taken twice, panics in the source. The order is a
-- permutation of the ids, so neither happens.
unfoldable pub take_steps : List ℕ → List (Action × List ℕ) → List ℕ → List Step
take_steps index_of steps [] = []
take_steps index_of steps (id ∷ order) =
    let rest = take_steps index_of steps order in
    elim (get_elem? steps id) [ none ↦ rest | some s ↦ final_step index_of s ∷ rest ]

unfoldable pub order_of : List (Action × List ℕ) → List ℕ
order_of steps = sort_by (phase_order steps) (indices 0 (length steps))

unfoldable pub index_table : List (Action × List ℕ) → List ℕ
unfolding fill_index
index_table steps = fill_index 0 (order_of steps) (replicate (length steps) 0)

unfoldable pub finish : Builder → Plan
unfolding take_steps order_of index_table sort_by dedup phase
finish b = record {
  steps = take_steps (index_table b.steps) b.steps (order_of b.steps);
  findings = b.findings;
}
