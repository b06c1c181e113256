-- ===== src/Reconcile/Plan/Safety.antt =====
-- The safety of plans (src/reconcile/plan.rs, `plan`).
use byssus.Base.{
  ℕ, ◌<◌, ◌≡◌, inl, inr, refl, ap, Option, some, List, arith, Option-cases, All, All-get, All-map,
  All-mono, All-Elem, All-sort_by, All-dedup, Elem, Elem-map, Elem-sort_by, Elem-dedup, get_elem?,
  get_elem?-Elem, nat_eq, sort_by, dedup,
}
use Prim.Native.Nat.{compare}
use mathlib.Core.Option
use byssus.State
use byssus.State.Laws.{IsKeyed}
use byssus.Reconcile.Types.{
  DesiredMount, PlanInput, Action, drop_record, mount, unmount, phase, Step,
}
use byssus.Reconcile.Builder.{Builder, empty_builder, final_step, index_table}
use byssus.Reconcile.Builder.Finish.{index_of, finish-index_of, finish-step, finish_phases}
use byssus.Reconcile.Collisions.{resolve_collisions}
use byssus.Reconcile.Collisions.Laws.{resolve_collisions-IsAccepted, resolve_collisions-steps}
use byssus.Reconcile.Plan.{no_departures, plan_departing_records, plan_members, plan}
use byssus.Reconcile.Plan.Spec.{IsJustified, IsReady, IsRemoval}
use byssus.Reconcile.Plan.Invariant.{Entry, action_at, AllSound, IsSound}
use byssus.Reconcile.Plan.Departing.{IsTracked, plan_departing_records-Tracked}
use byssus.Reconcile.Plan.Members.{plan_members-Tracked}

-- The planner's state before `finish`.
abbrev pub planned : PlanInput → Builder
planned input =
    let (b, desired) = resolve_collisions input empty_builder in
    let (b', departures) =
      plan_departing_records input desired (State.records input.state) (b, no_departures) in
    plan_members input departures desired b'

module _ (input : PlanInput) where
  start-IsTracked : IsTracked input (resolve_collisions input empty_builder).0.steps no_departures
  start-IsTracked =
      rw (resolve_collisions-steps input empty_builder)
        (record { sound = tt; removals = tt; freed = tt })

  pub planned-AllSound : IsKeyed input.state → AllSound input (planned input).steps
  planned-AllSound keyed =
      (plan_members-Tracked input _ _ _ keyed (resolve_collisions-IsAccepted input empty_builder) (
        plan_departing_records-Tracked input _ (State.records input.state) _
          (All-Elem (λ r. Elem r (State.records input.state)) (State.records input.state)
            (λ r m. m))
          start-IsTracked)).sound

abbrev pub plan_action : PlanInput → ℕ → Option Action
plan_action input id = Option.map (λ s. s.action) (get_elem? (plan input).steps id)

module _ (input : PlanInput) (keyed : IsKeyed input.state) where
  plan-step :
      (i : ℕ) (t : Step)
      → get_elem? (plan input).steps i ≡ some t
      → (id : ℕ) × (s : Entry) × (index_of (planned input).steps id ≡ i)
        × (get_elem? (planned input).steps id ≡ some s)
        × (t ≡ final_step (index_table (planned input).steps) s)
        × IsSound input (planned input).steps s
  unfolding plan
  plan-step i t e =
      let (id, s, p, q, r) = finish-step (planned input) i t e in
      (
        id,
        s,
        p,
        q,
        r,
        All-get (IsSound input (planned input).steps) (planned input).steps s
            (planned-AllSound input keyed) (get_elem?-Elem _ id s q),
      )

  -- Every step of a plan is justified by the observations.
  pub plan-IsJustified :
      (i : ℕ) (t : Step) → get_elem? (plan input).steps i ≡ some t → IsJustified input t.action
  plan-IsJustified i t e =
      let (id, s, p, q, r, sound) = plan-step i t e in rw (ap (λ (x : Step). x.action) r) sound.0

  -- A step of the builder has its action at its place in the plan.
  pub plan_action-index_of :
      (id : ℕ) (a : Action)
      → action_at (planned input).steps id ≡ some a
      → plan_action input (index_of (planned input).steps id) ≡ some a
  unfolding plan
  plan_action-index_of id a e = elim (Option-cases (get_elem? (planned input).steps id)) [
    | inl n ↦ absurd (ground arith)
    | inr (s, p) ↦ rw (finish-index_of (planned input) id s p) (rw p at e)
  ]

  abbrev IsEarlier : ℕ → ℕ → Type 0
  IsEarlier i d = (d < i) × IsRemoval (plan_action input d)

  dependency-IsEarlier :
      (id dep : ℕ) (d : DesiredMount) (deps : List ℕ)
      → get_elem? (planned input).steps id ≡ some (mount d, deps)
      → IsRemoval (action_at (planned input).steps dep)
      → IsEarlier (index_of (planned input).steps id) (index_of (planned input).steps dep)
  unfolding phase
  dependency-IsEarlier id dep d deps e h =
      elim (Option-cases (get_elem? (planned input).steps dep)) [
        | inl n ↦ absurd (rw n at h)
        | inr (s, p) ↦
            let z : phase s.0 ≡ 0 = rw p at h in
            (
              finish_phases (planned input) dep id s (mount d, deps) p e (omega arith),
              rw (plan_action-index_of dep s.0 (rw p)) z,
            )
      ]

  dependencies-IsEarlier :
      (id : ℕ) (a : Action) (deps : List ℕ)
      → get_elem? (planned input).steps id ≡ some (a, deps)
      → IsReady input (action_at (planned input).steps) a deps
      → All (λ dep. IsRemoval (action_at (planned input).steps dep)) deps
      → All
          (λ dep.
            IsEarlier (index_of (planned input).steps id) (index_of (planned input).steps dep))
          deps
  dependencies-IsEarlier id (mount d) deps e ready h =
      All-mono _ _ deps (λ dep r. dependency-IsEarlier id dep d deps e r) h
  dependencies-IsEarlier id (unmount r reason) deps e ready h = rw ready tt
  dependencies-IsEarlier id (drop_record r reason) deps e ready h = rw ready tt

  final_step-IsEarlier :
      (id i : ℕ) (a : Action) (deps : List ℕ)
      → index_of (planned input).steps id ≡ i
      → All
          (λ dep.
            IsEarlier (index_of (planned input).steps id) (index_of (planned input).steps dep))
          deps
      → All (IsEarlier i) (final_step (index_table (planned input).steps) (a, deps)).depends_on
  unfolding dedup sort_by
  final_step-IsEarlier id i a deps p h = rw (← p) (
      All-dedup (IsEarlier (index_of (planned input).steps id)) _ (
        All-sort_by compare (IsEarlier (index_of (planned input).steps id)) _ (
          All-map (index_of (planned input).steps) (IsEarlier (index_of (planned input).steps id))
            deps h)))

  -- Dependencies are unmounts and dropped records that stand earlier in the plan.
  pub plan_dependencies :
      (i : ℕ) (t : Step)
      → get_elem? (plan input).steps i ≡ some t
      → All (λ d. (d < i) × IsRemoval (plan_action input d)) t.depends_on
  plan_dependencies i t e =
      let (id, s, p, q, r, sound) = plan-step i t e in
      rw r
        (final_step-IsEarlier id i s.0 s.1 p (dependencies-IsEarlier id s.0 s.1 q sound.1 sound.2))

  final_step-IsReady :
      (a : Action) (deps : List ℕ)
      → IsReady input (action_at (planned input).steps) a deps
      → IsReady input
          (plan_action input)
          a
          (final_step (index_table (planned input).steps) (a, deps)).depends_on
  unfolding dedup sort_by
  final_step-IsReady (mount d) deps (inl n) = inl n
  final_step-IsReady (mount d) deps (inr (id, a, m, e, f)) = inr (
    index_of (planned input).steps id,
    a,
    Elem-dedup _ _ (Elem-sort_by compare _ _ (Elem-map (index_of (planned input).steps) deps id m)),
    plan_action-index_of id a e,
    f,
  )
  final_step-IsReady (unmount r reason) deps h = rw h refl
  final_step-IsReady (drop_record r reason) deps h = rw h refl

  -- A mount goes where nothing is mounted, or waits for the unmount of what Byssus mounted there;
  -- every other step waits for nothing.
  pub plan-IsReady :
      (i : ℕ) (t : Step)
      → get_elem? (plan input).steps i ≡ some t
      → IsReady input (plan_action input) t.action t.depends_on
  plan-IsReady i t e =
      let (id, s, p, q, r, sound) = plan-step i t e in rw r (final_step-IsReady s.0 s.1 sound.1)
