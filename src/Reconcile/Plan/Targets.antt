-- ===== src/Reconcile/Plan/Targets.antt =====
-- The targets of the mount steps of a plan (src/reconcile/plan.rs, `plan`).
use byssus.Base.{
  ℕ, zero, suc, ◌≡◌, ◌≢◌, ◌⊎◌, inl, inr, refl, sym, ap, ◌∙◌, Option, none, some, List, [], ◌∷◌,
  ◌++◌, arith, Bool-cases, Option-cases, All, All-get, All-append, Elem, get_elem?, get_elem?-Elem,
  some_inj,
}
use mathlib.Core.List.{append-nil}
use byssus.Base.Map
use byssus.Base.Map.{Map}
use byssus.Identity.{dev_ino_eq, matches}
use byssus.Config.{attrs_eq}
use byssus.State
use byssus.State.{RecordKey, key_ord, MountRecord, identity, key}
use byssus.Reconcile.Types.{
  location_ord, target_location, DesiredMount, SourceState, resolved, TargetState, not_mounted,
  mounted, PlanInput, Action, unmount, drop_record, mount, Step, UnmountReason,
}
use byssus.Reconcile.Builder.{
  Builder, empty_builder, push, target_at, source_of, record_matches_desired,
}
use byssus.Reconcile.Builder.Finish.{index_of, finish-step}
use byssus.Reconcile.Collisions.{resolve_collisions}
use byssus.Reconcile.Collisions.Laws.{Apart, resolve_collisions-Apart, resolve_collisions-steps}
use byssus.Reconcile.Plan.{
  Departures, no_departures, depart, plan_departing_record, plan_departing_records,
  departure_reason, mount_if_resolved, freed_by, mount_at_target, plan_unrecorded_member, remount,
  plan_our_mount, plan_recorded_member, plan_member, plan_members, plan,
}
use byssus.Reconcile.Plan.Invariant.{Entry}
use byssus.Reconcile.Plan.Safety.{planned, plan_action}

-- The members that the steps mount, in order.
abbrev mounts_of : List Entry → List DesiredMount
mounts_of [] = []
mounts_of ((mount d, deps) ∷ steps) = d ∷ mounts_of steps
mounts_of ((unmount r reason, deps) ∷ steps) = mounts_of steps
mounts_of ((drop_record r reason, deps) ∷ steps) = mounts_of steps

mounts_of-append :
    (steps more : List Entry) → mounts_of (steps ++ more) ≡ mounts_of steps ++ mounts_of more
mounts_of-append [] more = refl
mounts_of-append ((mount d, deps) ∷ steps) more = rw (mounts_of-append steps more)
mounts_of-append ((unmount r reason, deps) ∷ steps) more = mounts_of-append steps more
mounts_of-append ((drop_record r reason, deps) ∷ steps) more = mounts_of-append steps more

-- The steps grew by a mount of `d` at most.
abbrev Grows : DesiredMount → Builder → Builder → Type 0
Grows d b c =
    (mounts_of c.steps ≡ mounts_of b.steps) ⊎ (mounts_of c.steps ≡ mounts_of b.steps ++ (d ∷ []))

mount_if_resolved-Grows :
    (d : DesiredMount) (deps : List ℕ) (source : SourceState) (b : Builder)
    → Grows d b (mount_if_resolved d deps source b)
unfolding mount_if_resolved push
mount_if_resolved-Grows d deps (resolved root) b =
    inr (mounts_of-append b.steps ((mount d, deps) ∷ []))
mount_if_resolved-Grows d deps (SourceState.unavailable why) b = inl refl

mount_at_target-Grows :
    (d : DesiredMount) (departures : Departures) (deps : List ℕ) (target : TargetState)
    (source : SourceState) (b : Builder)
    → Grows d b (mount_at_target d departures deps target source b)
unfolding mount_at_target
mount_at_target-Grows d departures deps not_mounted source b =
    mount_if_resolved-Grows d deps source b
mount_at_target-Grows d departures deps (mounted found attrs) source b =
    elim (Option-cases (freed_by departures d.target found)) [
      | inl n ↦ rw (n, mount_at_target) (inl refl)
      | inr (id, p) ↦
          rw (p, mount_at_target) (mount_if_resolved-Grows d (deps ++ (id ∷ [])) source b)
    ]
mount_at_target-Grows d departures deps (TargetState.unavailable why) source b = inl refl

remount-Grows :
    (r : MountRecord) (reason : UnmountReason) (d : DesiredMount) (b : Builder)
    → Grows d b (remount r reason d b)
unfolding push
remount-Grows r reason d b = inr (
    mounts_of-append (b.steps ++ ((unmount r reason, []) ∷ [])) _
    ∙ ap (λ (l : List DesiredMount). l ++ (d ∷ []))
        (mounts_of-append b.steps ((unmount r reason, []) ∷ []) ∙ append-nil (mounts_of b.steps)))

plan_recorded_member-Grows :
    (d : DesiredMount) (r : MountRecord) (target : TargetState) (source : SourceState) (b : Builder)
    → Grows d b (plan_recorded_member d r target source b)
unfolding plan_recorded_member plan_our_mount push
plan_recorded_member-Grows d r (mounted found attrs) (resolved root) b = ground (
  arith,
  remount-Grows r UnmountReason.attributes_changed d b,
  remount-Grows r UnmountReason.attributes_drifted d b,
  remount-Grows r UnmountReason.source_changed d b,
)
plan_recorded_member-Grows d r (mounted found attrs) (SourceState.unavailable why) b = ground (
  arith,
  mounts_of-append b.steps ((unmount r (UnmountReason.source_gone why), []) ∷ []),
  append-nil (mounts_of b.steps),
)
plan_recorded_member-Grows d r not_mounted (resolved root) b =
    inr (mounts_of-append b.steps ((mount d, []) ∷ []))
plan_recorded_member-Grows d r not_mounted (SourceState.unavailable why) b =
    inl (mounts_of-append b.steps _ ∙ append-nil (mounts_of b.steps))
plan_recorded_member-Grows d r (TargetState.unavailable why) source b = inl refl

module _ (input : PlanInput) where
  plan_unrecorded_member-Grows :
      (d : DesiredMount) (departures : Departures) (target : TargetState) (source : SourceState)
      (b : Builder) (o : Option (Option ℕ))
      → Map.get d.key departures.old_record_removal ≡ o
      → Grows d b (plan_unrecorded_member input d departures target source b)
  unfolding plan_unrecorded_member
  plan_unrecorded_member-Grows d departures target source b none p =
      rw (p, plan_unrecorded_member) (mount_at_target-Grows d departures [] target source b)
  plan_unrecorded_member-Grows d departures target source b (some none) p =
      rw (p, plan_unrecorded_member) (inl refl)
  plan_unrecorded_member-Grows d departures target source b (some (some id)) p =
      rw (p, plan_unrecorded_member) (mount_at_target-Grows d departures (id ∷ []) target source b)

  plan_member-Grows :
      (departures : Departures) (d : DesiredMount) (b : Builder)
      → Grows d b (plan_member input departures d b)
  unfolding plan_member
  plan_member-Grows departures d b =
      let u =
        plan_unrecorded_member-Grows d departures (target_at input d.target) (source_of input d.key)
          b _ refl in
      elim (Option-cases (State.get input.state d.key)) [
        | inl n ↦ rw (n, plan_member) u
        | inr (r, p) ↦ elim (Bool-cases (record_matches_desired r d)) [
          | inl m ↦ rw (p, m, plan_member) (plan_recorded_member-Grows d r _ _ b)
          | inr m ↦ rw (p, m, plan_member) u
        ]
      ]

  depart-mounts :
      (r : MountRecord) (reason : UnmountReason) (target : TargetState) (s : Builder × Departures)
      → mounts_of (depart r reason target s).0.steps ≡ mounts_of s.0.steps
  unfolding depart push
  depart-mounts r reason not_mounted (b, departures) =
      mounts_of-append b.steps _ ∙ append-nil (mounts_of b.steps)
  depart-mounts r reason (mounted found attrs) (b, departures) =
      elim (Bool-cases (matches found (identity r))) [
        | inl m ↦ rw m (mounts_of-append b.steps _ ∙ append-nil (mounts_of b.steps))
        | inr m ↦ rw m (mounts_of-append b.steps _ ∙ append-nil (mounts_of b.steps))
      ]
  depart-mounts r reason (TargetState.unavailable why) (b, departures) = refl

  plan_departing_record-mounts :
      (desired : Map RecordKey DesiredMount) (r : MountRecord) (s : Builder × Departures)
      → mounts_of (plan_departing_record input desired r s).0.steps ≡ mounts_of s.0.steps
  unfolding plan_departing_record
  plan_departing_record-mounts desired r s = ground (
    arith,
    depart-mounts r (departure_reason input r (Map.get (key r) desired))
        (target_at input (target_location r)) s,
  )

  -- Phase A mounts nothing.
  plan_departing_records-mounts :
      (desired : Map RecordKey DesiredMount) (rs : List MountRecord) (s : Builder × Departures)
      → mounts_of (plan_departing_records input desired rs s).0.steps ≡ mounts_of s.0.steps
  unfolding plan_departing_records
  plan_departing_records-mounts desired [] s = refl
  plan_departing_records-mounts desired (r ∷ rs) s =
      plan_departing_records-mounts desired rs _ ∙ plan_departing_record-mounts desired r s

-- No two of the members have one target.
abbrev AreApart : List DesiredMount → Type 0
AreApart [] = Unit
AreApart (d ∷ ds) = All (λ e. d.target ≢ e.target) ds × AreApart ds

AreApart-snoc :
    (ds : List DesiredMount) (d : DesiredMount)
    → AreApart ds
    → All (λ e. e.target ≢ d.target) ds
    → AreApart (ds ++ (d ∷ []))
AreApart-snoc [] d h k = (tt, tt)
AreApart-snoc (e ∷ ds) d h k =
    (All-append (λ x. e.target ≢ x.target) ds (d ∷ []) h.0 (k.0, tt), AreApart-snoc ds d h.1 k.1)

-- The members still to come have other targets than those that are mounted.
abbrev AreFresh : Map RecordKey DesiredMount → List DesiredMount → Type 0
AreFresh rest = All (λ d. All (λ e. d.target ≢ e.1.target) rest)

AreFresh-head :
    (e : RecordKey × DesiredMount) (rest : Map RecordKey DesiredMount) (ds : List DesiredMount)
    → AreFresh (e ∷ rest) ds
    → All (λ d. d.target ≢ e.1.target) ds
AreFresh-head e rest [] h = tt
AreFresh-head e rest (d ∷ ds) h = (h.0.0, AreFresh-head e rest ds h.1)

AreFresh-tail :
    (e : RecordKey × DesiredMount) (rest : Map RecordKey DesiredMount) (ds : List DesiredMount)
    → AreFresh (e ∷ rest) ds
    → AreFresh rest ds
AreFresh-tail e rest [] h = tt
AreFresh-tail e rest (d ∷ ds) h = (h.0.1, AreFresh-tail e rest ds h.1)

module _ (input : PlanInput) (departures : Departures) where
  plan_members-AreApart :
      (accepted : Map RecordKey DesiredMount) (b : Builder)
      → Map.Pairwise (Apart input) accepted
      → AreApart (mounts_of b.steps)
      → AreFresh accepted (mounts_of b.steps)
      → AreApart (mounts_of (plan_members input departures accepted b).steps)
  unfolding plan_members
  plan_members-AreApart [] b p apart fresh = apart
  plan_members-AreApart ((k, d) ∷ rest) b p apart fresh =
      elim (plan_member-Grows input departures d b) [
        | inl e ↦
            plan_members-AreApart rest _ p.1 (rw e apart)
              (rw e (AreFresh-tail (k, d) rest (mounts_of b.steps) fresh))
        | inr e ↦
            plan_members-AreApart rest _ p.1
              (rw e (
                AreApart-snoc (mounts_of b.steps) d apart
                  (AreFresh-head (k, d) rest (mounts_of b.steps) fresh)))
              (rw e (
                All-append (λ x. All (λ y. x.target ≢ y.1.target) rest) (mounts_of b.steps) (d ∷ [])
                  (AreFresh-tail (k, d) rest (mounts_of b.steps) fresh) (p.0, tt)))
      ]

planned-AreApart : (input : PlanInput) → AreApart (mounts_of (planned input).steps)
planned-AreApart input =
    let s = (resolve_collisions input empty_builder).0 in
    let none_yet : mounts_of
          (plan_departing_records input (resolve_collisions input empty_builder).1
            (State.records input.state) (s, no_departures)).0.steps
        ≡ [] =
      plan_departing_records-mounts input _ (State.records input.state) (s, no_departures)
      ∙ ap mounts_of (resolve_collisions-steps input empty_builder) in
    plan_members-AreApart input _ _ _ (resolve_collisions-Apart input empty_builder)
      (rw none_yet tt) (rw none_yet tt)

Elem-mounts_of :
    (steps : List Entry) (d : DesiredMount) (deps : List ℕ)
    → Elem (mount d, deps) steps
    → Elem d (mounts_of steps)
Elem-mounts_of [] d deps h = elim h [ ]
Elem-mounts_of ((mount e, ds) ∷ steps) d deps (inl p) = inl (ground arith)
Elem-mounts_of ((unmount r reason, ds) ∷ steps) d deps (inl p) = absurd (ground arith)
Elem-mounts_of ((drop_record r reason, ds) ∷ steps) d deps (inl p) = absurd (ground arith)
Elem-mounts_of ((mount e, ds) ∷ steps) d deps (inr h) = inr (Elem-mounts_of steps d deps h)
Elem-mounts_of ((unmount r reason, ds) ∷ steps) d deps (inr h) = Elem-mounts_of steps d deps h
Elem-mounts_of ((drop_record r reason, ds) ∷ steps) d deps (inr h) = Elem-mounts_of steps d deps h

-- Among steps whose mounts have different targets, a target determines the step.
mounts_unique :
    (steps : List Entry) (i j : ℕ) (d e : DesiredMount) (ds es : List ℕ)
    → AreApart (mounts_of steps)
    → get_elem? steps i ≡ some (mount d, ds)
    → get_elem? steps j ≡ some (mount e, es)
    → d.target ≡ e.target
    → i ≡ j
mounts_unique [] i j d e ds es a p q t = absurd (ground arith)
mounts_unique (s ∷ steps) zero zero d e ds es a p q t = refl
mounts_unique ((mount c, cs) ∷ steps) zero (suc j) d e ds es a p q t =
    let m = Elem-mounts_of steps e es (get_elem?-Elem steps j _ q) in
    let c_is_d : c ≡ d = ground arith in
    absurd (
      All-get (λ x. c.target ≢ x.target) (mounts_of steps) e a.0 m
        (ap (λ (x : DesiredMount). x.target) c_is_d ∙ t))
mounts_unique ((mount c, cs) ∷ steps) (suc i) zero d e ds es a p q t =
    let m = Elem-mounts_of steps d ds (get_elem?-Elem steps i _ p) in
    let c_is_e : c ≡ e = ground arith in
    absurd (
      All-get (λ x. c.target ≢ x.target) (mounts_of steps) d a.0 m
        (ap (λ (x : DesiredMount). x.target) c_is_e ∙ sym t))
mounts_unique ((mount c, cs) ∷ steps) (suc i) (suc j) d e ds es a p q t =
    ap suc (mounts_unique steps i j d e ds es a.1 p q t)
mounts_unique ((unmount r reason, cs) ∷ steps) zero j d e ds es a p q t = absurd (ground arith)
mounts_unique ((unmount r reason, cs) ∷ steps) (suc i) zero d e ds es a p q t =
    absurd (ground arith)
mounts_unique ((unmount r reason, cs) ∷ steps) (suc i) (suc j) d e ds es a p q t =
    ap suc (mounts_unique steps i j d e ds es a p q t)
mounts_unique ((drop_record r reason, cs) ∷ steps) zero j d e ds es a p q t = absurd (ground arith)
mounts_unique ((drop_record r reason, cs) ∷ steps) (suc i) zero d e ds es a p q t =
    absurd (ground arith)
mounts_unique ((drop_record r reason, cs) ∷ steps) (suc i) (suc j) d e ds es a p q t =
    ap suc (mounts_unique steps i j d e ds es a p q t)

-- A mount of the plan is one of the builder's steps.
planned_mount :
    (input : PlanInput) (i : ℕ) (d : DesiredMount)
    → plan_action input i ≡ some (mount d)
    → (id : ℕ) × (deps : List ℕ) × (index_of (planned input).steps id ≡ i)
      × (get_elem? (planned input).steps id ≡ some (mount d, deps))
unfolding plan
planned_mount input i d p = elim (Option-cases (get_elem? (plan input).steps i)) [
  | inl n ↦ absurd (ground arith)
  | inr (t, g) ↦
      let (id, s, at, e, f) = finish-step (planned input) i t g in
      let m : t.action ≡ mount d = some_inj _ _ (rw g at p) in
      let k : s.0 ≡ mount d = sym (ap (λ (x : Step). x.action) f) ∙ m in
      (id, s.1, at, e ∙ ap (λ (a : Action). some (a, s.1)) k)
]

-- A plan has at most one mount for each target.
pub plan_targets :
    (input : PlanInput) (i j : ℕ) (d e : DesiredMount)
    → plan_action input i ≡ some (mount d)
    → plan_action input j ≡ some (mount e)
    → d.target ≡ e.target
    → i ≡ j
plan_targets input i j d e p q t =
    let (di, s, si, gi) = planned_mount input i d p in
    let (dj, u, sj, gj) = planned_mount input j e q in
    sym si
    ∙ ap (index_of (planned input).steps)
        (mounts_unique (planned input).steps di dj d e s u (planned-AreApart input) gi gj t)
    ∙ sj
