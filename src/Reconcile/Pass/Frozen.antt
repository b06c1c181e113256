-- ===== src/Reconcile/Pass/Frozen.antt =====
-- What a pass leaves alone (src/reconcile/mod.rs, `run_pass`).
use byssus.Base.{
  ℕ, zero, suc, ◌≡◌, ◌≢◌, ◌⊎◌, refl, ap, ◌∙◌, Bool, true, false, ◌||◌, ◌==◌, Bool-cases, inl, inr,
  contains, Option, none, some, List, [], ◌∷◌, map, keep, All, Elem, get_elem?, ==_refl, arith,
}
use byssus.Base.Set
use byssus.Name.{Name, GroupId, name_ord, group_ord, group_eq}
use byssus.State
use byssus.State.{State, RecordKey, MountRecord, key}
use byssus.State.Laws.{IsKeyed, IsKeyed-get, get-records}
use byssus.System.{System}
use byssus.Runtime.{Runtime, Discovery}
use byssus.Runtime.Scan.{discover}
use byssus.Reconcile.Types.{PlanInput, Action, mount, unmount, drop_record, Step}
use byssus.Reconcile.Observe.Frozen.{IsFrozen, observe-IsFrozen, observe-state}
use byssus.Reconcile.Plan.{plan}
use byssus.Reconcile.Plan.Spec.{IsJustified}
use byssus.Reconcile.Plan.Safety.{plan-IsJustified}
use byssus.Reconcile.Execute.{Sink}
use byssus.Reconcile.Execute.Effects.{action_key, execute_frame}
use byssus.Reconcile.Pass.{
  Degraded, in_sets, is_withheld, plan_input, frozen_groups, PassState, machine,
  discover_and_observe, run_pass,
}

All-get_elem? :
    {A : Type 0} (P : A → Type 0) (xs : List A)
    → ((i : ℕ) (a : A) → get_elem? xs i ≡ some a → P a)
    → All P xs
All-get_elem? P [] f = tt
All-get_elem? P (x ∷ xs) f = (f zero x refl, All-get_elem? P xs (λ i a e. f (suc i) a e))

thawed_ne :
    (frozen : List GroupId) (k j : RecordKey)
    → contains frozen k.group ≡ true
    → contains frozen j.group ≡ false
    → k ≢ j
thawed_ne frozen k j h n e =
    absurd (ground (arith, ap (λ (x : RecordKey). contains frozen x.group) e))

justified_ne :
    (input : PlanInput) (k : RecordKey) (a : Action)
    → contains input.frozen_groups k.group ≡ true
    → IsJustified input a
    → k ≢ action_key a
justified_ne input k (mount d) h j = thawed_ne input.frozen_groups k d.key h j.1
justified_ne input k (unmount r reason) h j = thawed_ne input.frozen_groups k (key r) h j.0.1
justified_ne input k (drop_record r reason) h j = thawed_ne input.frozen_groups k (key r) h j.0.1

-- No step of a plan is about a member of a frozen group.
pub plan_frozen :
    (input : PlanInput) (k : RecordKey)
    → IsKeyed input.state
    → contains input.frozen_groups k.group ≡ true
    → All (λ (s : Step). k ≢ action_key s.action) (plan input).steps
plan_frozen input k keyed h =
    All-get_elem? _ (plan input).steps
      (λ i s e. justified_ne input k s.action h (plan-IsJustified input keyed i s e))

module _ (sys : System) (unique_supported : Bool)
    (after_discovery : Runtime sys → sys.World → sys.World) where
  discover_and_observe-state :
      (degraded : Degraded) (p : PassState sys)
      → (discover_and_observe sys unique_supported after_discovery degraded p).1.state ≡ p.state
  unfolding discover_and_observe
  discover_and_observe-state degraded p =
      let (runtime, (d, w)) = discover sys degraded.sets p.runtime p.world in
      let p' : PassState sys = record p { runtime = runtime; world = after_discovery runtime w } in
      observe-state sys unique_supported runtime.groups (frozen_groups sys degraded d p.state)
        (machine sys p')

  -- A pass over well-formed state keeps it well-formed, and leaves the record of every member of a
  -- group that it found frozen, or its absence, as it was.
  pub run_pass_frozen :
      (sink : Sink sys) (degraded : Degraded) (p : PassState sys) (k : RecordKey)
      → IsKeyed p.state
      → IsFrozen k.group (run_pass sys unique_supported after_discovery sink degraded p).0.observed
      → IsKeyed (run_pass sys unique_supported after_discovery sink degraded p).1.state
        × (State.get (run_pass sys unique_supported after_discovery sink degraded p).1.state k
            ≡ State.get p.state k)
  unfolding run_pass
  run_pass_frozen sink degraded p k keyed h =
      let (o, p') = discover_and_observe sys unique_supported after_discovery degraded p in
      let same = discover_and_observe-state degraded p in
      let keyed' : IsKeyed p'.state = rw same keyed in
      let r =
        execute_frame sys sink unique_supported k (plan (plan_input p'.state o)) (machine sys p')
          keyed' (plan_frozen (plan_input p'.state o) k keyed' h) in
      (r.0, r.1 ∙ ap (λ s. State.get s k) same)

-- A degraded group, or a group of a degraded set.
abbrev pub IsDegraded : Degraded → GroupId → Type 0
IsDegraded degraded g = (Set.has degraded.groups g ≡ true) ⊎ (in_sets degraded.sets g.set ≡ true)

or_left : (a b : Bool) → a ≡ true → (a || b) ≡ true
or_left a b h = rw h refl

or_right : (a b : Bool) → b ≡ true → (a || b) ≡ true
or_right true b h = refl
or_right false b h = h

keep-Elem :
    (p : MountRecord → Bool) (rs : List MountRecord) (r : MountRecord)
    → Elem r rs
    → p r ≡ true
    → Set.has (map (λ (x : MountRecord). x.group) (keep p rs)) r.group ≡ true
keep-Elem p [] r m h = elim m [ ]
keep-Elem p (x ∷ rs) r (inl e) h = rw (← e) (rw h (rw (==_refl r.group) refl))
keep-Elem p (x ∷ rs) r (inr m) h =
    let rest = keep-Elem p rs r m h in
    elim (Bool-cases (p x)) [
      | inl e ↦ rw e (or_right (x.group == r.group) _ rest)
      | inr e ↦ rw e rest
    ]

in_sets-extend :
    (sets more : List Name) (o : Option Name)
    → in_sets sets o ≡ true
    → in_sets (Set.extend sets more) o ≡ true
in_sets-extend sets more none h = h
in_sets-extend sets more (some set) h = Set.has-extend set more sets h

module _ (sys : System) where
  -- The groups that a pass freezes at the start, and those of records in a degraded set.
  frozen_groups-has :
      (degraded : Degraded) (d : Discovery sys) (s : State) (k : RecordKey) (r : MountRecord)
      → IsKeyed s
      → State.get s k ≡ some r
      → IsDegraded degraded k.group
      → Set.has (frozen_groups sys degraded d s) k.group ≡ true
  unfolding frozen_groups
  frozen_groups-has degraded d s k r keyed e (inl h) =
      Set.has-extend k.group _ _ (Set.has-extend k.group d.unavailable degraded.groups h)
  frozen_groups-has degraded d s k r keyed e (inr h) =
      let same = ap (λ (x : RecordKey). x.group) (IsKeyed-get s k r keyed e) in
      let frozen_sets = Set.extend degraded.sets d.unavailable_sets in
      rw same (
        Set.extend-has r.group _ _ (
          keep-Elem (is_withheld frozen_sets d.unavailable) (State.records s) r
            (get-records s k r e)
            (or_left _ _
              (in_sets-extend degraded.sets d.unavailable_sets r.group.set (rw same at h)))))

module _ (sys : System) (unique_supported : Bool)
    (after_discovery : Runtime sys → sys.World → sys.World) where
  discover_and_observe-IsFrozen :
      (degraded : Degraded) (p : PassState sys) (k : RecordKey) (r : MountRecord)
      → IsKeyed p.state
      → State.get p.state k ≡ some r
      → IsDegraded degraded k.group
      → IsFrozen k.group (discover_and_observe sys unique_supported after_discovery degraded p).0
  unfolding discover_and_observe
  discover_and_observe-IsFrozen degraded p k r keyed e h =
      let (runtime, (d, w)) = discover sys degraded.sets p.runtime p.world in
      let p' : PassState sys = record p { runtime = runtime; world = after_discovery runtime w } in
      observe-IsFrozen sys k.group unique_supported runtime.groups
        (frozen_groups sys degraded d p.state) (machine sys p')
        (frozen_groups-has sys degraded d p.state k r keyed e h)

  run_pass-observed :
      (sink : Sink sys) (degraded : Degraded) (p : PassState sys) (k : RecordKey) (r : MountRecord)
      → IsKeyed p.state
      → State.get p.state k ≡ some r
      → IsDegraded degraded k.group
      → IsFrozen k.group (run_pass sys unique_supported after_discovery sink degraded p).0.observed
  unfolding run_pass
  run_pass-observed sink degraded p k r keyed e h =
      discover_and_observe-IsFrozen degraded p k r keyed e h

  -- A pass over well-formed state leaves every record of a degraded group, or of a group of a
  -- degraded set, as it was.
  pub run_pass_degraded :
      (sink : Sink sys) (degraded : Degraded) (p : PassState sys) (k : RecordKey) (r : MountRecord)
      → IsKeyed p.state
      → State.get p.state k ≡ some r
      → IsDegraded degraded k.group
      → State.get (run_pass sys unique_supported after_discovery sink degraded p).1.state k ≡ some r
  run_pass_degraded sink degraded p k r keyed e h =
      (run_pass_frozen sys unique_supported after_discovery sink degraded p k keyed
        (run_pass-observed sink degraded p k r keyed e h)).1
      ∙ e
