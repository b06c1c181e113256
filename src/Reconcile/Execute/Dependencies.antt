-- ===== src/Reconcile/Execute/Dependencies.antt =====
-- What the executor skips (src/reconcile/execute.rs).
use byssus.Base.{
  ℕ, zero, suc, ◌+◌, ◌<◌, ◌≡◌, refl, sym, ap, ◌∙◌, Bool, true, false, not, some, List, [], ◌∷◌,
  ◌++◌, any, get_elem?, length, length-append, get_elem?-append, get_elem?-length, get_elem?-lt,
  Result, ok, err, All, All-mono, arith, Text,
}
use byssus.System.{System}
use byssus.State.Laws.{IsKeyed}
use byssus.Reconcile.Types.{Action, unmount, drop_record, mount, Step, Plan, PlanInput}
use byssus.Reconcile.Execute.{
  StepResult, skipped, completed_at, blocked, into_result, Machine, Sink, run, execute_step,
  execute_rest, execute,
}
use byssus.Reconcile.Plan.{plan}
use byssus.Reconcile.Plan.Safety.{plan_dependencies}

abbrev pub is_skipped : StepResult → Bool
is_skipped skipped = true
is_skipped _ = false

-- Each result so far is still there, in its place.
abbrev Extends : List StepResult → List StepResult → Type 0
Extends xs ys = (i : ℕ) (r : StepResult) → get_elem? xs i ≡ some r → get_elem? ys i ≡ some r

any_blocked-Extends :
    (xs ys : List StepResult) (ds : List ℕ)
    → Extends xs ys
    → All (λ d. d < length xs) ds
    → any (λ d. not (completed_at ys d)) ds ≡ any (λ d. not (completed_at xs d)) ds
any_blocked-Extends xs ys [] f h = refl
any_blocked-Extends xs ys (d ∷ ds) f h =
    let (r, e) = get_elem?-lt xs d h.0 in rw (e, f d r e, any_blocked-Extends xs ys ds f h.1) refl

module _ (sys : System) (sink : Sink sys) (unique_supported : Bool) where
  into_result_runs : (r : Result Text (Unit {0})) → is_skipped (into_result sys r) ≡ false
  into_result_runs (ok u) = refl
  into_result_runs (err e) = refl

  run_result :
      (a : Action) (m : Machine sys) → is_skipped (run sys sink unique_supported a m).0 ≡ false
  unfolding run
  run_result (mount d) m = into_result_runs _
  run_result (unmount r reason) m = into_result_runs _
  run_result (drop_record r reason) m = into_result_runs _

  execute_step_result :
      (acc : List StepResult) (s : Step) (m : Machine sys)
      → is_skipped (execute_step sys sink unique_supported acc s m).0 ≡ blocked acc s
  unfolding execute_step
  execute_step_result acc s m = ground (arith, run_result s.action m)

  execute_rest-Extends :
      (acc : List StepResult) (steps : List Step) (m : Machine sys)
      → Extends acc (execute_rest sys sink unique_supported acc steps m).0
  unfolding execute_rest
  execute_rest-Extends acc [] m = λ i r e. e
  execute_rest-Extends acc (s ∷ steps) m = λ i r e.
      let (q, m') = execute_step sys sink unique_supported acc s m in
      execute_rest-Extends (acc ++ (q ∷ [])) steps m' i r (get_elem?-append acc (q ∷ []) i e)

  length-execute_rest :
      (acc : List StepResult) (steps : List Step) (m : Machine sys)
      → length (execute_rest sys sink unique_supported acc steps m).0 ≡ length acc + length steps
  unfolding execute_rest
  length-execute_rest acc [] m = omega arith
  length-execute_rest acc (s ∷ steps) m =
      let (q, m') = execute_step sys sink unique_supported acc s m in
      omega (arith, length-execute_rest (acc ++ (q ∷ [])) steps m', length-append acc (q ∷ []))

  execute_rest_result :
      (acc : List StepResult) (steps : List Step) (m : Machine sys)
      → ((i : ℕ) (s : Step)
          → get_elem? steps i ≡ some s
          → All (λ d. d < length acc + i) s.depends_on)
      → (i : ℕ) (s : Step) (r : StepResult) → get_elem? steps i ≡ some s
      → get_elem? (execute_rest sys sink unique_supported acc steps m).0 (length acc + i) ≡ some r
      → is_skipped r ≡ blocked (execute_rest sys sink unique_supported acc steps m).0 s
  unfolding execute_rest
  execute_rest_result acc [] m h i s r e f = absurd (ground arith)
  execute_rest_result acc (t ∷ steps) m h zero s r e f =
      let (q, m') = execute_step sys sink unique_supported acc t m in
      let final = (execute_rest sys sink unique_supported (acc ++ (q ∷ [])) steps m').0 in
      let grown = execute_rest-Extends (acc ++ (q ∷ [])) steps m' in
      let here = grown (length acc) q (get_elem?-length acc [] q) in
      let i : length acc + 0 ≡ length acc = omega arith in
      let g : get_elem? final (length acc) ≡ some r = ap (get_elem? final) (sym i) ∙ f in
      let u : q ≡ r = ground (arith, here, g) in
      let v : t ≡ s = ground arith in
      let deps : All (λ d. d < length acc) t.depends_on =
        All-mono (λ d. d < length acc + 0) (λ d. d < length acc) t.depends_on (λ d k. omega arith)
          (h 0 t refl) in
      rw (sym u, sym v)
        (execute_step_result acc t m
          ∙ sym (
              any_blocked-Extends acc final t.depends_on
                (λ j a x. grown j a (get_elem?-append acc (q ∷ []) j x)) deps))
  execute_rest_result acc (t ∷ steps) m h (suc i) s r e f =
      let (q, m') = execute_step sys sink unique_supported acc t m in
      let final = (execute_rest sys sink unique_supported (acc ++ (q ∷ [])) steps m').0 in
      let n : length (acc ++ (q ∷ [])) ≡ length acc + 1 = length-append acc (q ∷ []) in
      let j : length (acc ++ (q ∷ [])) + i ≡ length acc + suc i = omega (arith, n) in
      execute_rest_result (acc ++ (q ∷ [])) steps m'
        (λ k u x.
          All-mono (λ d. d < length acc + suc k) (λ d. d < length (acc ++ (q ∷ [])) + k)
            u.depends_on (λ d y. omega (arith, n)) (h (suc k) u x))
        i s r e (ap (get_elem? final) j ∙ f)

  -- If every step waits only for earlier ones, then there is a result for each step, and a step is
  -- skipped if and only if some step that it waits for did not complete.
  pub execute_dependencies :
      (p : Plan) (m : Machine sys)
      → ((i : ℕ) (s : Step) → get_elem? p.steps i ≡ some s → All (λ d. d < i) s.depends_on)
      → (length (execute sys sink unique_supported p m).0 ≡ length p.steps)
        × ((i : ℕ) (s : Step) (r : StepResult)
            → get_elem? p.steps i ≡ some s
            → get_elem? (execute sys sink unique_supported p m).0 i ≡ some r
            → is_skipped r ≡ blocked (execute sys sink unique_supported p m).0 s)
  unfolding execute
  execute_dependencies p m h = (
    omega (arith, length-execute_rest [] p.steps m),
    λ i s r e f.
        let z : 0 + i ≡ i = omega arith in
        execute_rest_result [] p.steps m
          (λ j u x.
            All-mono (λ d. d < j) (λ d. d < 0 + j) u.depends_on (λ d k. omega arith) (h j u x))
          i s r e (ap (get_elem? (execute_rest sys sink unique_supported [] p.steps m).0) z ∙ f),
  )

  -- Of the planner's plans, the executor skips exactly the steps that wait for a step that did not
  -- complete, and every step has a result, if the state is well-formed.
  pub execute-plan :
      (input : PlanInput) (m : Machine sys)
      → IsKeyed input.state
      → (length (execute sys sink unique_supported (plan input) m).0 ≡ length (plan input).steps)
        × ((i : ℕ) (s : Step) (r : StepResult)
            → get_elem? (plan input).steps i ≡ some s
            → get_elem? (execute sys sink unique_supported (plan input) m).0 i ≡ some r
            → is_skipped r ≡ blocked (execute sys sink unique_supported (plan input) m).0 s)
  execute-plan input m h =
      execute_dependencies (plan input) m (λ i s e.
        All-mono _ (λ d. d < i) s.depends_on (λ d k. k.0) (plan_dependencies input h i s e))
