-- ===== src/Reconcile/Execute/Effects.antt =====
-- What steps and whole plans do (src/reconcile/execute.rs).
use mathlib.Core.Path.{subst}
use byssus.Base.{
  if◌then◌else◌, ◌≡◌, ◌≢◌, refl, ◌∙◌, ap, inl, inr, none, some, ◌⊎◌, Bool, true, false, List, [],
  ◌∷◌, ◌++◌, Result, ok, err, All, Text,
}
use byssus.Base.Map
use byssus.System.{System}
use byssus.State
use byssus.State.{State, key_ord, MountRecord, RecordKey, key}
use byssus.State.Laws.{IsKeyed, insert-get, remove-get, insert-IsKeyed, remove-IsKeyed}
use byssus.Reconcile.Types.{
  UnmountReason, DropReason, DesiredMount, Action, unmount, drop_record, mount, Step, Plan,
}
use byssus.Reconcile.Execute.{
  blocked, into_result, StepResult, done, skipped, failed, Machine, Sink, try_mount, forget,
  try_unmount, run, execute_step, execute_rest, execute,
}
use byssus.Reconcile.Execute.StateLaws.{IsMounted, try_mount_lem}
use byssus.Reconcile.Execute.Made.{IsMade, try_mount_ok}
use byssus.Reconcile.Execute.Gone.{
  IsForgotten, IsDropped, IsDetached, IsGone, IsLeft, forget_lem, forget_ok, try_unmount_ok,
  try_unmount-IsLeft,
}

-- The member that an action is about.
abbrev pub action_key : Action → RecordKey
action_key (mount d) = d.key
action_key (unmount r reason) = key r
action_key (drop_record r reason) = key r

module _ (sys : System) (sink : Sink sys) (unique_supported : Bool) where
  -- The mount was made and its record is the member's, or the state is as it was if it was
  -- well-formed.
  abbrev IsMountRun : DesiredMount → Machine sys → Result Text (Unit {0}) → Machine sys → Type 0
  IsMountRun d m (ok u) m' =
      (e : IsMade sys sink unique_supported d m m') × (State.get m'.state d.key ≡ some e.made)
  IsMountRun d m (err e) m' = IsKeyed m.state → m'.state ≡ m.state

  -- The record was taken out of the state, and the member has none.
  abbrev IsTaken : MountRecord → Machine sys → Machine sys → Type 0
  IsTaken r m m' =
      IsForgotten sys sink unique_supported r m.state m'.state × (State.get m'.state (key r) ≡ none)

  -- The mount was removed, verified, and so was the record; or the step failed before and the state is
  -- as it was.
  abbrev IsUnmountRun : MountRecord → Machine sys → Result Text (Unit {0}) → Machine sys → Type 0
  IsUnmountRun r m (ok u) m' = IsGone sys sink unique_supported r m m' × IsTaken r m m'
  IsUnmountRun r m (err e) m' =
      (m'.state ≡ m.state)
      ⊎ ((unmounted : sys.World) × IsDetached sys sink unique_supported r m unmounted
          × IsTaken r m m')

  abbrev IsDropRun : MountRecord → Machine sys → Result Text (Unit {0}) → Machine sys → Type 0
  IsDropRun r m (ok u) m' = IsDropped sys sink unique_supported r m m' × IsTaken r m m'
  IsDropRun r m (err e) m' = IsTaken r m m'

  -- What a step with this result did.
  abbrev pub IsEffect : Action → Machine sys → StepResult → Machine sys → Type 0
  IsEffect a m skipped m' = m' ≡ m
  IsEffect (mount d) m done m' = IsMountRun d m (ok tt) m'
  IsEffect (mount d) m (failed e) m' = IsMountRun d m (err e) m'
  IsEffect (unmount r reason) m done m' = IsUnmountRun r m (ok tt) m'
  IsEffect (unmount r reason) m (failed e) m' = IsUnmountRun r m (err e) m'
  IsEffect (drop_record r reason) m done m' = IsDropRun r m (ok tt) m'
  IsEffect (drop_record r reason) m (failed e) m' = IsDropRun r m (err e) m'

  made-get :
      (d : DesiredMount) (m m' : Machine sys) (e : IsMade sys sink unique_supported d m m')
      → State.get m'.state d.key ≡ some e.made
  made-get d m m' e =
      subst (λ k. State.get m'.state k ≡ some e.made) e.of_member
        (ap (λ s. State.get s (key e.made)) e.recorded_as ∙ insert-get m.state e.made)

  forgotten-IsTaken :
      (r : MountRecord) (m m' : Machine sys)
      → IsForgotten sys sink unique_supported r m.state m'.state
      → IsTaken r m m'
  forgotten-IsTaken r m m' e = (e, ap (λ s. State.get s (key r)) e ∙ remove-get m.state (key r))

  left-IsUnmountRun :
      (r : MountRecord) (m m' : Machine sys) (e : Text)
      → IsLeft sys sink unique_supported r m m'
      → IsUnmountRun r m (err e) m'
  left-IsUnmountRun r m m' e (inl same) = inl same
  left-IsUnmountRun r m m' e (inr (w, d, gone)) = inr (w, d, forgotten-IsTaken r m m' gone)

  mount-IsEffect :
      (d : DesiredMount) (m m' : Machine sys) (res : Result Text (Unit {0}))
      → try_mount sys sink unique_supported d m ≡ (res, m')
      → IsEffect (mount d) m (into_result sys res) m'
  mount-IsEffect d m m' (ok u) h =
      let made = try_mount_ok sys sink unique_supported d m m' h in (made, made-get d m m' made)
  mount-IsEffect d m m' (err e) h =
      subst (λ p. IsMounted sys d m.state p.0 p.1.state) h
        (try_mount_lem sys sink unique_supported d m)

  unmount-IsEffect :
      (r : MountRecord) (reason : UnmountReason) (m m' : Machine sys) (res : Result Text (Unit {0}))
      → try_unmount sys sink unique_supported r m ≡ (res, m')
      → IsEffect (unmount r reason) m (into_result sys res) m'
  unmount-IsEffect r reason m m' (ok u) h =
      let (w, w', d, e, saved) = try_unmount_ok sys sink unique_supported r m m' h in
      ((w, w', d, e, saved), forgotten-IsTaken r m m' e)
  unmount-IsEffect r reason m m' (err e) h = left-IsUnmountRun r m m' e (
      subst (λ p. IsLeft sys sink unique_supported r m p.1) h
        (try_unmount-IsLeft sys sink unique_supported r m))

  drop-IsEffect :
      (r : MountRecord) (reason : DropReason) (m m' : Machine sys) (res : Result Text (Unit {0}))
      → forget sys sink unique_supported r m ≡ (res, m')
      → IsEffect (drop_record r reason) m (into_result sys res) m'
  drop-IsEffect r reason m m' (ok u) h =
      let dropped = forget_ok sys sink unique_supported r m m' h in
      (dropped, forgotten-IsTaken r m m' dropped.0)
  drop-IsEffect r reason m m' (err e) h = forgotten-IsTaken r m m' (
      subst (λ p. IsForgotten sys sink unique_supported r m.state p.1.state) h
        (forget_lem sys sink unique_supported r m))

  run-IsEffect :
      (a : Action) (m : Machine sys)
      → IsEffect a m (run sys sink unique_supported a m).0 (run sys sink unique_supported a m).1
  unfolding run
  run-IsEffect (mount d) m =
      mount-IsEffect d m (try_mount sys sink unique_supported d m).1
        (try_mount sys sink unique_supported d m).0 refl
  run-IsEffect (unmount r reason) m =
      unmount-IsEffect r reason m (try_unmount sys sink unique_supported r m).1
        (try_unmount sys sink unique_supported r m).0 refl
  run-IsEffect (drop_record r reason) m =
      drop-IsEffect r reason m (forget sys sink unique_supported r m).1
        (forget sys sink unique_supported r m).0 refl

  step-IsEffect :
      (a : Action) (m : Machine sys) (b : Bool)
      → IsEffect a m
          (if b then (skipped, m) else run sys sink unique_supported a m).0
          (if b then (skipped, m) else run sys sink unique_supported a m).1
  step-IsEffect a m true = refl
  step-IsEffect a m false = run-IsEffect a m

  -- A completed mount step opened the source and the target, found no mount at the target, cloned the
  -- source's tree, restricted the clone and moved it to the target; the member's record in the state has
  -- the desired locations and attributes and the identity that the kernel then reported of that tree,
  -- and this state was written. A completed unmount step removed the mount of the record, verified, took
  -- the record out of the state, where the member then has none, and wrote this state; a completed step
  -- that drops a record took it out in the same way and wrote the state. A mount step that fails leaves
  -- the state in memory as it was, if it was well-formed; an unmount step that fails leaves it as it was,
  -- or has removed the mount, verified, and the record; a failing step that drops a record leaves the
  -- state without it. A step that is skipped changes nothing at all.
  pub execute_step-IsEffect :
      (results : List StepResult) (s : Step) (m : Machine sys)
      → IsEffect s.action m
          (execute_step sys sink unique_supported results s m).0
          (execute_step sys sink unique_supported results s m).1
  unfolding execute_step
  execute_step-IsEffect results s m = step-IsEffect s.action m (blocked results s)

  -- Well-formed, with the same record of the member.
  abbrev SameAt : RecordKey → State → State → Type 0
  SameAt k s s' = IsKeyed s' × (State.get s' k ≡ State.get s k)

  insert_same :
      (s : State) (r : MountRecord) (k : RecordKey)
      → IsKeyed s
      → k ≢ key r
      → SameAt k s (State.insert s r).0
  unfolding State.get State.insert
  insert_same s r k h n = (insert-IsKeyed s r h, Map.get-insert_ne (key r) k r s.entries n)

  remove_same : (s : State) (j k : RecordKey) → IsKeyed s → k ≢ j → SameAt k s (State.remove s j).0
  unfolding State.get State.remove
  remove_same s j k h n = (remove-IsKeyed s j h, Map.get-remove_ne j k s.entries n)

  forgotten_same :
      (s s' : State) (r : MountRecord) (k : RecordKey)
      → IsKeyed s
      → k ≢ key r
      → s' ≡ (State.remove s (key r)).0
      → SameAt k s s'
  forgotten_same s s' r k h n e = rw e (remove_same s (key r) k h n)

  effect_same :
      (k : RecordKey) (a : Action) (m : Machine sys) (res : StepResult) (m' : Machine sys)
      → IsKeyed m.state
      → k ≢ action_key a
      → IsEffect a m res m'
      → SameAt k m.state m'.state
  effect_same k a m skipped m' h n e = rw e (h, refl)
  effect_same k (mount d) m done m' h n (e, found) =
      let other : k ≢ key e.made = λ same. n (same ∙ e.of_member) in
      rw (e.recorded_as) (insert_same m.state e.made k h other)
  effect_same k (mount d) m (failed x) m' h n e = rw (e h) (h, refl)
  effect_same k (unmount r reason) m done m' h n (gone, (e, found)) =
      forgotten_same m.state m'.state r k h n e
  effect_same k (unmount r reason) m (failed x) m' h n (inl e) = rw e (h, refl)
  effect_same k (unmount r reason) m (failed x) m' h n (inr (w, d, (e, found))) =
      forgotten_same m.state m'.state r k h n e
  effect_same k (drop_record r reason) m done m' h n (dropped, (e, found)) =
      forgotten_same m.state m'.state r k h n e
  effect_same k (drop_record r reason) m (failed x) m' h n (e, found) =
      forgotten_same m.state m'.state r k h n e

  execute_rest_same :
      (k : RecordKey) (results : List StepResult) (steps : List Step) (m : Machine sys)
      → IsKeyed m.state
      → All (λ s. k ≢ action_key s.action) steps
      → SameAt k m.state (execute_rest sys sink unique_supported results steps m).1.state
  unfolding execute_rest
  execute_rest_same k results [] m h n = (h, refl)
  execute_rest_same k results (s ∷ steps) m h n =
      let (r, m') = execute_step sys sink unique_supported results s m in
      let one = effect_same k s.action m r m' h n.0 (execute_step-IsEffect results s m) in
      let rest = execute_rest_same k (results ++ (r ∷ [])) steps m' one.0 n.1 in
      (rest.0, rest.1 ∙ one.1)

  -- Executing a plan keeps the state well-formed, and keeps the record of every member that no step
  -- of the plan is about.
  pub execute_frame :
      (k : RecordKey) (p : Plan) (m : Machine sys)
      → IsKeyed m.state
      → All (λ s. k ≢ action_key s.action) p.steps
      → IsKeyed (execute sys sink unique_supported p m).1.state
        × (State.get (execute sys sink unique_supported p m).1.state k ≡ State.get m.state k)
  unfolding execute
  execute_frame k p m h n = execute_rest_same k [] p.steps m h n
