-- ===== src/Reconcile/Execute.antt =====
-- Executing a plan against the kernel and the state file (src/reconcile/execute.rs, and the cache of
-- root descriptors, `Roots` of src/runtime.rs).
pub mod Tests
pub mod Dependencies
pub mod StateLaws
pub mod Success
pub mod Made
pub mod Gone
pub mod Effects
use byssus.Base.{
  ℕ, ◌+◌, ◌/◌, ◌%◌, ltb, Bool, true, false, not, Option, none, some, List, [], ◌∷◌, ◌++◌, any,
  get_elem?, decimal, if◌then◌else◌, Result, ok, err, Text, text, slash, split, join, is_empty,
  ◌==◌, nat_eq, list_eq,
}
use byssus.Base.Exec.{Exec, ◌>>=◌, ◌>>◌, pure, lift, raise, attempt}
use byssus.Base.Map
use byssus.Base.Map.{Map}
use byssus.Config.{AbsPath, abs_path_ord}
use byssus.Identity.{MountIdentity}
use byssus.State
use byssus.State.{State, MountRecord, RecordKey, Timestamp, identity, attrs, key}
use byssus.System.{System, IoError}
use byssus.Fsops.{open_root, resolve_dir, ensure_dirs_beneath, remove_empty_dir}
use byssus.Mount.{
  VerifiedOpError, nothing_mounted, identity_mismatch, io, io_message, is_mount_root, create_bind,
  unmount_verified,
}
use byssus.Reconcile.Types.{
  Location, location_text, target_location, DesiredMount, Action, unmount, drop_record, mount, Step,
  Plan,
}

pub data StepResult : Type 0 where
  done : StepResult
  skipped : StepResult
  failed : Text → StepResult

abbrev pub is_done : StepResult → Bool
is_done done = true
is_done _ = false

abbrev is_failed : StepResult → Bool
is_failed (failed e) = true
is_failed _ = false

-- The number of failed steps.
unfoldable pub failures : List StepResult → ℕ
failures [] = 0
failures (r ∷ rs) = (if is_failed r then 1 else 0) + failures rs

-- The number of completed steps.
unfoldable pub completed : List StepResult → ℕ
completed [] = 0
completed (r ∷ rs) = (if is_done r then 1 else 0) + completed rs

abbrev is_completed : Option StepResult → Bool
is_completed none = false
is_completed (some r) = is_done r

-- `results.get(d) == Some(&StepResult::Done)`
abbrev pub completed_at : List StepResult → ℕ → Bool
completed_at results d = is_completed (get_elem? results d)

-- Some dependency did not complete.
abbrev pub blocked : List StepResult → Step → Bool
blocked results s = any (λ d. not (completed_at results d)) s.depends_on

-- `rsplit_once('/')`, with the text itself as the leaf if it has no slash.
abbrev rsplit_slash : Text → Option Text × Text
rsplit_slash [] = (none, [])
rsplit_slash (c ∷ s) =
    let (parent, leaf) = rsplit_slash s in
    elim parent [
      | some p ↦ (some (c ∷ p), leaf)
      | none ↦ if c == slash then (some [], leaf) else (none, c ∷ leaf)
    ]

module _ (sys : System) where
  open sys use {World, Fd, Errno}

  -- Where the state is persisted, and the clock.
  pub record Sink : Type 0 where
    pub save : State → Exec World (IoError Errno) (Unit {0})
    pub now : World → Timestamp

  -- What an executor changes.
  pub record Machine : Type 0 where
    pub world : World
    pub roots : Map AbsPath Fd
    pub state : State

  abbrev pub Run : Type 0 → Type 0
  Run A = Exec Machine Text A

  abbrev pub called :
      {E A : Type 0} → (E → Text) → Machine → Result E A → World → Result Text A × Machine
  called message m (ok a) w = (ok a, record m { world = w })
  called message m (err e) w = (err (message e), record m { world = w })

  abbrev pub in_world : {E A : Type 0} → (E → Text) → Exec World E A → Run A
  in_world message call m = let (r, w) = call m.world in called message m r w

  abbrev verified_message : VerifiedOpError Errno → Text
  verified_message nothing_mounted = text "nothing is mounted at the target"
  verified_message (identity_mismatch found) =
      text "the mount at the target is not the recorded mount (found mount ID "
      ++ (decimal found ++ text ")")
  verified_message (io e) = io_message sys e

  abbrev pub refusal : VerifiedOpError Errno → Text
  refusal (io e) = io_message sys e
  refusal e = text "refusing to unmount: " ++ verified_message e

  abbrev pub cached : AbsPath → Option Fd → Run Fd
  cached root (some fd) = pure fd
  cached root none = do
    fd ← in_world (io_message sys) (open_root sys root)
    u ← (λ m. (ok tt, record m { roots = Map.insert root fd m.roots }))
    pure fd

  -- `Roots::get`: a root that is not open is opened, and a failure is not remembered.
  unfoldable pub root_of : AbsPath → Run Fd
  unfolding open_root
  root_of root m = cached root (Map.get root m.roots) m

  abbrev pub at : Text → Location → IoError Errno → Text
  at what l e = what ++ (text " " ++ (location_text l ++ (text ": " ++ io_message sys e)))

  -- The record of a mount that was created.
  abbrev pub new_record : DesiredMount → MountIdentity → Timestamp → MountRecord
  new_record d id now = record {
    group = d.key.group;
    name = d.key.name;
    source_root = d.source.root;
    source = d.source.path;
    target_root = d.target.root;
    target = d.target.path;
    mnt_id = id.mnt_id;
    mnt_id_unique = id.mnt_id_unique;
    root_dev_major = id.root.dev_major;
    root_dev_minor = id.root.dev_minor;
    root_ino = id.root.ino;
    read_only = d.attrs.read_only;
    noexec = d.attrs.noexec;
    nosymfollow = d.attrs.nosymfollow;
    created_at = now;
  }

  -- The state as it was before the record of the member was inserted.
  unfoldable pub restore : RecordKey → Option MountRecord → State → State
  unfolding State.insert State.remove
  restore k (some previous) s = (State.insert s previous).0
  restore k none s = (State.remove s k).0

  abbrev set_state : State → Run (Unit {0})
  set_state s m = (ok tt, record m { state = s })

  abbrev rolled_back : Text → Result (VerifiedOpError Errno) (Unit {0}) → Text
  rolled_back save_error (ok u) = save_error ++ text "; mount rolled back"
  rolled_back save_error (err e) =
      save_error ++ (text "; rollback unmount also failed: " ++ verified_message e)

  abbrev pub into_result : Result Text (Unit {0}) → StepResult
  into_result (ok u) = done
  into_result (err e) = failed e

  module _ (sink : Sink) (unique_supported : Bool) where
    unfoldable pub persist : Run (Unit {0})
    persist m =
        in_world (λ e. text "cannot write state file: " ++ io_message sys e) (sink.save m.state) m

    -- A mount that cannot be recorded is never left behind.
    unfoldable pub roll_back :
        DesiredMount → MountIdentity → Option MountRecord → Text → Run (Unit {0})
    unfolding restore root_of unmount_verified
    roll_back d id previous save_error m =
        (do
          u ← set_state (restore d.key previous m.state)
          root ← root_of d.target.root
          r ←
              in_world (io_message sys)
                (attempt (unmount_verified sys root d.target.path id unique_supported))
          raise (rolled_back save_error r))
          m

    abbrev pub recorded :
        DesiredMount → MountIdentity → Option MountRecord → Result Text (Unit {0}) → Run (Unit {0})
    recorded d id previous (ok u) = pure tt
    recorded d id previous (err e) = roll_back d id previous e

    unfoldable pub record_mount : DesiredMount → MountIdentity → Run (Unit {0})
    unfolding persist roll_back State.insert
    record_mount d id m =
        let (state, previous) = State.insert m.state (new_record d id (sink.now m.world)) in
        (do u ← set_state state; saved ← attempt persist; recorded d id previous saved) m

    abbrev pub create : DesiredMount → Fd → Fd → Bool → Run (Unit {0})
    create d source target true =
        raise
          (text "target " ++ (location_text d.target ++ text " became occupied by another mount"))
    create d source target false = do
      id ← in_world (io_message sys) (create_bind sys source target d.attrs unique_supported)
      record_mount d id

    -- Resolved again, so that confinement is checked at use.
    unfoldable pub open_source : DesiredMount → Run Fd
    unfolding root_of resolve_dir
    open_source d = do
      root ← root_of d.source.root
      in_world (at (text "source") d.source) (resolve_dir sys root d.source.path)

    unfoldable pub open_target : DesiredMount → Run Fd
    unfolding root_of ensure_dirs_beneath
    open_target d = do
      root ← root_of d.target.root
      in_world (at (text "target") d.target)
          (ensure_dirs_beneath sys root (split slash d.target.path))

    unfoldable pub try_mount : DesiredMount → Run (Unit {0})
    unfolding open_source open_target is_mount_root create_bind record_mount
    try_mount d = do
      source ← open_source d
      target ← open_target d
      occupied ← in_world (at (text "target") d.target) (is_mount_root sys target)
      create d source target occupied

    -- What the attempt to remove the directory comes to is only logged.
    unfoldable pub remove_target_dir : Location → Run (Unit {0})
    unfolding root_of remove_empty_dir
    remove_target_dir target m =
        let (parent, leaf) = rsplit_slash target.path in
        (do
          r ← attempt (do
            root ← root_of target.root
            in_world (io_message sys) (remove_empty_dir sys root parent leaf))
          pure tt)
          m

    unfoldable pub forget : MountRecord → Run (Unit {0})
    unfolding persist State.remove
    forget r m = (set_state (State.remove m.state (key r)).0 >> persist) m

    unfoldable pub try_unmount : MountRecord → Run (Unit {0})
    unfolding root_of unmount_verified remove_target_dir forget
    try_unmount r = do
      root ← root_of r.target_root
      u ← in_world refusal (unmount_verified sys root r.target (identity r) unique_supported)
      persisted ← attempt (forget r)
      v ← remove_target_dir (target_location r)
      lift persisted

    unfoldable pub run : Action → Machine → StepResult × Machine
    unfolding try_mount try_unmount forget
    run (mount d) m = let (r, m') = try_mount d m in (into_result r, m')
    run (unmount r reason) m = let (res, m') = try_unmount r m in (into_result res, m')
    run (drop_record r reason) m = let (res, m') = forget r m in (into_result res, m')

    -- One step, after those with these results.
    unfoldable pub execute_step : List StepResult → Step → Machine → StepResult × Machine
    unfolding run
    execute_step results s m = if blocked results s then (skipped, m) else run s.action m

    unfoldable pub execute_rest : List StepResult → List Step → Machine → List StepResult × Machine
    unfolding execute_step
    execute_rest results [] m = (results, m)
    execute_rest results (s ∷ steps) m =
        let (r, m') = execute_step results s m in execute_rest (results ++ (r ∷ [])) steps m'

    unfoldable pub execute : Plan → Machine → List StepResult × Machine
    unfolding execute_rest
    execute plan m = execute_rest [] plan.steps m
