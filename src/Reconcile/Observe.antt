-- ===== src/Reconcile/Observe.antt =====
-- Gathering the desired mounts and what the kernel says (src/reconcile/observe.rs).
pub mod Frozen
use byssus.Base.{
  Bool, true, false, not, Option, none, some, List, [], ◌∷◌, ◌++◌, map, keep, is_empty, contains,
  if◌then◌else◌, Result, ok, err, Text, text,
}
use byssus.Base.Exec.{Exec}
use byssus.Base.Map
use byssus.Base.Map.{Map}
use byssus.Base.Set
use byssus.Name.{Name, GroupId, name_ord, group_ord, group_eq}
use byssus.Config.{AbsPath, path_text, abs_path_ord}
use byssus.Config.Groups.{GroupConfig}
use byssus.Identity.{DevIno}
use byssus.Membership.{Membership, Rejection}
use byssus.Template.{Template, InterpolateError}
use byssus.Template.Interpolation.{interpolate}
use byssus.State
use byssus.State.{State, RecordKey, MountRecord, key_ord}
use byssus.System.{System, IoError}
use byssus.Fsops.{Io, is_deleted, scan_membership, resolve_dir, dev_ino}
use byssus.Mount.{io_message, inspect}
use byssus.Runtime.{Runtime, GroupRuntime}
use byssus.Runtime.Scan.{or_false}
use byssus.Reconcile.Types.{
  Location, location_ord, location_text, target_location, DesiredMount, SourceState, TargetState,
  Observations,
}
use byssus.Reconcile.Notes.{
  Note, rejected, interpolation_failed, membership_deleted, membership_unreadable, Observed,
}
use byssus.Reconcile.Execute.{Machine, root_of}

abbrev pub default_observed : Observed
default_observed = record {
  desired = [];
  observations = record { sources = []; targets = [] };
  frozen = [];
  members = [];
  scanned_sets = [];
  ignored = [];
  notes = [];
}

abbrev pub freeze : GroupId → Note → Observed → Observed
freeze group note o = record o {
  frozen = Set.insert group o.frozen;
  notes = o.notes ++ (note ∷ []);
}

abbrev pub desired_mount : GroupId → GroupConfig → Name → Text → Text → DesiredMount
desired_mount group cfg name source target = record {
  key = record { group = group; name = name };
  source = record { root = cfg.source_root; path = source };
  target = record { root = cfg.target_root; path = target };
  attrs = cfg.attrs;
}

module _ (group : GroupId) (cfg : GroupConfig) where
  -- The source's error goes first.
  abbrev pub desire :
      Name → Result InterpolateError Text → Result InterpolateError Text → Observed → Observed
  desire name (ok source) (ok target) o = record o {
    desired = o.desired ++ (desired_mount group cfg name source target ∷ []);
  }
  desire name (err e) target o = record o {
    notes = o.notes ++ (interpolation_failed group name (text "source") e ∷ []);
  }
  desire name (ok source) (err e) o = record o {
    notes = o.notes ++ (interpolation_failed group name (text "target") e ∷ []);
  }

  unfoldable pub desire_all : List Name → Observed → Observed
  unfolding interpolate
  desire_all [] o = o
  desire_all (name ∷ names) o =
      desire_all names (desire name (interpolate cfg.source name) (interpolate cfg.target name) o)

  abbrev pub note_ignored : List Text → Observed → Observed
  note_ignored names o =
      if is_empty names then o else record o { ignored = Map.insert group names o.ignored }

  -- A membership directory that was read.
  unfoldable pub observe_members : Membership → Observed → Observed
  unfolding desire_all
  observe_members m o =
      let noted = note_ignored m.ignored o in
      let told : Observed = record noted {
        notes = noted.notes ++ map (rejected group) m.rejected;
      } in
      let desired = desire_all (Map.keys m.members) told in
      record desired { members = Map.insert group m.members desired.members }

module _ (sys : System) where
  open sys use {World, Fd, Errno}

  abbrev pub read_members :
      GroupId → GroupConfig → Result (IoError Errno) Membership → Observed → Observed
  read_members group cfg (ok m) o = observe_members group cfg m o
  read_members group cfg (err e) o = freeze group (membership_unreadable group (io_message sys e)) o

  unfoldable pub observe_group : GroupId → GroupRuntime sys → Observed × World → Observed × World
  unfolding is_deleted scan_membership observe_members
  observe_group group g (o, w) =
      let (deleted, w') = is_deleted sys g.membership_dir w in
      let (r, w'') = scan_membership sys g.membership_dir w' in
      if or_false sys deleted
      then (freeze group (membership_deleted group) o, w')
      else (read_members group g.config r o, w'')

  -- The groups that are left; degraded ones are not looked at.
  unfoldable pub observe_groups :
      List GroupId → Map GroupId (GroupRuntime sys) → Observed × World → Observed × World
  unfolding observe_group
  observe_groups degraded [] s = s
  observe_groups degraded ((group, g) ∷ groups) s =
      if contains degraded group
      then observe_groups degraded groups s
      else observe_groups degraded groups (observe_group group g s)

module _ (sys : System) (unique_supported : Bool) where
  open sys use {World, Fd, Errno}

  abbrev pub resolved_at : Location → Result (IoError Errno) DevIno → SourceState
  resolved_at l (ok id) = SourceState.resolved id
  resolved_at l (err e) =
      SourceState.unavailable (location_text l ++ (text ": " ++ io_message sys e))

  abbrev pub opened_source : Location → Result (IoError Errno) Fd → World → SourceState × World
  opened_source l (ok fd) w = let (r, w') = dev_ino sys fd w in (resolved_at l r, w')
  opened_source l (err e) w = (resolved_at l (err e), w)

  abbrev pub source_found : Location → Result Text Fd × Machine sys → SourceState × Machine sys
  source_found l (ok root, m) =
      let (r, w) = resolve_dir sys root l.path m.world in
      let (s, w') = opened_source l r w in (s, record m { world = w' })
  source_found l (err e, m) =
      (SourceState.unavailable (text "source root " ++ (path_text l.root ++ (text ": " ++ e))), m)

  -- What a source is.
  unfoldable pub observe_source : Location → Machine sys → SourceState × Machine sys
  unfolding root_of resolve_dir dev_ino
  observe_source l m = source_found l (root_of sys l.root m)

  unfoldable pub observe_sources :
      List DesiredMount
      → Map RecordKey SourceState × Machine sys
      → Map RecordKey SourceState × Machine sys
  unfolding observe_source
  observe_sources [] s = s
  observe_sources (d ∷ desired) (sources, m) =
      let (state, m') = observe_source d.source m in
      observe_sources desired (Map.insert d.key state sources, m')

  abbrev pub target_found : Location → Result Text Fd × Machine sys → TargetState × Machine sys
  target_found l (ok root, m) =
      let (t, w) = inspect sys root l.path unique_supported m.world in (t, record m { world = w })
  target_found l (err e, m) =
      (TargetState.unavailable (text "target root " ++ (path_text l.root ++ (text ": " ++ e))), m)

  -- What is at a target.
  unfoldable pub observe_target : Location → Machine sys → TargetState × Machine sys
  unfolding root_of inspect
  observe_target l m = target_found l (root_of sys l.root m)

  unfoldable pub observe_targets :
      List Location
      → Map Location TargetState × Machine sys
      → Map Location TargetState × Machine sys
  unfolding observe_target
  observe_targets [] s = s
  observe_targets (l ∷ ls) (targets, m) =
      let (state, m') = observe_target l m in observe_targets ls (Map.insert l state targets, m')

  -- The targets of desired mounts, and of the records of groups that are not frozen.
  abbrev pub targets_of : State → Observed → List Location
  targets_of s o =
      Set.extend (Set.extend [] (map (λ d. d.target) o.desired))
        (map target_location (keep (λ r. not (contains o.frozen r.group)) (State.records s)))

  unfoldable pub observe_kernel : Observed → Machine sys → Observed × Machine sys
  unfolding observe_sources observe_targets State.records
  observe_kernel o m =
      let (sources, m') = observe_sources o.desired (o.observations.sources, m) in
      let (targets, m'') = observe_targets (targets_of m.state o) (o.observations.targets, m') in
      (record o { observations = record { sources = sources; targets = targets } }, m'')

  -- The groups, then the kernel.
  unfoldable pub observe :
      Map GroupId (GroupRuntime sys) → List GroupId → Machine sys → Observed × Machine sys
  unfolding observe_groups observe_kernel
  observe groups degraded m =
      let (o, w) =
        observe_groups sys degraded groups
          (record default_observed { frozen = degraded }, m.world) in
      observe_kernel o (record m { world = w })
