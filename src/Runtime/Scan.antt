-- ===== src/Runtime/Scan.antt =====
-- Finding the groups of a set in its membership root (src/runtime.rs).
use byssus.Base.{
  ℕ, zero, suc, Bool, false, Option, none, some, List, [], ◌∷◌, ◌++◌, length, ltb, get_or, is_empty,
  not, ◌&&◌, if◌then◌else◌, Result, ok, err, map_err, Text, text, slash, dot, join, ◌==◌, nat_eq,
}
use byssus.Base.Exec.{Exec, ◌>>=◌, raise, lift, attempt}
use byssus.Base.Map
use byssus.Base.Map.{Map}
use byssus.Base.Set
use byssus.Name.{Name, GroupId, name_ord, group_ord, in_set, strs, from_bytes}
use byssus.Config.{AbsPath}
use byssus.Config.Groups.{GroupConfig, join_names, group}
use byssus.Membership.{
  EntryKind, RejectReason, invalid_name, not_directory, inaccessible, display_bytes,
}
use byssus.System.{System, FileType, EntryStat, IoError, os, other}
use byssus.Fsops.{is_deleted}
use byssus.Mount.{io_message}
use byssus.Template.{InterpolateError}
use byssus.Reconcile.Messages.{interpolation_message}
use byssus.Reconcile.Notes.{
  Note, set_entry_rejected, membership_unreadable, set_root_deleted, set_root_unreadable,
}
use byssus.Runtime.{Runtime, SetRuntime, SetScan, Discovery, GroupRuntime, empty_scan, is_static}

-- What stands in a root in the place of a directory.
abbrev other_kind : FileType → EntryKind
other_kind FileType.regular_file = EntryKind.regular 0
other_kind FileType.directory = EntryKind.unknown
other_kind FileType.symlink = EntryKind.symlink
other_kind FileType.fifo = EntryKind.fifo
other_kind FileType.socket = EntryKind.socket
other_kind FileType.character_device = EntryKind.char_device
other_kind FileType.block_device = EntryKind.block_device
other_kind FileType.unknown = EntryKind.unknown

abbrev of_type : Name → FileType → Result RejectReason (Option Name)
of_type name FileType.directory = ok (some name)
of_type name kind = err (not_directory (other_kind kind))

module _ (sys : System) where
  open sys use {World, Fd, Errno, is_noent, strerror, statx_at, openat_read, read_dir}

  abbrev pub of_stat : Name → Result Errno EntryStat → Result RejectReason (Option Name)
  of_stat name (ok st) = of_type name st.file_type
  of_stat name (err e) = if is_noent e then ok none else err (inaccessible (strerror e))

  -- The name of a directory; nothing if it vanished.
  unfoldable pub classify_set_entry : Fd → Text → Exec World RejectReason (Option Name)
  unfolding from_bytes
  classify_set_entry dir file_name = do
    name ← lift (map_err invalid_name (from_bytes file_name))
    st ← attempt (statx_at dir file_name)
    lift (of_stat name st)

  abbrev pub Scanning : Type 0
  Scanning = World × SetScan sys

  -- The scan of a directory beneath.
  abbrev pub Deeper : Type 0
  Deeper = Fd → List Name → Exec Scanning (IoError Errno) (Unit {0})

  module _ (deeper : Deeper) (set : SetRuntime sys) (dir : Fd) (above : List Name) where
    abbrev pub display_name : Text → Text
    display_name file_name = join slash (strs above ++ (display_bytes file_name ∷ []))

    abbrev pub reject : Text → RejectReason → Note
    reject file_name reason =
        set_entry_rejected set.config.name
          (record { display_name = display_name file_name; reason = reason })

    abbrev pub unreadable : GroupId → Text → SetScan sys → SetScan sys
    unreadable id e scan = record scan {
      notes = scan.notes ++ (membership_unreadable id e ∷ []);
      unavailable = scan.unavailable ++ (id ∷ []);
    }

    abbrev pub leave :
        GroupId → AbsPath → Result (IoError Errno) (Unit {0}) → SetScan sys → SetScan sys
    leave id dir_path (ok u) scan = record scan {
      intermediates = scan.intermediates ++ ((id, dir_path) ∷ []);
    }
    leave id dir_path (err e) scan = unreadable id (io_message sys e) scan

    abbrev pub add_group :
        Text → Fd → Result InterpolateError GroupConfig → SetScan sys → SetScan sys
    add_group file_name fd (ok config) scan = record scan {
      groups = scan.groups ++ (record { config = config; membership_dir = fd } ∷ []);
    }
    add_group file_name fd (err e) scan = record scan {
      notes =
          scan.notes
          ++ (reject file_name (inaccessible (text "template: " ++ interpolation_message e)) ∷ []);
    }

    -- An open directory: of a group, or of groups beneath it.
    unfoldable pub enter : Text → List Name → Fd → Scanning → Scanning
    unfolding group display_bytes
    enter file_name path fd (w, scan) =
        let id = in_set set.config.name path in
        let (r, (w', scan')) = deeper fd path (w, scan) in
        if ltb (length path) set.config.depth
        then (w', leave id (join_names set.config.membership_root path) r scan')
        else (w, add_group file_name fd (group set.config path) scan)

    abbrev pub opened : Text → List Name → Result Errno Fd → Scanning → Scanning
    opened file_name path (ok fd) s = enter file_name path fd s
    opened file_name path (err e) (w, scan) =
        if is_noent e
        then (w, scan)
        else (w, unreadable (in_set set.config.name path) (strerror e) scan)

    abbrev pub classified : Text → Result RejectReason (Option Name) → Scanning → Scanning
    classified file_name (err reason) (w, scan) =
        (w, record scan { notes = scan.notes ++ (reject file_name reason ∷ []) })
    classified file_name (ok none) s = s
    classified file_name (ok (some name)) (w, scan) =
        let (r, w') = openat_read dir file_name w in
        opened file_name (above ++ (name ∷ [])) r (w', scan)

    unfoldable pub scan_entry : Text → Scanning → Scanning
    unfolding classify_set_entry enter
    scan_entry file_name (w, scan) =
        if not (is_empty file_name) && get_or file_name 0 0 == dot
        then (w, scan)
        else (let (r, w') = classify_set_entry dir file_name w in classified file_name r (w', scan))

    -- An entry that cannot be read ends the scan.
    unfoldable pub scan_entries :
        List (Result Errno Text) → Exec Scanning (IoError Errno) (Unit {0})
    unfolding scan_entry
    scan_entries [] s = (ok tt, s)
    scan_entries (err e ∷ entries) s = (err (os e), s)
    scan_entries (ok file_name ∷ entries) s = scan_entries entries (scan_entry file_name s)

    abbrev pub listed :
        Result Errno (List (Result Errno Text)) → Exec Scanning (IoError Errno) (Unit {0})
    listed (ok entries) s = scan_entries entries s
    listed (err e) s = (err (os e), s)

    unfoldable pub scan_dir : Exec Scanning (IoError Errno) (Unit {0})
    unfolding scan_entries
    scan_dir (w, scan) = let (r, w') = read_dir dir w in listed r (w', scan)

  -- The levels that are left bound the recursion.
  unfoldable pub scan_level :
      ℕ → SetRuntime sys → Fd → List Name → Exec Scanning (IoError Errno) (Unit {0})
  unfolding scan_dir
  scan_level zero set dir above =
      scan_dir (λ fd path. raise (other (text "no level left"))) set dir above
  scan_level (suc levels) set dir above = scan_dir (scan_level levels set) set dir above

  abbrev pub scanned :
      SetRuntime sys
      → Result (IoError Errno) (Unit {0}) × Scanning
      → Result Note (SetScan sys) × World
  scanned set (ok u, (w, scan)) = (ok scan, w)
  scanned set (err e, (w, scan)) = (err (set_root_unreadable set.config.name (io_message sys e)), w)

  -- `unwrap_or(false)`
  abbrev pub or_false : {E : Type 0} → Result E Bool → Bool
  or_false (ok b) = b
  or_false (err e) = false

  unfoldable pub discover_set : SetRuntime sys → World → Result Note (SetScan sys) × World
  unfolding scan_level is_deleted
  discover_set set w =
      let (deleted, w') = is_deleted sys set.root_dir w in
      if or_false deleted
      then (err (set_root_deleted set.config.name), w')
      else scanned set (scan_level set.config.depth set set.root_dir [] (w', empty_scan sys))

  abbrev pub insert_groups :
      Map GroupId (GroupRuntime sys) → List (GroupRuntime sys) → Map GroupId (GroupRuntime sys)
  insert_groups groups [] = groups
  insert_groups groups (g ∷ gs) = insert_groups (Map.insert g.config.name g groups) gs

  abbrev pub Discovering : Type 0
  Discovering = Runtime sys × (Discovery sys × World)

  abbrev pub add_scan :
      Name → Result Note (SetScan sys) → Runtime sys → Discovery sys → Runtime sys × Discovery sys
  add_scan set_name (ok scan) runtime d = (
    record runtime {
      groups = insert_groups runtime.groups scan.groups;
      intermediates = Map.extend runtime.intermediates scan.intermediates;
    },
    record d {
      notes = d.notes ++ scan.notes;
      unavailable = Set.extend d.unavailable scan.unavailable;
      scanned_sets = Set.insert set_name d.scanned_sets;
    },
  )
  add_scan set_name (err note) runtime d = (
    runtime,
    record d {
      notes = d.notes ++ (note ∷ []);
      unavailable_sets = Set.insert set_name d.unavailable_sets;
    },
  )

  -- The sets that are left.
  unfoldable pub discover_sets : List Name → Map Name (SetRuntime sys) → Discovering → Discovering
  unfolding discover_set
  discover_sets skip [] s = s
  discover_sets skip ((set_name, set) ∷ sets) (runtime, (d, w)) =
      let (r, w') = discover_set set w in
      let (runtime', d') = add_scan set_name r runtime d in
      if Set.has skip set_name
      then discover_sets skip sets (runtime, (d, w))
      else discover_sets skip sets (runtime', (d', w'))

  -- The sets in `skip` are not scanned.
  unfoldable pub discover : List Name → Runtime sys → World → Discovering
  unfolding discover_sets
  discover skip runtime w = discover_sets skip runtime.sets (
    record runtime { groups = Map.retain is_static runtime.groups; intermediates = [] },
    (record { notes = []; unavailable = []; unavailable_sets = []; scanned_sets = [] }, w),
  )
