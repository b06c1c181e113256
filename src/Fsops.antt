-- ===== src/Fsops.antt =====
-- Operations on directories beneath trusted roots (src/fsops.rs).
pub mod Retry
pub mod Plain
mod Tests
use byssus.Base.{
  ℕ, zero, suc, Bool, true, false, ◌||◌, not, Option, none, some, List, [], ◌∷◌, ◌++◌,
  if◌then◌else◌, Result, ok, err, Text, text, slash, contains, is_empty, ◌==◌, nat_eq, list_eq,
}
use byssus.Base.Exec.{Exec, ◌>>=◌, pure, raise, attempt, map_error}
use byssus.Config.{AbsPath}
use byssus.Identity.{DevIno}
use byssus.Membership.{EntryKind, Kind, Membership, from_entries}
use byssus.System.{System, FileType, EntryStat, IoError, os, other}

abbrev pub eagain_retries : ℕ
eagain_retries = 16

-- Not empty, `.` or `..`, and without `/`.
abbrev pub is_plain : Text → Bool
is_plain c = not (is_empty c || (c == text "." || (c == text ".." || contains c slash)))

abbrev pub entry_kind : EntryStat → EntryKind
entry_kind st = elim st.file_type [
  | FileType.regular_file ↦ EntryKind.regular st.size
  | FileType.directory ↦ EntryKind.directory
  | FileType.symlink ↦ EntryKind.symlink
  | FileType.fifo ↦ EntryKind.fifo
  | FileType.socket ↦ EntryKind.socket
  | FileType.character_device ↦ EntryKind.char_device
  | FileType.block_device ↦ EntryKind.block_device
  | FileType.unknown ↦ EntryKind.unknown
]

module _ (sys : System) where
  open sys use {
    World, Fd, Errno, is_again, is_exist, is_notempty, is_busy, is_noent, openat2, mkdirat, rmdirat,
    open_dir, statx, open_read, read_dir, statx_at, statx_nlink, strerror,
  }

  abbrev pub Io : Type 0 → Type 0
  Io A = Exec World (IoError Errno) A

  unfoldable pub open_root : AbsPath → Io Fd
  open_root path = map_error os (open_dir path)

  -- One more attempt for each retry that is left, while the call says `EAGAIN`.
  unfoldable pub retry_eagain : ℕ → Exec World Errno Fd → Io Fd
  retry_eagain zero open_call w = map_error os open_call w
  retry_eagain (suc retries) open_call w =
      let (r, w') = open_call w in
      let again = retry_eagain retries open_call w' in
      elim r [ ok fd ↦ (ok fd, w') | err e ↦ if is_again e then again else (err (os e), w') ]

  unfoldable pub resolve_dir : Fd → Text → Io Fd
  unfolding retry_eagain
  resolve_dir root relative = retry_eagain eagain_retries (openat2 root relative)

  abbrev made : Result Errno (Unit {0}) → Io (Unit {0})
  made (ok u) = pure tt
  made (err e) = if is_exist e then pure tt else raise (os e)

  unfoldable pub ensure_one : Fd → Text → Io Fd
  unfolding resolve_dir
  ensure_one parent component =
      if is_plain component
      then (do r ← attempt (mkdirat parent component); u ← made r; resolve_dir parent component)
      else raise (other (text "'" ++ (component ++ text "' is not a plain directory name")))

  unfoldable pub ensure_rest : Fd → List Text → Io Fd
  unfolding ensure_one
  ensure_rest current [] = pure current
  ensure_rest current (c ∷ rest) = do next ← ensure_one current c; ensure_rest next rest

  unfoldable pub ensure_dirs_beneath : Fd → List Text → Io Fd
  unfolding ensure_rest
  ensure_dirs_beneath root [] = raise (other (text "no path components"))
  ensure_dirs_beneath root (first ∷ rest) = do
    current ← ensure_one root first
    ensure_rest current rest

  abbrev parent_of : Fd → Option Text → Io Fd
  parent_of root none = pure root
  parent_of root (some relative) = resolve_dir root relative

  abbrev removed : Result Errno (Unit {0}) → Io Bool
  removed (ok u) = pure true
  removed (err e) = if is_notempty e || (is_busy e || is_noent e) then pure false else raise (os e)

  unfoldable pub remove_empty_dir : Fd → Option Text → Text → Io Bool
  unfolding resolve_dir
  remove_empty_dir root relative_parent leaf = do
    parent ← parent_of root relative_parent
    r ← attempt (rmdirat parent leaf)
    removed r

  unfoldable pub dev_ino : Fd → Io DevIno
  dev_ino fd = do st ← map_error os (statx fd); pure st.dev_ino

  unfoldable pub open_dir_for_reading : AbsPath → Io Fd
  open_dir_for_reading path = map_error os (open_read path)

  -- No link leads to the directory any more.
  unfoldable pub is_deleted : Fd → Io Bool
  is_deleted fd = do n ← map_error os (statx_nlink fd); pure (n == 0)

  abbrev kind_of : Result Errno EntryStat → Kind
  kind_of (ok st) = ok (entry_kind st)
  kind_of (err e) = err (strerror e)

  -- The entries, and what a look at each gave; an entry that cannot be read ends it.
  unfoldable pub read_entries : Fd → List (Result Errno Text) → Io (List (Text × Kind))
  read_entries dir [] = pure []
  read_entries dir (err e ∷ entries) = raise (os e)
  read_entries dir (ok name ∷ entries) = do
    let rest = read_entries dir entries
    if name == text "." || name == text ".." then rest else (do
      st ← attempt (statx_at dir name)
      others ← rest
      pure ((name, kind_of st) ∷ others))

  unfoldable pub scan_membership : Fd → Io Membership
  unfolding read_entries from_entries
  scan_membership dir = do
    names ← map_error os (read_dir dir)
    entries ← read_entries dir names
    pure (from_entries entries)
