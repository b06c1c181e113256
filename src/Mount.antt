-- ===== src/Mount.antt =====
-- Mounts: inspection, creation and verified removal (src/mount.rs).
pub mod Attrs
pub mod Lasting
pub mod Verified
use Prim.Native.Nat.{bit_or}
use byssus.Base.{
  ℕ, Bool, true, false, Option, none, some, ◌++◌, if◌then◌else◌, Result, ok, err, Text, text,
}
use byssus.Base.Exec.{Exec, ◌>>=◌, pure, raise, attempt, map_error}
use byssus.Identity.{DevIno, MountIdentity, matches}
use byssus.Config.{MountAttrs}
use byssus.Reconcile.Types.{ObservedAttrs, TargetState, not_mounted, mounted}
use byssus.System.{System, IoError, os, other}
use byssus.Fsops.{Io, resolve_dir}

abbrev pub mount_attr_rdonly : ℕ
mount_attr_rdonly = 0x00000001

abbrev pub mount_attr_nosuid : ℕ
mount_attr_nosuid = 0x00000002

abbrev pub mount_attr_nodev : ℕ
mount_attr_nodev = 0x00000004

abbrev pub mount_attr_noexec : ℕ
mount_attr_noexec = 0x00000008

abbrev pub mount_attr_nosymfollow : ℕ
mount_attr_nosymfollow = 0x00200000

abbrev add_bit : Bool → ℕ → ℕ → ℕ
add_bit on bit bits = if on then bit_or bits bit else bits

unfoldable pub attr_bits : MountAttrs → ℕ
attr_bits attrs = add_bit attrs.nosymfollow mount_attr_nosymfollow (
    add_bit attrs.noexec mount_attr_noexec
      (add_bit attrs.read_only mount_attr_rdonly (bit_or mount_attr_nosuid mount_attr_nodev)))

-- Why a verified operation did not happen.
pub data VerifiedOpError (Errno : Type 0) : Type 0 where
  nothing_mounted : VerifiedOpError Errno
  identity_mismatch : ℕ → VerifiedOpError Errno
  io : IoError Errno → VerifiedOpError Errno

module _ (sys : System) where
  open sys use {
    World, Fd, Errno, is_noent, strerror, statx, statx_unique, fstatvfs, open_tree,
    mount_setattr_add, move_mount, open_link, fd_link, umount_link,
  }

  -- `io::Error`'s `to_string`
  abbrev pub io_message : IoError Errno → Text
  io_message (os e) = strerror e
  io_message (other m) = m

  abbrev pub unique_of : Bool → Fd → Io sys (Option ℕ)
  unique_of true fd = map_error os (statx_unique fd)
  unique_of false fd = pure none

  abbrev pub identified : Bool → Fd → DevIno → Option ℕ → Io sys MountIdentity
  identified unique_supported fd root none =
      raise (other (text "kernel did not report STATX_MNT_ID"))
  identified unique_supported fd root (some id) = do
    unique ← unique_of unique_supported fd
    pure (record { mnt_id = id; mnt_id_unique = unique; root = root })

  unfoldable pub read_identity : Fd → Bool → Io sys MountIdentity
  read_identity fd unique_supported = do
    st ← map_error os (statx fd)
    identified unique_supported fd st.dev_ino st.mnt_id

  unfoldable pub observed_attrs : Fd → Io sys ObservedAttrs
  observed_attrs fd = do
    f ← map_error os (fstatvfs fd)
    pure (record {
      read_only = f.rdonly;
      nosuid = f.nosuid;
      nodev = f.nodev;
      noexec = f.noexec;
      nosymfollow = f.nosymfollow;
    })

  abbrev pub reported_root : Option Bool → Io sys Bool
  reported_root none = raise (other (text "kernel did not report STATX_ATTR_MOUNT_ROOT"))
  reported_root (some b) = pure b

  unfoldable pub is_mount_root : Fd → Io sys Bool
  is_mount_root fd = do st ← map_error os (statx fd); reported_root st.mount_root

  abbrev pub ok_or_none : {E A : Type 0} → Result E A → Option A
  ok_or_none (ok a) = some a
  ok_or_none (err e) = none

  abbrev pub inspect_root : Bool → Fd → Bool → Io sys TargetState
  inspect_root unique_supported fd false = pure not_mounted
  inspect_root unique_supported fd true = do
    identity ← read_identity fd unique_supported
    attrs ← attempt (observed_attrs fd)
    pure (mounted identity (ok_or_none attrs))

  unfoldable pub inspect_fd : Fd → Bool → Io sys TargetState
  unfolding is_mount_root read_identity observed_attrs
  inspect_fd fd unique_supported = do
    is_root ← is_mount_root fd
    inspect_root unique_supported fd is_root

  abbrev or_unavailable : Result (IoError Errno) TargetState → TargetState
  or_unavailable (ok t) = t
  or_unavailable (err e) = TargetState.unavailable (io_message e)

  abbrev inspect_found : Bool → Result (IoError Errno) Fd → World → TargetState × World
  inspect_found unique_supported (ok fd) w =
      let (r, w') = inspect_fd fd unique_supported w in (or_unavailable r, w')
  inspect_found unique_supported (err (os e)) w =
      (if is_noent e then not_mounted else TargetState.unavailable (strerror e), w)
  inspect_found unique_supported (err (other m)) w = (TargetState.unavailable m, w)

  -- What is at the path beneath the root.
  unfoldable pub inspect : Fd → Text → Bool → World → TargetState × World
  unfolding inspect_fd resolve_dir
  inspect root relative unique_supported w =
      let (r, w') = resolve_dir sys root relative w in inspect_found unique_supported r w'

  -- The attributes are set while the clone is detached.
  unfoldable pub create_bind : Fd → Fd → MountAttrs → Bool → Io sys MountIdentity
  unfolding read_identity attr_bits
  create_bind source target attrs unique_supported = do
    tree ← map_error os (open_tree source)
    u ← map_error os (mount_setattr_add tree (attr_bits attrs))
    v ← map_error os (move_mount tree target)
    read_identity tree unique_supported

  abbrev pub Verified : Type 0 → Type 0
  Verified A = Exec World (VerifiedOpError Errno) A

  abbrev pub verify : MountIdentity → Fd → TargetState → Verified Fd
  verify expected fd (mounted found attrs) =
      if matches found expected then pure fd else raise (identity_mismatch found.mnt_id)
  verify expected fd _ = raise nothing_mounted

  unfoldable pub open_verified : Fd → Text → MountIdentity → Bool → Verified Fd
  unfolding inspect_fd resolve_dir
  open_verified root relative expected unique_supported = do
    fd ← map_error io (resolve_dir sys root relative)
    found ← map_error io (inspect_fd fd unique_supported)
    verify expected fd found

  abbrev pub detach : MountIdentity → Fd → MountIdentity → Verified (Unit {0})
  detach expected fd at_link =
      if matches at_link expected
      then map_error (λ e. io (os e)) (umount_link fd)
      else raise (io (other (fd_link fd ++ text " does not lead to the verified mount")))

  -- The mount is unmounted through the descriptor that was verified, after a second look through
  -- the link that the call takes.
  unfoldable pub unmount_verified : Fd → Text → MountIdentity → Bool → Verified (Unit {0})
  unfolding open_verified read_identity
  unmount_verified root relative expected unique_supported = do
    fd ← open_verified root relative expected unique_supported
    via_link ← map_error (λ e. io (os e)) (open_link fd)
    at_link ← map_error io (read_identity via_link unique_supported)
    detach expected fd at_link
