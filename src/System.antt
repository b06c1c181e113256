-- ===== src/System.antt =====
-- The system calls that the program makes, as a parameter: the kernel's mounts, the file system and
-- the open descriptors are a state that only these calls read and change.
pub mod Toy
use byssus.Base.{ℕ, Bool, Option, List, Result, Text}
use byssus.Base.Exec.{Exec}
use byssus.Identity.{DevIno}
use byssus.Config.{AbsPath}

-- What `statx` on a descriptor reports: its answer for a field is `none` if the mask or the attribute
-- mask says that the kernel did not fill it in.
pub record Stat : Type 0 where
  pub dev_ino : DevIno
  pub mnt_id : Option ℕ
  pub mount_root : Option Bool

-- The flags of `fstatvfs`.
pub record VfsFlags : Type 0 where
  pub rdonly : Bool
  pub nosuid : Bool
  pub nodev : Bool
  pub noexec : Bool
  pub nosymfollow : Bool

-- `FileType`
pub data FileType : Type 0 where
  regular_file : FileType
  directory : FileType
  symlink : FileType
  fifo : FileType
  socket : FileType
  character_device : FileType
  block_device : FileType
  unknown : FileType

-- What `statx` reports of an entry of a directory.
pub record EntryStat : Type 0 where
  pub file_type : FileType
  pub size : ℕ

pub record System : Type 1 where
  pub World : Type 0
  pub Fd : Type 0
  pub Errno : Type 0
  pub is_again : Errno → Bool
  pub is_exist : Errno → Bool
  pub is_noent : Errno → Bool
  pub is_notempty : Errno → Bool
  pub is_busy : Errno → Bool
  -- the message of an error number
  pub strerror : Errno → Text
  -- `open(path, O_PATH | O_DIRECTORY)`
  pub open_dir : AbsPath → Exec World Errno Fd
  -- `openat2` with `O_PATH | O_DIRECTORY` beneath the descriptor, without symlinks
  pub openat2 : Fd → Text → Exec World Errno Fd
  -- `open(path, O_RDONLY | O_DIRECTORY)`
  pub open_read : AbsPath → Exec World Errno Fd
  -- `openat2` with `O_RDONLY | O_DIRECTORY` beneath the descriptor, without symlinks
  pub openat_read : Fd → Text → Exec World Errno Fd
  -- a reader of a directory: the names it gives one after another, with an error in the place of an
  -- entry that cannot be read
  pub read_dir : Fd → Exec World Errno (List (Result Errno Text))
  -- `statx` of an entry, without following a symlink
  pub statx_at : Fd → Text → Exec World Errno EntryStat
  -- the link count
  pub statx_nlink : Fd → Exec World Errno ℕ
  pub mkdirat : Fd → Text → Exec World Errno (Unit {0})
  -- `unlinkat` with `AT_REMOVEDIR`
  pub rmdirat : Fd → Text → Exec World Errno (Unit {0})
  pub statx : Fd → Exec World Errno Stat
  -- `statx` with `STATX_MNT_ID_UNIQUE` alone
  pub statx_unique : Fd → Exec World Errno (Option ℕ)
  pub fstatvfs : Fd → Exec World Errno VfsFlags
  -- `open_tree` with `OPEN_TREE_CLONE`, not recursive
  pub open_tree : Fd → Exec World Errno Fd
  -- `mount_setattr` adding these bits
  pub mount_setattr_add : Fd → ℕ → Exec World Errno (Unit {0})
  pub move_mount : Fd → Fd → Exec World Errno (Unit {0})
  -- "/proc/self/fd/N" for the number of the descriptor
  pub fd_link : Fd → Text
  -- `open` of that path with `O_PATH`
  pub open_link : Fd → Exec World Errno Fd
  -- `umount2` of that path with `MNT_DETACH`
  pub umount_link : Fd → Exec World Errno (Unit {0})

-- `io::Error`: an error number, or a message of the program's own.
pub data IoError (Errno : Type 0) : Type 0 where
  os : Errno → IoError Errno
  other : Text → IoError Errno
