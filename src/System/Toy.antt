-- ===== src/System/Toy.antt =====
-- A small system for tests: one place, where something is mounted or not, and descriptors that are
-- numbers.
use byssus.Base.{ℕ, Bool, true, false, some, ok, [], ◌∷◌, if◌then◌else◌, ◌==◌, nat_eq, text}
use byssus.Base.Exec.{pure}
use byssus.System.{System, directory, regular_file}

abbrev pub toy : System
toy = record {
  World = Bool;
  Fd = ℕ;
  Errno = ℕ;
  is_again = λ e. e == 11;
  is_exist = λ e. e == 17;
  is_noent = λ e. e == 2;
  is_notempty = λ e. e == 39;
  is_busy = λ e. e == 16;
  strerror = λ e. text "error";
  open_dir = λ path. pure 3;
  openat2 = λ fd path. pure 4;
  open_read = λ path. pure 8;
  openat_read = λ fd name. pure 9;
  read_dir = λ fd.
      pure (if fd == 8 then ok (text "org") ∷ [] else ok (text "alice") ∷ ok (text ".hidden") ∷ []);
  statx_at = λ fd name.
      pure (record { file_type = if fd == 8 then directory else regular_file; size = 0 });
  statx_nlink = λ fd. pure 1;
  mkdirat = λ fd leaf. pure tt;
  rmdirat = λ fd leaf. pure tt;
  statx = λ fd here. (
    ok (record {
      dev_ino = record { dev_major = 8; dev_minor = 1; ino = 99 };
      mnt_id = some 7;
      mount_root = some here;
    }),
    here,
  );
  statx_unique = λ fd. pure (some 70);
  fstatvfs = λ fd.
      pure
        (record { rdonly = true; nosuid = true; nodev = true; noexec = true; nosymfollow = false });
  open_tree = λ fd. pure 5;
  mount_setattr_add = λ fd bits. pure tt;
  move_mount = λ tree target here. (ok tt, true);
  fd_link = λ fd. text "/proc/self/fd/4";
  open_link = λ fd. pure 6;
  umount_link = λ fd here. (ok tt, false);
}
