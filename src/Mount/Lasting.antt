-- ===== src/Mount/Lasting.antt =====
-- The calls of an inspection and the properties of the world (src/mount.rs, src/fsops.rs).
use byssus.Base.{ℕ, Bool, true, false, Option, none, some, Result, ok, err, Text, arith}
use byssus.Base.Exec.{pure, Exec, ◌>>=◌, attempt, map_error, continue}
use byssus.System.{System, IoError, os}
use byssus.Identity.{DevIno}
use byssus.Fsops.{retry_eagain, resolve_dir}
use byssus.Reconcile.Types.{mounted}
use byssus.Mount.{
  unique_of, identified, reported_root, ok_or_none, read_identity, is_mount_root, observed_attrs,
  inspect_root, inspect_fd,
}

module _ (sys : System) where
  open sys use {World, Fd, Errno, openat2, statx, statx_unique, fstatvfs, open_link, umount_link}

  -- A property of the world that lasts while nothing is unmounted: the calls that look and open keep
  -- it, whatever they return.
  pub record IsLasting (P : World → Type 0) : Type 0 where
    pub openat2_keeps : (fd : Fd) (path : Text) (w : World) → P w → P (openat2 fd path w).1
    pub statx_keeps : (fd : Fd) (w : World) → P w → P (statx fd w).1
    pub statx_unique_keeps : (fd : Fd) (w : World) → P w → P (statx_unique fd w).1
    pub fstatvfs_keeps : (fd : Fd) (w : World) → P w → P (fstatvfs fd w).1
    pub open_link_keeps : (fd : Fd) (w : World) → P w → P (open_link fd w).1

  module _ (P : World → Type 0) (lasting : IsLasting P) where
    abbrev pub Lasts : {E A : Type 0} → Exec World E A → Type 0
    Lasts f = (w : World) → P w → P (f w).1

    pub Lasts-continue :
        {E A B : Type 0} (r : Result E A) (g : A → Exec World E B)
        → ((a : A) → Lasts (g a))
        → Lasts (continue r g)
    Lasts-continue (ok a) g h w p = h a w p
    Lasts-continue (err e) g h w p = p

    pub Lasts-bind :
        {E A B : Type 0} (f : Exec World E A) (g : A → Exec World E B)
        → Lasts f
        → ((a : A) → Lasts (g a))
        → Lasts (f >>= g)
    Lasts-bind f g h k w p = Lasts-continue (f w).0 g k (f w).1 (h w p)

    pub Lasts-retry_eagain :
        (n : ℕ) (call : Exec World Errno Fd) → Lasts call → Lasts (retry_eagain sys n call)
    unfolding retry_eagain
    Lasts-retry_eagain ℕ.zero call h w p = h w p
    Lasts-retry_eagain (ℕ.suc n) call h w p =
        ground (arith, h w p, Lasts-retry_eagain n call h (call w).1 (h w p))

    pub Lasts-resolve_dir : (fd : Fd) (path : Text) → Lasts (resolve_dir sys fd path)
    unfolding resolve_dir
    Lasts-resolve_dir fd path =
        Lasts-retry_eagain 16 (openat2 fd path) (lasting.openat2_keeps fd path)

    pub Lasts-map_error :
        {E F A : Type 0} (g : E → F) (f : Exec World E A) → Lasts f → Lasts (map_error g f)
    Lasts-map_error g f h = h

    pub Lasts-unique_of : (b : Bool) (fd : Fd) → Lasts (unique_of sys b fd)
    Lasts-unique_of true fd w p = lasting.statx_unique_keeps fd w p
    Lasts-unique_of false fd w p = p

    pub Lasts-identified :
        (b : Bool) (fd : Fd) (root : DevIno) (id : Option ℕ) → Lasts (identified sys b fd root id)
    Lasts-identified b fd root none w p = p
    Lasts-identified b fd root (some id) w p =
        Lasts-bind (unique_of sys b fd)
          (λ unique. pure (record { mnt_id = id; mnt_id_unique = unique; root = root }))
          (Lasts-unique_of b fd) (λ u w p. p) w p

    pub Lasts-read_identity : (fd : Fd) (b : Bool) → Lasts (read_identity sys fd b)
    unfolding read_identity
    Lasts-read_identity fd b =
        Lasts-bind (map_error os (statx fd)) (λ st. identified sys b fd st.dev_ino st.mnt_id)
          (lasting.statx_keeps fd) (λ st. Lasts-identified b fd st.dev_ino st.mnt_id)

    pub Lasts-reported_root : (o : Option Bool) → Lasts (reported_root sys o)
    Lasts-reported_root none w p = p
    Lasts-reported_root (some b) w p = p

    pub Lasts-is_mount_root : (fd : Fd) → Lasts (is_mount_root sys fd)
    unfolding is_mount_root
    Lasts-is_mount_root fd =
        Lasts-bind (map_error os (statx fd)) (λ st. reported_root sys st.mount_root)
          (lasting.statx_keeps fd) (λ st. Lasts-reported_root st.mount_root)

    pub Lasts-observed_attrs : (fd : Fd) → Lasts (observed_attrs sys fd)
    unfolding observed_attrs
    Lasts-observed_attrs fd w p = ground (arith, lasting.fstatvfs_keeps fd w p)

    pub Lasts-inspect_root : (b : Bool) (fd : Fd) (r : Bool) → Lasts (inspect_root sys b fd r)
    Lasts-inspect_root b fd false w p = p
    Lasts-inspect_root b fd true w p =
        Lasts-bind (read_identity sys fd b)
          (λ id. attempt {F = IoError Errno} (observed_attrs sys fd) >>= λ attrs.
            pure (mounted id (ok_or_none sys attrs)))
          (Lasts-read_identity fd b) (λ id. Lasts-observed_attrs fd) w p

    pub Lasts-inspect_fd : (fd : Fd) (b : Bool) → Lasts (inspect_fd sys fd b)
    unfolding inspect_fd
    Lasts-inspect_fd fd b =
        Lasts-bind (is_mount_root sys fd) (inspect_root sys b fd) (Lasts-is_mount_root fd)
          (Lasts-inspect_root b fd)
