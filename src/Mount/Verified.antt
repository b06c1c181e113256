-- ===== src/Mount/Verified.antt =====
-- What an unmount is sure of before it happens (src/mount.rs).
use byssus.Base.{map_err, ◌≡◌, refl, Bool, true, false, Option, Result, ok, err, Text}
use byssus.Base.Exec.{◌>>=◌, map_error, continue}
use byssus.System.{System, IoError, os}
use byssus.Identity.{MountIdentity, matches}
use byssus.Fsops.{resolve_dir}
use byssus.Reconcile.Types.{ObservedAttrs, TargetState, not_mounted, mounted}
use byssus.Mount.{
  read_identity, VerifiedOpError, io, Verified, read_identity, inspect_fd, verify, open_verified,
  detach, unmount_verified, detach, unmount_verified,
}
use byssus.Mount.Lasting.{IsLasting, Lasts-resolve_dir, Lasts-inspect_fd, Lasts-read_identity}

module _ (sys : System) where
  open sys use {World, Fd, Errno, open_link, umount_link}

  module _ (P : World → Type 0) (lasting : IsLasting sys P) (expected : MountIdentity)
      (b : Bool) where
    -- A descriptor whose mount was found to be the expected one, in a world where the property holds
    -- still.
    pub record IsPinned (fd : Fd) (w : World) : Type 0 where
      pub looked_at : World
      pub found : MountIdentity
      pub attrs : Option ObservedAttrs
      pub inspected : inspect_fd sys fd b looked_at ≡ (ok (mounted found attrs), w)
      pub is_expected : matches found expected ≡ true
      pub held : P w

    abbrev Pins : Result (VerifiedOpError Errno) Fd → World → Type 0
    Pins (ok fd) w = IsPinned fd w
    Pins (err e) w = P w

    verify-matches :
        (fd : Fd) (found : MountIdentity) (attrs : Option ObservedAttrs) (w0 w : World)
        → inspect_fd sys fd b w0 ≡ (ok (mounted found attrs), w)
        → P w
        → (m : Bool) → matches found expected ≡ m
        → Pins
            (verify sys expected fd (mounted found attrs) w).0
            (verify sys expected fd (mounted found attrs) w).1
    verify-matches fd found attrs w0 w e p true m = rw m (record {
      looked_at = w0;
      found = found;
      attrs = attrs;
      inspected = e;
      is_expected = m;
      held = p;
    })
    verify-matches fd found attrs w0 w e p false m = rw m p

    verify-Pins :
        (fd : Fd) (w0 : World) (r : Result (IoError Errno) TargetState) (w : World)
        → inspect_fd sys fd b w0 ≡ (r, w)
        → P w
        → Pins
            (continue (map_err io r) (verify sys expected fd) w).0
            (continue (map_err io r) (verify sys expected fd) w).1
    verify-Pins fd w0 (err x) w e p = p
    verify-Pins fd w0 (ok (mounted found attrs)) w e p =
        verify-matches fd found attrs w0 w e p (matches found expected) refl
    verify-Pins fd w0 (ok not_mounted) w e p = p
    verify-Pins fd w0 (ok (TargetState.unavailable why)) w e p = p

    abbrev look : Fd → Verified sys Fd
    look fd = map_error io (inspect_fd sys fd b) >>= verify sys expected fd

    look-Pins :
        (r : Result (IoError Errno) Fd) (w : World)
        → P w
        → Pins (continue (map_err io r) look w).0 (continue (map_err io r) look w).1
    look-Pins (err x) w p = p
    look-Pins (ok fd) w p =
        let (r, w') = inspect_fd sys fd b w in
        verify-Pins fd w r w' refl (Lasts-inspect_fd sys P lasting fd b w p)

    open_verified-IsPinned :
        (root : Fd) (path : Text) (w : World)
        → P w
        → Pins
            (open_verified sys root path expected b w).0
            (open_verified sys root path expected b w).1
    unfolding open_verified
    open_verified-IsPinned root path w p =
        let (r, w') = resolve_dir sys root path w in
        look-Pins r w' (Lasts-resolve_dir sys P lasting root path w p)

    -- How a verified unmount ends: without the call that unmounts, or with that call as its last on a
    -- descriptor whose mount, and whose link's mount, was found to be the expected one.
    pub data IsSafeUnmount : Result (VerifiedOpError Errno) (Unit {0}) → World → Type 0 where
      refused : (e : VerifiedOpError Errno) (w : World) → P w → IsSafeUnmount (err e) w
      detached :
          (fd via : Fd) (at_link : MountIdentity) (w0 w1 w2 : World)
          → IsPinned fd w0
          → open_link fd w0 ≡ (ok via, w1)
          → read_identity sys via b w1 ≡ (ok at_link, w2)
          → matches at_link expected ≡ true
          → P w2
          → IsSafeUnmount (map_error (λ e. io (os e)) (umount_link fd) w2).0 (umount_link fd w2).1

    detach-matches :
        (fd via : Fd) (at_link : MountIdentity) (w0 w1 w2 : World)
        → IsPinned fd w0
        → open_link fd w0 ≡ (ok via, w1)
        → read_identity sys via b w1 ≡ (ok at_link, w2)
        → P w2
        → (m : Bool) → matches at_link expected ≡ m
        → IsSafeUnmount (detach sys expected fd at_link w2).0 (detach sys expected fd at_link w2).1
    detach-matches fd via at_link w0 w1 w2 pinned e f p true m =
        rw m (detached fd via at_link w0 w1 w2 pinned e f m p)
    detach-matches fd via at_link w0 w1 w2 pinned e f p false m = rw m (refused _ w2 p)

    detach-IsSafeUnmount :
        (fd via : Fd) (w0 w1 : World) (r : Result (IoError Errno) MountIdentity) (w2 : World)
        → IsPinned fd w0
        → open_link fd w0 ≡ (ok via, w1)
        → read_identity sys via b w1 ≡ (r, w2)
        → P w2
        → IsSafeUnmount
            (continue (map_err io r) (detach sys expected fd) w2).0
            (continue (map_err io r) (detach sys expected fd) w2).1
    detach-IsSafeUnmount fd via w0 w1 (err x) w2 pinned e f p = refused (io x) w2 p
    detach-IsSafeUnmount fd via w0 w1 (ok id) w2 pinned e f p =
        detach-matches fd via id w0 w1 w2 pinned e f p (matches id expected) refl

    abbrev through_link : Fd → Fd → Verified sys (Unit {0})
    through_link fd via = map_error io (read_identity sys via b) >>= detach sys expected fd

    link-IsSafeUnmount :
        (fd : Fd) (w0 : World) (r : Result Errno Fd) (w1 : World)
        → IsPinned fd w0
        → open_link fd w0 ≡ (r, w1)
        → P w1
        → IsSafeUnmount
            (continue (map_err (λ e. io (os e)) r) (through_link fd) w1).0
            (continue (map_err (λ e. io (os e)) r) (through_link fd) w1).1
    link-IsSafeUnmount fd w0 (err x) w1 pinned e p = refused (io (os x)) w1 p
    link-IsSafeUnmount fd w0 (ok via) w1 pinned e p =
        let (r, w2) = read_identity sys via b w1 in
        detach-IsSafeUnmount fd via w0 w1 r w2 pinned e refl
          (Lasts-read_identity sys P lasting via b w1 p)

    abbrev unmount_pinned : Fd → Verified sys (Unit {0})
    unmount_pinned fd = map_error (λ e. io (os e)) (open_link fd) >>= through_link fd

    pinned-IsSafeUnmount :
        (r : Result (VerifiedOpError Errno) Fd) (w : World)
        → Pins r w
        → IsSafeUnmount (continue r unmount_pinned w).0 (continue r unmount_pinned w).1
    pinned-IsSafeUnmount (err e) w p = refused e w p
    pinned-IsSafeUnmount (ok fd) w p =
        let (r, w1) = open_link fd w in
        link-IsSafeUnmount fd w r w1 p refl (lasting.open_link_keeps fd w p.held)

    -- A verified unmount ends with an error and no call that unmounts, or it unmounts through a
    -- descriptor of a mount root whose mount matched the expected identity, after the link that the
    -- call takes was found to lead to a mount that matches it too. Until then, every property of the
    -- world holds that the calls to look and to open keep.
    pub unmount_verified-IsSafeUnmount :
        (root : Fd) (path : Text) (w : World)
        → P w
        → IsSafeUnmount
            (unmount_verified sys root path expected b w).0
            (unmount_verified sys root path expected b w).1
    unfolding unmount_verified
    unmount_verified-IsSafeUnmount root path w p =
        let (r, w') = open_verified sys root path expected b w in
        pinned-IsSafeUnmount r w' (open_verified-IsPinned root path w p)
