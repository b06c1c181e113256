-- ===== src/Mount/Attrs.antt =====
-- The restrictions that a new mount gets (src/mount.rs, `attr_bits`).
use Prim.Native.Nat.{bit_and}
use byssus.Base.{ℕ, ◌≡◌, refl, Bool, true, false, ltb, arith}
use byssus.Config.{MountAttrs}
use byssus.Reconcile.Types.{ObservedAttrs, enforce}
use byssus.Mount.{
  attr_bits, mount_attr_rdonly, mount_attr_nosuid, mount_attr_nodev, mount_attr_noexec,
  mount_attr_nosymfollow,
}

abbrev has_bit : ℕ → ℕ → Bool
has_bit bits bit = ltb 0 (bit_and bits bit)

-- The restrictions that a mask of `mount_setattr` sets.
abbrev pub set_by : ℕ → ObservedAttrs
set_by bits = record {
  read_only = has_bit bits mount_attr_rdonly;
  nosuid = has_bit bits mount_attr_nosuid;
  nodev = has_bit bits mount_attr_nodev;
  noexec = has_bit bits mount_attr_noexec;
  nosymfollow = has_bit bits mount_attr_nosymfollow;
}

attr_bits-set :
    (r e f : Bool)
    → set_by (attr_bits (record { read_only = r; noexec = e; nosymfollow = f }))
      ≡ record { read_only = r; nosuid = true; nodev = true; noexec = e; nosymfollow = f }
unfolding attr_bits
attr_bits-set false false false = refl
attr_bits-set false false true = refl
attr_bits-set false true false = refl
attr_bits-set false true true = refl
attr_bits-set true false false = refl
attr_bits-set true false true = refl
attr_bits-set true true false = refl
attr_bits-set true true true = refl

attrs_enforce :
    (r e f : Bool)
    → enforce
        (record { read_only = r; nosuid = true; nodev = true; noexec = e; nosymfollow = f })
        (record { read_only = r; noexec = e; nosymfollow = f })
      ≡ true
unfolding enforce
attrs_enforce r e f = ground arith

-- The mask that a mount is created with sets exactly the configured restrictions besides `nosuid`
-- and `nodev`, which it always sets, and a mount with these passes for one that enforces the
-- configuration.
pub attr_bits-enforce :
    (a : MountAttrs)
    → (set_by (attr_bits a) ≡ record {
      read_only = a.read_only;
      nosuid = true;
      nodev = true;
      noexec = a.noexec;
      nosymfollow = a.nosymfollow;
    })
      × (enforce (set_by (attr_bits a)) a ≡ true)
attr_bits-enforce a =
    let e = attr_bits-set a.read_only a.noexec a.nosymfollow in
    (e, rw e (attrs_enforce a.read_only a.noexec a.nosymfollow))
