-- ===== src/Identity.antt =====
-- The kernel identity of a mount (src/identity.rs), by which Byssus knows its own mounts.
use byssus.Base.{
  ℕ, ◌≡◌, ◌↔◌, Bool, true, false, ◌&&◌, not, Option, none, some, arith, if◌then◌else◌, Eq, ◌==◌,
  nat_eq, option_eq,
}

pub record DevIno : Type 0 where
  pub dev_major : ℕ
  pub dev_minor : ℕ
  pub ino : ℕ

unfoldable pub beq_dev_ino : DevIno → DevIno → Bool
beq_dev_ino a b = a.dev_major == b.dev_major && a.dev_minor == b.dev_minor && a.ino == b.ino

pub beq_dev_ino_iff : (a b : DevIno) → (beq_dev_ino a b ≡ true) ↔ (a ≡ b)
unfolding beq_dev_ino
beq_dev_ino_iff a b = ground (arith)

instance abbrev pub dev_ino_eq : Eq DevIno
dev_ino_eq = record { beq = beq_dev_ino; beq_iff = beq_dev_ino_iff }

pub record MountIdentity : Type 0 where
  pub mnt_id : ℕ
  pub mnt_id_unique : Option ℕ
  pub root : DevIno

unfoldable pub beq_identity : MountIdentity → MountIdentity → Bool
beq_identity a b = a.mnt_id == b.mnt_id && a.mnt_id_unique == b.mnt_id_unique && a.root == b.root

pub beq_identity_iff : (a b : MountIdentity) → (beq_identity a b ≡ true) ↔ (a ≡ b)
unfolding beq_identity
beq_identity_iff a b =
    ground (arith, option_eq.beq_iff a.mnt_id_unique b.mnt_id_unique, beq_dev_ino_iff a.root b.root)

instance abbrev pub identity_eq : Eq MountIdentity
identity_eq = record { beq = beq_identity; beq_iff = beq_identity_iff }

-- Whether an observed mount is the mount that a recorded identity describes.
unfoldable pub matches : MountIdentity → MountIdentity → Bool
matches observed recorded =
    if not (observed.root == recorded.root) then false else elim observed.mnt_id_unique [
      | none ↦ observed.mnt_id == recorded.mnt_id
      | some u ↦ elim recorded.mnt_id_unique [
        | none ↦ observed.mnt_id == recorded.mnt_id
        | some expected ↦ u == expected
      ]
    ]
