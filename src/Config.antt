-- ===== src/Config.antt =====
-- The parts of the configuration that the other components use (src/config.rs).
pub mod Groups
pub mod Paths
pub mod Issues
pub mod Validate
pub mod Load
use byssus.Base.{
  join, slash, ◌∷◌, ◌≡◌, ◌↔◌, Bool, true, ◌&&◌, List, arith, Text, Eq, Ord, ◌==◌, bool_eq, nat_ord,
  list_ord, eq_of_ord, ord_field,
}

-- A validated absolute path, as its components: `Path` compares by these.
pub record AbsPath : Type 0 where
  pub components : List Text

pub AbsPath-inj : (a b : AbsPath) → a.components ≡ b.components → a ≡ b
AbsPath-inj a b e = λ i. record { components = e i }

instance abbrev pub abs_path_ord : Ord AbsPath
abs_path_ord = ord_field (λ p. p.components) AbsPath-inj

instance abbrev pub abs_path_eq : Eq AbsPath
abs_path_eq = eq_of_ord abs_path_ord

-- `Display` of a path
abbrev pub path_text : AbsPath → Text
path_text p = slash ∷ join slash p.components

pub record MountAttrs : Type 0 where
  pub read_only : Bool
  pub noexec : Bool
  pub nosymfollow : Bool

unfoldable pub beq_attrs : MountAttrs → MountAttrs → Bool
beq_attrs a b = a.read_only == b.read_only && a.noexec == b.noexec && a.nosymfollow == b.nosymfollow

pub beq_attrs_iff : (a b : MountAttrs) → (beq_attrs a b ≡ true) ↔ (a ≡ b)
unfolding beq_attrs
beq_attrs_iff a b = ground arith

instance abbrev pub attrs_eq : Eq MountAttrs
attrs_eq = record { beq = beq_attrs; beq_iff = beq_attrs_iff }
