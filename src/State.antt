-- ===== src/State.antt =====
-- The in-memory state (src/state.rs): the records of the mounts that Byssus created, by member.
pub mod Laws
pub mod Codec
use byssus.Base.{ℕ, ◌≡◌, Bool, Option, List, Text, Eq, Ord, eq_of_ord, ord_fields}
use byssus.Base.Map
use byssus.Base.Map.{Map}
use byssus.Name.{Name, GroupId, group_ord, name_ord}
use byssus.Identity.{MountIdentity}
use byssus.Config.{AbsPath, MountAttrs}

-- Points of time are only carried, never computed with.
abbrev pub Timestamp : Type 0
Timestamp = ℕ

pub record RecordKey : Type 0 where
  pub group : GroupId
  pub name : Name

pub RecordKey-inj : (a b : RecordKey) → a.group ≡ b.group → a.name ≡ b.name → a ≡ b
RecordKey-inj a b e f = λ i. record { group = e i; name = f i }

instance abbrev pub key_ord : Ord RecordKey
key_ord = ord_fields (λ k. k.group) (λ k. k.name) RecordKey-inj

instance abbrev pub key_eq : Eq RecordKey
key_eq = eq_of_ord key_ord

pub record MountRecord : Type 0 where
  pub group : GroupId
  pub name : Name
  pub source_root : AbsPath
  pub source : Text
  pub target_root : AbsPath
  pub target : Text
  pub mnt_id : ℕ
  pub mnt_id_unique : Option ℕ
  pub root_dev_major : ℕ
  pub root_dev_minor : ℕ
  pub root_ino : ℕ
  pub read_only : Bool
  pub noexec : Bool
  pub nosymfollow : Bool
  pub created_at : Timestamp

abbrev pub identity : MountRecord → MountIdentity
identity r = record {
  mnt_id = r.mnt_id;
  mnt_id_unique = r.mnt_id_unique;
  root = record { dev_major = r.root_dev_major; dev_minor = r.root_dev_minor; ino = r.root_ino };
}

abbrev pub attrs : MountRecord → MountAttrs
attrs r = record { read_only = r.read_only; noexec = r.noexec; nosymfollow = r.nosymfollow }

abbrev pub key : MountRecord → RecordKey
key r = record { group = r.group; name = r.name }

pub record State : Type 0 where
  -- the source's field `records`; the method of that name is below
  pub entries : Map RecordKey MountRecord

abbrev pub default : State
default = record { entries = List.[] }

unfoldable pub get : State → RecordKey → Option MountRecord
get s k = Map.get k s.entries

-- The previous record of the member comes back beside the new state.
unfoldable pub insert : State → MountRecord → State × Option MountRecord
insert s r = (record s { entries = Map.insert (key r) r s.entries }, Map.get (key r) s.entries)

unfoldable pub remove : State → RecordKey → State × Option MountRecord
remove s k = (record s { entries = Map.remove k s.entries }, Map.get k s.entries)

-- Ordered by group, then member.
unfoldable pub records : State → List MountRecord
records s = Map.values s.entries
