-- ===== src/Reconcile/Types.antt =====
-- The data of planning (src/reconcile/plan.rs): desired mounts, observations, actions, findings.
use byssus.Base.{
  if◌then◌else◌, is_empty, slash, ◌∷◌, ◌++◌, ℕ, ◌≡◌, Bool, ◌&&◌, ◌||◌, not, Option, List, Text, Eq,
  Ord, nat_ord, list_ord, eq_of_ord, ord_fields,
}
use byssus.Base.Map.{Map}
use byssus.Name.{GroupId}
use byssus.Identity.{DevIno, MountIdentity}
use byssus.Config.{AbsPath, path_text, abs_path_ord, MountAttrs}
use byssus.State.{RecordKey, MountRecord, State}

-- A path beneath a trusted root.
pub record Location : Type 0 where
  pub root : AbsPath
  pub path : Text

pub Location-inj : (a b : Location) → a.root ≡ b.root → a.path ≡ b.path → a ≡ b
Location-inj a b e f = λ i. record { root = e i; path = f i }

instance abbrev pub location_ord : Ord Location
location_ord = ord_fields (λ l. l.root) (λ l. l.path) Location-inj

instance abbrev pub location_eq : Eq Location
location_eq = eq_of_ord location_ord

-- `Display` of a location: a slash between the root and the path, but one alone if the root is `/`.
abbrev pub location_text : Location → Text
location_text l =
    if is_empty l.root.components then slash ∷ l.path else path_text l.root ++ (slash ∷ l.path)

abbrev pub source_location : MountRecord → Location
source_location r = record { root = r.source_root; path = r.source }

abbrev pub target_location : MountRecord → Location
target_location r = record { root = r.target_root; path = r.target }

pub record DesiredMount : Type 0 where
  pub key : RecordKey
  pub source : Location
  pub target : Location
  pub attrs : MountAttrs

pub record ObservedAttrs : Type 0 where
  pub read_only : Bool
  pub nosuid : Bool
  pub nodev : Bool
  pub noexec : Bool
  pub nosymfollow : Bool

-- Whether the observed attributes enforce at least the configured restrictions.
unfoldable pub enforce : ObservedAttrs → MountAttrs → Bool
enforce a required =
    a.nosuid
    && (a.nodev
        && ((a.read_only || not required.read_only)
            && ((a.noexec || not required.noexec) && (a.nosymfollow || not required.nosymfollow))))

pub data SourceState : Type 0 where
  resolved : DevIno → SourceState
  unavailable : Text → SourceState

pub data TargetState : Type 0 where
  not_mounted : TargetState
  mounted : MountIdentity → Option ObservedAttrs → TargetState
  unavailable : Text → TargetState

pub record Observations : Type 0 where
  pub sources : Map RecordKey SourceState
  pub targets : Map Location TargetState

pub record PlanInput : Type 0 where
  pub desired : List DesiredMount
  pub state : State
  pub frozen_groups : List GroupId
  pub observations : Observations

pub data UnmountReason : Type 0 where
  not_member : UnmountReason
  relocated : UnmountReason
  source_gone : Text → UnmountReason
  source_changed : UnmountReason
  target_collision : UnmountReason
  attributes_changed : UnmountReason
  attributes_drifted : UnmountReason

pub data DropReason : Type 0 where
  mount_gone : DropReason
  foreign_mount_at_target : DropReason
  source_unavailable : Text → DropReason

pub data Action : Type 0 where
  unmount : MountRecord → UnmountReason → Action
  drop_record : MountRecord → DropReason → Action
  mount : DesiredMount → Action

-- Unmounts and record drops come before mounts.
unfoldable pub phase : Action → ℕ
phase (unmount r reason) = 0
phase (drop_record r reason) = 0
phase (mount d) = 1

pub record Step : Type 0 where
  pub action : Action
  pub depends_on : List ℕ

pub data ConflictKind : Type 0 where
  foreign_mount : ConflictKind
  target_replaced : ConflictKind

pub data Finding : Type 0 where
  conflict : RecordKey → Location → ConflictKind → Finding
  source_unavailable : RecordKey → Location → Text → Finding
  target_unavailable : RecordKey → Location → Text → Finding
  target_collision : Location → List RecordKey → Option RecordKey → Finding
  relocation_blocked : RecordKey → Location → Finding

pub record Plan : Type 0 where
  pub steps : List Step
  pub findings : List Finding
