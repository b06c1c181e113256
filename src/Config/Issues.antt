-- ===== src/Config/Issues.antt =====
-- The problems of a configuration, and its format before validation (src/config.rs).
use byssus.Base.{ℕ, Bool, true, false, Option, List, [], ◌∷◌, ◌++◌, any, Text}
use byssus.Base.Map.{Map}
use byssus.Name.{Name, NameError}
use byssus.Config.{AbsPath}
use byssus.Config.Groups.{GroupConfig, GroupSetConfig}
use byssus.Config.Paths.{AbsPathError}
use byssus.Template.{TemplateError}

pub data Severity : Type 0 where
  warning : Severity
  error : Severity

-- The data of the messages.
pub data Message : Type 0 where
  invalid_toml : Text → Message
  daemon_in_fragment : Message
  invalid_group_name : NameError → Message
  group_defined : Text → Message
  invalid_set_name : NameError → Message
  set_defined : Text → Message
  bad_path : Text → AbsPathError → Message
  bad_template : Text → TemplateError → Message
  bad_user : Text → Message
  bad_interval : ℕ → Message
  beneath_own_target : AbsPath → AbsPath → Message
  beneath_target : AbsPath → AbsPath → Text → Message
  overlaps : AbsPath → AbsPath → Text → Message

pub record Issue : Type 0 where
  pub severity : Severity
  pub file : Option Text
  pub group : Option Text
  pub message : Message

abbrev pub is_error : Severity → Bool
is_error error = true
is_error warning = false

unfoldable pub has_errors : List Issue → Bool
has_errors = any (λ i. is_error i.severity)

-- `Issues::error`
abbrev pub add_error : Option Text → Option Text → Message → List Issue → List Issue
add_error file group message issues =
    issues ++ (record { severity = error; file = file; group = group; message = message } ∷ [])

pub record RawGroup : Type 0 where
  pub source_root : Text
  pub source : Text
  pub target_root : Text
  pub target : Text
  pub membership : Text
  pub read_only : Option Bool
  pub noexec : Option Bool
  pub nosymfollow : Option Bool

pub record RawGroupSet : Type 0 where
  pub membership_root : Text
  pub source_root : Text
  pub source : Text
  pub target_root : Text
  pub target : Text
  pub read_only : Option Bool
  pub noexec : Option Bool
  pub nosymfollow : Option Bool

pub record RawDaemon : Type 0 where
  pub user : Option Text
  pub state_dir : Option Text
  pub resync_interval_secs : Option ℕ

pub record RawFile : Type 0 where
  pub daemon : Option RawDaemon
  pub groups : Map Text RawGroup
  pub group_sets : Map Text RawGroupSet

pub record DaemonConfig : Type 0 where
  pub user : Option Text
  pub state_dir : AbsPath
  pub resync_interval : Option ℕ

pub record Config : Type 0 where
  pub daemon : DaemonConfig
  pub groups : Map Name GroupConfig
  pub group_sets : Map Name GroupSetConfig
  pub files : List Text
