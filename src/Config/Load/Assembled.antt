-- ===== src/Config/Load/Assembled.antt =====
-- The groups and sets of a configuration that was put together (src/config.rs, `assemble`).
use byssus.Base.{
  inl, inr, Bool, true, false, Bool-cases, if◌then◌else◌, Option, none, some, List, [], ◌∷◌, ◌++◌,
  All, Result, ok, err, Yields, Text, text,
}
use byssus.Base.Map
use byssus.Base.Map.{Map}
use byssus.Name.{Name, NameError, name_ord, from_bytes}
use byssus.Config.Groups.{GroupConfig, GroupSetConfig}
use byssus.Config.Issues.{Issue, RawFile, RawGroup, RawGroupSet, RawDaemon, Config, has_errors}
use byssus.Config.Load.{
  Assembly, add_daemon, put_group, define_group, named_group, add_groups, put_set, define_set,
  named_set, add_sets, add_file, add_files, empty_assembly, assemble, Loaded, parse_documents,
  load_from_strs,
}
use byssus.Config.Load.Valid.{
  Holds, IsGroup, IsGroupSet, validate_group-IsGroup, validate_group_set-IsGroupSet,
}
use byssus.Config.Load.Daemon.{IsDaemon, default_daemon-IsDaemon, validate_daemon-IsDaemon}
use byssus.Config.Load.Cross.{IsFine, IsDisjoint, check_cross_group-IsDisjoint}

-- Valid settings of the daemon; every group and every set is a valid one, and stands under its name.
pub record IsConfig (c : Config) : Type 0 where
  pub daemon : IsDaemon c.daemon
  pub groups : All (λ e. IsGroup e.0 e.1) c.groups
  pub group_sets : All (λ e. IsGroupSet e.0 e.1) c.group_sets

put_group-IsConfig :
    (name : Name) (g : Option GroupConfig) (c : Config)
    → Holds (IsGroup name) g
    → IsConfig c
    → IsConfig (put_group name g c)
put_group-IsConfig name none c h v = v
put_group-IsConfig name (some g) c h v = record {
  daemon = v.daemon;
  groups = Map.All-insert (λ e. IsGroup e.0 e.1) name g c.groups h v.groups;
  group_sets = v.group_sets;
}

put_set-IsConfig :
    (name : Name) (set : Option GroupSetConfig) (c : Config)
    → Holds (IsGroupSet name) set
    → IsConfig c
    → IsConfig (put_set name set c)
put_set-IsConfig name none c h v = v
put_set-IsConfig name (some set) c h v = record {
  daemon = v.daemon;
  groups = v.groups;
  group_sets = Map.All-insert (λ e. IsGroupSet e.0 e.1) name set c.group_sets h v.group_sets;
}

define_group-IsConfig :
    (path label : Text) (raw : RawGroup) (name : Name) (first : Option Text) (a : Assembly)
    → IsConfig a.config
    → IsConfig (define_group path label raw name first a).config
define_group-IsConfig path label raw name (some first) a v = v
define_group-IsConfig path label raw name none a v =
    put_group-IsConfig name _ a.config (validate_group-IsGroup name raw path a.issues) v

define_set-IsConfig :
    (path label : Text) (raw : RawGroupSet) (name : Name) (first : Option Text) (a : Assembly)
    → IsConfig a.config
    → IsConfig (define_set path label raw name first a).config
define_set-IsConfig path label raw name (some first) a v = v
define_set-IsConfig path label raw name none a v =
    put_set-IsConfig name _ a.config (validate_group_set-IsGroupSet name raw path a.issues) v

named_group-IsConfig :
    (path label : Text) (raw : RawGroup) (r : Result NameError Name) (a : Assembly)
    → IsConfig a.config
    → IsConfig (named_group path label raw r a).config
named_group-IsConfig path label raw (err e) a v = v
named_group-IsConfig path label raw (ok name) a v =
    define_group-IsConfig path label raw name (Map.get name a.origins) a v

named_set-IsConfig :
    (path label : Text) (raw : RawGroupSet) (r : Result NameError Name) (a : Assembly)
    → IsConfig a.config
    → IsConfig (named_set path label raw r a).config
named_set-IsConfig path label raw (err e) a v = v
named_set-IsConfig path label raw (ok name) a v =
    define_set-IsConfig path label raw name (Map.get name a.set_origins) a v

add_groups-IsConfig :
    (path : Text) (groups : Map Text RawGroup) (a : Assembly)
    → IsConfig a.config
    → IsConfig (add_groups path groups a).config
unfolding add_groups
add_groups-IsConfig path [] a v = v
add_groups-IsConfig path ((name, raw) ∷ groups) a v =
    add_groups-IsConfig path groups (named_group path name raw (from_bytes name) a)
      (named_group-IsConfig path name raw (from_bytes name) a v)

add_sets-IsConfig :
    (path : Text) (sets : Map Text RawGroupSet) (a : Assembly)
    → IsConfig a.config
    → IsConfig (add_sets path sets a).config
unfolding add_sets
add_sets-IsConfig path [] a v = v
add_sets-IsConfig path ((name, raw) ∷ sets) a v =
    add_sets-IsConfig path sets (named_set path (name ++ text "/*") raw (from_bytes name) a)
      (named_set-IsConfig path (name ++ text "/*") raw (from_bytes name) a v)

add_daemon-IsConfig :
    (path : Text) (is_main : Bool) (raw : Option RawDaemon) (a : Assembly)
    → IsConfig a.config
    → IsConfig (add_daemon path is_main raw a).config
add_daemon-IsConfig path is_main none a v = v
add_daemon-IsConfig path true (some raw) a v = record {
  daemon = validate_daemon-IsDaemon path raw a.issues;
  groups = v.groups;
  group_sets = v.group_sets;
}
add_daemon-IsConfig path false (some raw) a v = v

add_files-IsConfig :
    (files : List (Text × (RawFile × Bool))) (a : Assembly)
    → IsConfig a.config
    → IsConfig (add_files files a).config
unfolding add_files
add_files-IsConfig [] a v = v
add_files-IsConfig ((path, (raw, is_main)) ∷ files) a v = add_files-IsConfig files _ (
    add_sets-IsConfig path raw.group_sets _ (
      add_groups-IsConfig path raw.groups _ (
        add_daemon-IsConfig path is_main raw.daemon (add_file path a)
          (record { daemon = v.daemon; groups = v.groups; group_sets = v.group_sets }))))

-- The configuration that the files give, before its groups are checked against each other.
abbrev pub config_of : List (Text × (RawFile × Bool)) → List Issue → Config
config_of files issues = (add_files files (empty_assembly issues)).config

config_of-IsConfig :
    (files : List (Text × (RawFile × Bool))) (issues : List Issue)
    → IsConfig (config_of files issues)
config_of-IsConfig files issues =
    add_files-IsConfig files (empty_assembly issues)
      (record { daemon = default_daemon-IsDaemon; groups = tt; group_sets = tt })

assemble-IsDisjoint :
    (files : List (Text × (RawFile × Bool))) (issues : List Issue)
    → IsFine (assemble files issues).1
    → IsDisjoint (assemble files issues).0
unfolding assemble
assemble-IsDisjoint files issues h =
    (check_cross_group-IsDisjoint (config_of files issues)
      (add_files files (empty_assembly issues)).issues h).1

accepted-Yields :
    (P : Loaded → Type 0) (config : Config) (issues : List Issue)
    → (IsFine issues → P (record { config = config; warnings = issues }))
    → Yields P (
        if has_errors issues
        then err issues
        else ok (record { config = config; warnings = issues }))
accepted-Yields P config issues h = elim (Bool-cases (has_errors issues)) [
  | inl e ↦ rw e tt
  | inr e ↦ rw e (h e)
]

module _ (from_toml : Text → Result Text RawFile) (documents : List (Text × (Text × Bool))) where
  abbrev files : List (Text × (RawFile × Bool))
  files = (parse_documents from_toml documents ([], [])).0

  abbrev refused : List Issue
  refused = (parse_documents from_toml documents ([], [])).1

  -- Every configuration that is accepted is valid: the daemon's state directory is a plain path, its
  -- user's name may be one, its interval, if there is one, is not 0 and at most a day; every group
  -- and every set stands under its own name, its roots and its membership are plain paths, and its
  -- templates are templates, those of a group without levels; a set's depth is that of its
  -- templates, at least 1, and its target has every level below it.
  pub load_from_strs-IsConfig :
      Yields (λ loaded. IsConfig loaded.config) (load_from_strs from_toml documents)
  unfolding load_from_strs assemble
  load_from_strs-IsConfig =
      accepted-Yields (λ loaded. IsConfig loaded.config) (config_of files refused)
        (assemble files refused).1 (λ h. config_of-IsConfig files refused)

  -- In every configuration that is accepted, no membership directory stands at or beneath the target
  -- root of any group or set, its own included, and the membership root of a set neither contains
  -- nor is contained in the membership of another group or set.
  pub load_from_strs-IsDisjoint :
      Yields (λ loaded. IsDisjoint loaded.config) (load_from_strs from_toml documents)
  unfolding load_from_strs
  load_from_strs-IsDisjoint =
      accepted-Yields (λ loaded. IsDisjoint loaded.config) (assemble files refused).0
        (assemble files refused).1 (assemble-IsDisjoint files refused)
