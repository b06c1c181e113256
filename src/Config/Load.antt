-- ===== src/Config/Load.antt =====
-- Putting a configuration together and checking its groups against each other (src/config.rs).
pub mod Cross
pub mod Valid
pub mod Daemon
pub mod Assembled
mod Tests
use byssus.Base.{
  Bool, true, false, not, ◌&&◌, ◌||◌, Option, none, some, List, [], ◌∷◌, ◌++◌, map, if◌then◌else◌,
  Result, ok, err, ◌==◌, nat_eq, list_eq, Text, text,
}
use byssus.Base.Map
use byssus.Base.Map.{Map}
use byssus.Name.{Name, NameError, name_ord, from_bytes, display}
use byssus.Config.{AbsPath}
use byssus.Config.Groups.{GroupConfig, GroupSetConfig}
use byssus.Config.Paths.{is_at_or_beneath}
use byssus.Config.Issues.{
  Issue, Message, invalid_toml, daemon_in_fragment, invalid_group_name, group_defined,
  invalid_set_name, set_defined, beneath_own_target, beneath_target, overlaps, has_errors,
  add_error, RawFile, RawGroup, RawGroupSet, RawDaemon, Config,
}
use byssus.Config.Validate.{default_daemon, validate_group, validate_group_set, validate_daemon}

-- A membership location, and the target root that must not contain one.
pub record MembershipArea : Type 0 where
  pub label : Text
  pub origin : Text
  pub path : AbsPath
  pub target_root : AbsPath
  pub is_set : Bool

abbrev pub group_area : GroupConfig → MembershipArea
group_area g = record {
  label = display g.name;
  origin = g.origin;
  path = g.membership;
  target_root = g.target_root;
  is_set = false;
}

abbrev pub set_area : GroupSetConfig → MembershipArea
set_area set = record {
  label = set.name.str ++ text "/*";
  origin = set.origin;
  path = set.membership_root;
  target_root = set.target_root;
  is_set = true;
}

unfoldable pub areas_of : Config → List MembershipArea
unfolding display
areas_of config =
    map group_area (Map.values config.groups) ++ map set_area (Map.values config.group_sets)

unfoldable pub check_target : MembershipArea → MembershipArea → List Issue → List Issue
unfolding is_at_or_beneath
check_target area other issues =
    if is_at_or_beneath area.path other.target_root
    then add_error (some area.origin) (some area.label)
        (if area.label == other.label
          then beneath_own_target area.path other.target_root
          else beneath_target area.path other.target_root other.label)
        issues
    else issues

abbrev pub is_overlapping : MembershipArea → MembershipArea → Bool
is_overlapping area other =
    not (area.label == other.label)
    && (other.is_set
        && (is_at_or_beneath area.path other.path || is_at_or_beneath other.path area.path))

unfoldable pub check_overlap : MembershipArea → MembershipArea → List Issue → List Issue
unfolding is_at_or_beneath
check_overlap area other issues =
    if is_overlapping area other
    then add_error (some area.origin) (some area.label) (overlaps area.path other.path other.label)
        issues
    else issues

-- One area against all.
unfoldable pub check_area : MembershipArea → List MembershipArea → List Issue → List Issue
unfolding check_target check_overlap
check_area area [] issues = issues
check_area area (other ∷ others) issues =
    check_area area others (check_overlap area other (check_target area other issues))

unfoldable pub check_areas : List MembershipArea → List MembershipArea → List Issue → List Issue
unfolding check_area
check_areas [] all issues = issues
check_areas (area ∷ areas) all issues = check_areas areas all (check_area area all issues)

unfoldable pub check_cross_group : Config → List Issue → List Issue
unfolding check_areas areas_of
check_cross_group config issues = check_areas (areas_of config) (areas_of config) issues

-- The variables of `assemble`.
pub record Assembly : Type 0 where
  pub config : Config
  pub origins : Map Name Text
  pub set_origins : Map Name Text
  pub issues : List Issue

abbrev pub with_issue : Option Text → Option Text → Message → Assembly → Assembly
with_issue file group message a = record a { issues = add_error file group message a.issues }

abbrev pub add_daemon : Text → Bool → Option RawDaemon → Assembly → Assembly
add_daemon path is_main none a = a
add_daemon path is_main (some raw) a =
    let (daemon, issues) = validate_daemon path raw a.issues in
    if is_main
    then record a { config = record a.config { daemon = daemon }; issues = issues }
    else with_issue (some path) none daemon_in_fragment a

abbrev pub put_group : Name → Option GroupConfig → Config → Config
put_group name none c = c
put_group name (some g) c = record c { groups = Map.insert name g c.groups }

-- A group whose name is one, if it is new.
abbrev pub define_group : Text → Text → RawGroup → Name → Option Text → Assembly → Assembly
define_group path label raw name (some first) a =
    with_issue (some path) (some label) (group_defined first) a
define_group path label raw name none a =
    let (g, issues) = validate_group name raw path a.issues in
    record a {
      config = put_group name g a.config;
      origins = Map.insert name path a.origins;
      issues = issues;
    }

abbrev pub named_group : Text → Text → RawGroup → Result NameError Name → Assembly → Assembly
named_group path label raw (err e) a = with_issue (some path) (some label) (invalid_group_name e) a
named_group path label raw (ok name) a = define_group path label raw name (Map.get name a.origins) a

unfoldable pub add_groups : Text → Map Text RawGroup → Assembly → Assembly
unfolding from_bytes validate_group
add_groups path [] a = a
add_groups path ((group_name, raw) ∷ groups) a =
    add_groups path groups (named_group path group_name raw (from_bytes group_name) a)

abbrev pub put_set : Name → Option GroupSetConfig → Config → Config
put_set name none c = c
put_set name (some set) c = record c { group_sets = Map.insert name set c.group_sets }

abbrev pub define_set : Text → Text → RawGroupSet → Name → Option Text → Assembly → Assembly
define_set path label raw name (some first) a =
    with_issue (some path) (some label) (set_defined first) a
define_set path label raw name none a =
    let (set, issues) = validate_group_set name raw path a.issues in
    record a {
      config = put_set name set a.config;
      set_origins = Map.insert name path a.set_origins;
      issues = issues;
    }

abbrev pub named_set : Text → Text → RawGroupSet → Result NameError Name → Assembly → Assembly
named_set path label raw (err e) a = with_issue (some path) (some label) (invalid_set_name e) a
named_set path label raw (ok name) a = define_set path label raw name (Map.get name a.set_origins) a

unfoldable pub add_sets : Text → Map Text RawGroupSet → Assembly → Assembly
unfolding from_bytes validate_group_set
add_sets path [] a = a
add_sets path ((set_name, raw) ∷ sets) a =
    add_sets path sets (named_set path (set_name ++ text "/*") raw (from_bytes set_name) a)

abbrev pub add_file : Text → Assembly → Assembly
add_file path a = record a { config = record a.config { files = a.config.files ++ (path ∷ []) } }

-- The files, each with whether it is the main one.
unfoldable pub add_files : List (Text × (RawFile × Bool)) → Assembly → Assembly
unfolding add_groups add_sets validate_daemon
add_files [] a = a
add_files ((path, (raw, is_main)) ∷ files) a =
    let started = add_daemon path is_main raw.daemon (add_file path a) in
    add_files files (add_sets path raw.group_sets (add_groups path raw.groups started))

abbrev pub empty_assembly : List Issue → Assembly
empty_assembly issues = record {
  config = record { daemon = default_daemon; groups = []; group_sets = []; files = [] };
  origins = [];
  set_origins = [];
  issues = issues;
}

unfoldable pub assemble : List (Text × (RawFile × Bool)) → List Issue → Config × List Issue
unfolding add_files check_cross_group
assemble files issues =
    let a = add_files files (empty_assembly issues) in
    (a.config, check_cross_group a.config a.issues)

pub record Loaded : Type 0 where
  pub config : Config
  pub warnings : List Issue

-- The parser of the format is a library's.
module _ (from_toml : Text → Result Text RawFile) where
  abbrev pub add_parsed :
      Text
      → Bool
      → Result Text RawFile
      → List (Text × (RawFile × Bool)) × List Issue
      → List (Text × (RawFile × Bool)) × List Issue
  add_parsed path is_main (ok raw) (files, issues) =
      (files ++ ((path, (raw, is_main)) ∷ []), issues)
  add_parsed path is_main (err e) (files, issues) =
      (files, add_error (some path) none (invalid_toml e) issues)

  unfoldable pub parse_documents :
      List (Text × (Text × Bool))
      → List (Text × (RawFile × Bool)) × List Issue
      → List (Text × (RawFile × Bool)) × List Issue
  parse_documents [] s = s
  parse_documents ((path, (content, is_main)) ∷ documents) s =
      parse_documents documents (add_parsed path is_main (from_toml content) s)

  -- Any error refuses the configuration; the error is all issues.
  unfoldable pub load_from_strs : List (Text × (Text × Bool)) → Result (List Issue) Loaded
  unfolding parse_documents assemble has_errors
  load_from_strs documents =
      let (files, issues) = parse_documents documents ([], []) in
      let (config, issues') = assemble files issues in
      if has_errors issues'
      then err issues'
      else ok (record { config = config; warnings = issues' })
