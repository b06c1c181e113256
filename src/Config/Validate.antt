-- ===== src/Config/Validate.antt =====
-- Validation of one group, one set and the daemon's settings (src/config.rs).
use byssus.Base.{
  ℕ, ◌+◌, zero, suc, ltb, leb, Bool, true, false, not, ◌&&◌, Option, none, some, List, [], ◌∷◌,
  ◌++◌, length, all, is_empty, get_or, if◌then◌else◌, Result, ok, err, ◌==◌, nat_eq, Text, text,
}
use mathlib.Core.Option
use byssus.Name.{Name, is_allowed_byte, statically}
use byssus.Config.{AbsPath, MountAttrs}
use byssus.Config.Groups.{GroupConfig, GroupSetConfig}
use byssus.Config.Paths.{AbsPathError, new}
use byssus.Config.Issues.{
  Issue, bad_path, bad_template, bad_user, bad_interval, add_error, RawGroup, RawGroupSet,
  RawDaemon, DaemonConfig,
}
use byssus.Template.{
  Template, TemplateError, missing_level, parse, parse_for_set, group_placeholder,
  subgroup_placeholder,
}
use byssus.Template.Interpolation.{depth, has_level, max}

-- What a check gives, with the issues so far.
abbrev pub Checked : Type 0 → Type 0
Checked A = List Issue → A × List Issue

abbrev pub default_attrs : MountAttrs
default_attrs = record { read_only = true; noexec = true; nosymfollow = false }

abbrev attrs_of : Option Bool → Option Bool → Option Bool → MountAttrs
attrs_of read_only noexec nosymfollow = record {
  read_only = Option.get_or read_only default_attrs.read_only;
  noexec = Option.get_or noexec default_attrs.noexec;
  nosymfollow = Option.get_or nosymfollow default_attrs.nosymfollow;
}

abbrev pub max_resync_interval_secs : ℕ
max_resync_interval_secs = 86400

abbrev pub default_daemon : DaemonConfig
default_daemon = record {
  user = none;
  state_dir = record { components = text "var" ∷ text "lib" ∷ text "byssus" ∷ [] };
  resync_interval = some 60;
}

module _ (file : Text) (group : Option Text) where
  abbrev pub path_or_issue : Text → Result AbsPathError AbsPath → Checked (Option AbsPath)
  path_or_issue field (ok p) issues = (some p, issues)
  path_or_issue field (err e) issues = (none, add_error (some file) group (bad_path field e) issues)

  -- The closure `abs`
  unfoldable pub check_abs : Text → Text → Checked (Option AbsPath)
  unfolding new
  check_abs field value = path_or_issue field (new value)

  -- The closure `template`
  abbrev pub check_template : Text → Result TemplateError Template → Checked (Option Template)
  check_template field (ok t) issues = (some t, issues)
  check_template field (err e) issues =
      (none, add_error (some file) group (bad_template field e) issues)

-- The parts of a group, if all of them are there.
abbrev pub group_of :
    Name
    → RawGroup
    → Text
    → Option AbsPath
    → Option Template
    → Option AbsPath
    → Option Template
    → Option AbsPath
    → Option GroupConfig
group_of name raw path (some source_root) (some source) (some target_root) (some target)
      (some membership) =
    some (record {
      name = statically name;
      source_root = source_root;
      source = source;
      target_root = target_root;
      target = target;
      membership = membership;
      attrs = attrs_of raw.read_only raw.noexec raw.nosymfollow;
      origin = path;
    })
group_of name raw path _ _ _ _ _ = none

unfoldable pub validate_group : Name → RawGroup → Text → Checked (Option GroupConfig)
unfolding check_abs parse
validate_group name raw path i =
    let g = some name.str in
    let (source_root, i1) = check_abs path g (text "source_root") raw.source_root i in
    let (target_root, i2) = check_abs path g (text "target_root") raw.target_root i1 in
    let (membership, i3) = check_abs path g (text "membership") raw.membership i2 in
    let (source, i4) = check_template path g (text "source") (parse raw.source) i3 in
    let (target, i5) = check_template path g (text "target") (parse raw.target) i4 in
    (group_of name raw path source_root source target_root target membership, i5)

-- `max` of both depths and 1
abbrev pub depth_of : Option Template → Option Template → ℕ
depth_of (some source) (some target) = max (max (depth source) (depth target)) 1
depth_of _ _ = 1

-- The first of the levels from `level` on that the target lacks.
unfoldable pub missing_from : Template → ℕ → ℕ → Option ℕ
unfolding has_level
missing_from target level zero = none
missing_from target level (suc n) =
    let rest = missing_from target (level + 1) n in
    if has_level target level then rest else some level

abbrev pub level_placeholder : ℕ → Text
level_placeholder zero = group_placeholder
level_placeholder (suc l) = subgroup_placeholder

abbrev pub missing_of : Option Template → ℕ → Option ℕ
missing_of none d = none
missing_of (some target) d = missing_from target 0 d

abbrev pub set_of :
    Name
    → RawGroupSet
    → Text
    → ℕ
    → Option AbsPath
    → Option AbsPath
    → Option Template
    → Option AbsPath
    → Option Template
    → Option GroupSetConfig
set_of name raw path d (some membership_root) (some source_root) (some source) (some target_root)
      (some target) =
    some (record {
      name = name;
      membership_root = membership_root;
      source_root = source_root;
      source = source;
      target_root = target_root;
      target = target;
      depth = d;
      attrs = attrs_of raw.read_only raw.noexec raw.nosymfollow;
      origin = path;
    })
set_of name raw path d _ _ _ _ _ = none

abbrev pub unless_missing :
    Text → Option Text → Option ℕ → Option GroupSetConfig → Checked (Option GroupSetConfig)
unless_missing path label (some level) set issues = (
  none,
  add_error (some path) label
      (bad_template (text "target") (missing_level (level_placeholder level))) issues,
)
unless_missing path label none set issues = (set, issues)

unfoldable pub validate_group_set : Name → RawGroupSet → Text → Checked (Option GroupSetConfig)
unfolding check_abs parse_for_set depth missing_from
validate_group_set name raw path i =
    let label = some (name.str ++ text "/*") in
    let (membership_root, i1) =
      check_abs path label (text "membership_root") raw.membership_root i in
    let (source_root, i2) = check_abs path label (text "source_root") raw.source_root i1 in
    let (target_root, i3) = check_abs path label (text "target_root") raw.target_root i2 in
    let (source, i4) = check_template path label (text "source") (parse_for_set raw.source) i3 in
    let (target, i5) = check_template path label (text "target") (parse_for_set raw.target) i4 in
    let d = depth_of source target in
    unless_missing path label (missing_of target d)
      (set_of name raw path d membership_root source_root source target_root target) i5

-- `strip_suffix('$')`, or the text itself
abbrev pub drop_dollar : Text → Text
drop_dollar [] = []
drop_dollar (c ∷ []) = if c == b'$' then [] else c ∷ []
drop_dollar (c ∷ d ∷ s) = c ∷ drop_dollar (d ∷ s)

-- The bytes are those of names.
unfoldable pub is_valid_user_name : Text → Bool
unfolding is_allowed_byte
is_valid_user_name user =
    let body = drop_dollar user in
    not (is_empty body)
    && (leb (length user) 32 && (not (get_or body 0 0 == b'-') && all is_allowed_byte body))

module _ (path : Text) where
  abbrev pub set_user : Option Text → DaemonConfig → Checked DaemonConfig
  set_user none d i = (d, i)
  set_user (some user) d i =
      if is_valid_user_name user
      then (record d { user = some user }, i)
      else (d, add_error (some path) none (bad_user user) i)

  abbrev pub set_state_dir : Option AbsPath → DaemonConfig → DaemonConfig
  set_state_dir none d = d
  set_state_dir (some p) d = record d { state_dir = p }

  abbrev pub check_state_dir : Option Text → DaemonConfig → Checked DaemonConfig
  check_state_dir none d i = (d, i)
  check_state_dir (some dir) d i =
      let (p, i') = check_abs path none (text "daemon.state_dir") dir i in (set_state_dir p d, i')

  abbrev pub set_interval : Option ℕ → DaemonConfig → Checked DaemonConfig
  set_interval none d i = (d, i)
  set_interval (some secs) d i =
      if ltb max_resync_interval_secs secs
      then (d, add_error (some path) none (bad_interval secs) i)
      else (record d { resync_interval = if secs == 0 then none else some secs }, i)

  unfoldable pub validate_daemon : RawDaemon → Checked DaemonConfig
  unfolding is_valid_user_name check_abs
  validate_daemon raw i =
      let (d1, i1) = set_user raw.user default_daemon i in
      let (d2, i2) = check_state_dir raw.state_dir d1 i1 in
      set_interval raw.resync_interval_secs d2 i2
