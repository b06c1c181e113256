-- ===== src/Config/Load/Tests.antt =====
-- The configuration at concrete documents (src/config.rs).
use byssus.Base.{
  ℕ, ◌≡◌, refl, Bool, true, false, none, some, List, [], ◌∷◌, map, length, if◌then◌else◌, Result,
  ok, err, Yields, ◌==◌, list_eq, nat_eq, Text, text,
}
use byssus.Base.Map
use byssus.Config.Paths.{
  not_absolute, empty_component, dot_component, new, IsPlain, IsWritten, new-IsWritten,
}
use byssus.Config.Issues.{Issue, RawFile, RawGroup, RawGroupSet, RawDaemon}
use byssus.Config.Validate.{is_valid_user_name, validate_daemon, default_daemon}
use byssus.Config.Load.{Loaded, load_from_strs}
use byssus.Config.Load.Cross.{IsDisjoint}
use byssus.Config.Load.Assembled.{IsConfig, load_from_strs-IsConfig, load_from_strs-IsDisjoint}

abbrev backups : RawGroup
backups = record {
  source_root = text "/home";
  source = text "{name}/data";
  target_root = text "/srv/backups/";
  target = text "{name}";
  membership = text "/var/lib/backups";
  read_only = none;
  noexec = some false;
  nosymfollow = none;
}

abbrev projects : RawGroupSet
projects = record {
  membership_root = text "/etc/projects";
  source_root = text "/home";
  source = text "{name}";
  target_root = text "/srv/projects";
  target = text "{group}/{name}";
  read_only = some false;
  noexec = none;
  nosymfollow = none;
}

abbrev daemon : RawDaemon
daemon = record { user = some (text "byssus"); state_dir = none; resync_interval_secs = some 0 }

abbrev main_file : RawFile
main_file = record {
  daemon = some daemon;
  groups = (text "backups", backups) ∷ [];
  group_sets = [];
}

abbrev fragment : RawFile
fragment = record { daemon = none; groups = []; group_sets = (text "projects", projects) ∷ [] }

-- The membership of the group is moved into the set's root.
abbrev overlapping : RawFile
overlapping = record fragment {
  groups = (text "inner", record backups { membership = text "/etc/projects/inner" }) ∷ [];
}

abbrev from_toml : Text → Result Text RawFile
from_toml content =
    if content == text "main"
    then ok main_file
    else if content == text "fragment"
    then ok fragment
    else if content == text "overlapping"
    then ok overlapping
    else err (text "unexpected token")

abbrev documents : Text → List (Text × (Text × Bool))
documents second =
    (text "/etc/byssus.toml", (text "main", true))
    ∷ (text "/etc/byssus.d/a.toml", (second, false))
    ∷ []

load : Text → Result (List Issue) Loaded
unfolding load_from_strs Map.values Map.get Map.insert
load second = load_from_strs from_toml (documents second)

abbrev names_of : Result (List Issue) Loaded → List Text × List Text
names_of (ok loaded) =
    (map (λ e. e.0.str) loaded.config.groups, map (λ e. e.0.str) loaded.config.group_sets)
names_of (err e) = ([], [])

abbrev refusals : Result (List Issue) Loaded → ℕ
refusals (ok loaded) = 0
refusals (err issues) = length issues

loaded_names : names_of (load (text "fragment")) ≡ (text "backups" ∷ [], text "projects" ∷ [])
unfolding load
loaded_names = refl

refused_twice : refusals (load (text "main")) ≡ 2
unfolding load
refused_twice = refl

refused_overlap : refusals (load (text "overlapping")) ≡ 1
unfolding load
refused_overlap = refl

refused_syntax : refusals (load (text "nonsense")) ≡ 1
unfolding load
refused_syntax = refl

no_interval :
    (validate_daemon (text "a") daemon []).0
    ≡ record default_daemon { user = some (text "byssus"); resync_interval = none }
unfolding validate_daemon
no_interval = refl

user_dollar : is_valid_user_name (text "a$") ≡ true
unfolding is_valid_user_name
user_dollar = refl

user_dash : is_valid_user_name (text "-a") ≡ false
unfolding is_valid_user_name
user_dash = refl

load_from_strs-IsConfig_example :
    Yields
      (λ loaded. IsConfig loaded.config)
      (load_from_strs from_toml (documents (text "fragment")))
load_from_strs-IsConfig_example = load_from_strs-IsConfig from_toml (documents (text "fragment"))

load_from_strs-IsDisjoint_example :
    Yields
      (λ loaded. IsDisjoint loaded.config)
      (load_from_strs from_toml (documents (text "fragment")))
load_from_strs-IsDisjoint_example =
    load_from_strs-IsDisjoint from_toml (documents (text "fragment"))

new-IsWritten_example :
    Yields (λ p. IsPlain p × IsWritten (text "/srv/data/") p) (new (text "/srv/data/"))
new-IsWritten_example = new-IsWritten (text "/srv/data/")

new_slash : new (text "/srv/data/") ≡ ok record { components = text "srv" ∷ text "data" ∷ [] }
unfolding new
new_slash = refl

new_root : new (text "/") ≡ ok record { components = [] }
unfolding new
new_root = refl

new_relative : new (text "srv") ≡ err not_absolute
unfolding new
new_relative = refl

new_double : new (text "/srv//data") ≡ err empty_component
unfolding new
new_double = refl

new_dots : new (text "/srv/..") ≡ err (dot_component (text ".."))
unfolding new
new_dots = refl
