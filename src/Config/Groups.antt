-- ===== src/Config/Groups.antt =====
-- Groups and group sets (src/config.rs).
use byssus.Base.{
  ℕ, ◌==◌, nat_eq, if◌then◌else◌, List, [], ◌∷◌, ◌++◌, length, Result, ok, err, ◌>>=◌, Text,
}
use byssus.Name.{Name, GroupId, in_set}
use byssus.Config.{AbsPath, MountAttrs}
use byssus.Template.{Template, InterpolateError, wrong_depth}
use byssus.Template.Interpolation.{bind_levels}

abbrev pub join_name : AbsPath → Name → AbsPath
join_name dir n = record { components = dir.components ++ (n.str ∷ []) }

abbrev pub join_names : AbsPath → List Name → AbsPath
join_names dir [] = dir
join_names dir (n ∷ ns) = join_names (join_name dir n) ns

pub record GroupConfig : Type 0 where
  pub name : GroupId
  pub source_root : AbsPath
  pub source : Template
  pub target_root : AbsPath
  pub target : Template
  pub membership : AbsPath
  pub attrs : MountAttrs
  pub origin : Text

pub record GroupSetConfig : Type 0 where
  pub name : Name
  pub membership_root : AbsPath
  pub source_root : AbsPath
  pub source : Template
  pub target_root : AbsPath
  pub target : Template
  pub depth : ℕ
  pub attrs : MountAttrs
  pub origin : Text

abbrev bound_group : GroupSetConfig → List Name → Result InterpolateError GroupConfig
bound_group set path = do
  source ← bind_levels set.source path
  target ← bind_levels set.target path
  ok (record {
    name = in_set set.name path;
    source_root = set.source_root;
    source = source;
    target_root = set.target_root;
    target = target;
    membership = join_names set.membership_root path;
    attrs = set.attrs;
    origin = set.origin;
  })

-- The configuration of the group at this path in the set.
unfoldable pub group : GroupSetConfig → List Name → Result InterpolateError GroupConfig
unfolding bind_levels
group set path = if length path == set.depth then bound_group set path else err wrong_depth
