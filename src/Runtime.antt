-- ===== src/Runtime.antt =====
-- Open directories of groups and sets, and the discovery of a set's groups (src/runtime.rs).
pub mod Scan
use byssus.Base.{
  Bool, true, false, not, Option, none, some, List, [], ◌∷◌, ◌++◌, if◌then◌else◌, Result, ok, err,
  Text,
}
use byssus.Base.Exec.{Exec}
use byssus.Base.Map
use byssus.Base.Map.{Map}
use byssus.Base.Set
use byssus.Name.{Name, GroupId, name_ord, group_ord}
use byssus.Config.{AbsPath}
use byssus.Config.Groups.{GroupConfig, GroupSetConfig}
use byssus.System.{System}
use byssus.Reconcile.Notes.{Note}

abbrev pub is_static : GroupId → Bool
is_static g = elim g.set [ none ↦ true | some set ↦ false ]

module _ (sys : System) where
  open sys use {World, Fd, Errno}

  pub record GroupRuntime : Type 0 where
    pub config : GroupConfig
    pub membership_dir : Fd

  pub record SetRuntime : Type 0 where
    pub config : GroupSetConfig
    pub root_dir : Fd

  pub record Runtime : Type 0 where
    pub groups : Map GroupId GroupRuntime
    pub sets : Map Name SetRuntime
    pub intermediates : Map GroupId AbsPath
    pub roots : Map AbsPath Fd

  pub record Discovery : Type 0 where
    pub notes : List Note
    pub unavailable : List GroupId
    pub unavailable_sets : List Name
    pub scanned_sets : List Name

  pub record SetScan : Type 0 where
    pub groups : List GroupRuntime
    pub intermediates : List (GroupId × AbsPath)
    pub notes : List Note
    pub unavailable : List GroupId

  abbrev pub empty_scan : SetScan
  empty_scan = record { groups = []; intermediates = []; notes = []; unavailable = [] }
