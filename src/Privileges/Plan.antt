-- ===== src/Privileges/Plan.antt =====
-- Which credential operations bring the process to its minimal state (src/privileges/plan.rs).
pub mod Kernel
pub mod Drop
pub mod Minimal
pub mod Promise
mod Tests
use mathlib.Core.Option
use byssus.Base.{
  ℕ, Bool, true, false, ◌&&◌, ◌||◌, not, Option, none, some, List, [], ◌∷◌, ◌++◌, if◌then◌else◌,
  Result, ok, err, ◌>>=◌, Text, text, contains, ◌==◌, nat_eq,
}

-- The library's constants for the secure bits (capabilities(7)).
pub data Flag : Type 0 where
  no_root : Flag
  no_root_locked : Flag
  no_setuid_fixup : Flag
  no_setuid_fixup_locked : Flag
  keep_caps : Flag
  keep_caps_locked : Flag
  no_cap_ambient_raise : Flag
  no_cap_ambient_raise_locked : Flag

-- Sets of capabilities and of secure bits, from the library that also makes the system calls.
pub record Capabilities : Type 1 where
  pub CapabilitySet : Type 0
  pub empty : CapabilitySet
  pub sys_admin : CapabilitySet
  pub setuid : CapabilitySet
  pub setgid : CapabilitySet
  pub setpcap : CapabilitySet
  pub union : CapabilitySet → CapabilitySet → CapabilitySet
  pub SecureBits : Type 0
  pub flag : Flag → SecureBits
  pub union_bits : SecureBits → SecureBits → SecureBits
  -- Whether the set has the flag.
  pub contains_flag : SecureBits → Flag → Bool
  -- Whether the first set has everything that the second has.
  pub has : CapabilitySet → CapabilitySet → Bool

pub record ServiceUser : Type 0 where
  pub name : Text
  pub uid : ℕ
  pub gid : ℕ
  pub groups : List ℕ

pub record FinalGroups : Type 0 where
  pub gid : ℕ
  pub groups : List ℕ

-- The primary group is also among the supplementary groups.
unfoldable pub final_groups : ServiceUser → FinalGroups
final_groups user = record {
  gid = user.gid;
  groups = if contains user.groups user.gid then user.groups else user.gid ∷ user.groups;
}

pub data Goal : Type 0 where
  keep_sys_admin : Goal
  drop_all : Goal

pub record Request : Type 0 where
  pub goal : Goal
  pub user : Option ServiceUser
  pub allow_root : Bool

pub data Warning : Type 0 where
  running_as_root : Warning
  user_not_applied : Text → ℕ → Warning

pub data PlanError : Type 0 where
  missing_sys_admin : PlanError
  root_without_user : PlanError
  service_user_is_root : Text → PlanError
  cannot_switch_user : Text → Text → PlanError

module _ (c : Capabilities) where
  open c use {
    CapabilitySet, empty, sys_admin, setuid, setgid, setpcap, union, SecureBits, flag, union_bits,
    has,
  }

  unfoldable pub locked_secure_bits : SecureBits
  locked_secure_bits =
      union_bits
        (union_bits
          (union_bits
            (union_bits
              (union_bits (union_bits (flag no_root) (flag no_root_locked)) (flag no_setuid_fixup))
              (flag no_setuid_fixup_locked))
            (flag keep_caps_locked))
          (flag no_cap_ambient_raise))
        (flag no_cap_ambient_raise_locked)

  pub record CapabilitySets : Type 0 where
    pub effective : CapabilitySet
    pub permitted : CapabilitySet
    pub inheritable : CapabilitySet

  -- The user IDs are real, effective and saved.
  pub record Credentials : Type 0 where
    pub real_uid : ℕ
    pub effective_uid : ℕ
    pub saved_uid : ℕ
    pub caps : CapabilitySets

  abbrev pub any_uid_is_root : Credentials → Bool
  any_uid_is_root current =
      current.real_uid == 0 || (current.effective_uid == 0 || current.saved_uid == 0)

  pub data Op : Type 0 where
    clear_ambient : Op
    set_caps : CapabilitySets → Op
    drop_bounding_except : CapabilitySet → Op
    set_secure_bits : SecureBits → Op
    set_keep_caps : Bool → Op
    set_groups : List ℕ → Op
    set_res_gid : ℕ → Op
    set_res_uid : ℕ → Op
    set_no_new_privs : Op

  pub record PrivilegePlan : Type 0 where
    pub ops : List Op
    pub warnings : List Warning
    pub final_uid : ℕ
    pub final_caps : CapabilitySet
    pub final_groups : Option FinalGroups

  abbrev pub keep : Goal → CapabilitySet
  keep keep_sys_admin = sys_admin
  keep drop_all = empty

  abbrev pub check_goal : Goal → CapabilitySet → Result PlanError (Unit {0})
  check_goal keep_sys_admin permitted =
      if has permitted sys_admin then ok tt else err missing_sys_admin
  check_goal drop_all permitted = ok tt

  -- Remaining root without a user to switch to.
  abbrev remain_root : Goal → Bool → Result PlanError (Option ServiceUser × List Warning)
  remain_root keep_sys_admin allow_root =
      if allow_root then ok (none, running_as_root ∷ []) else err root_without_user
  remain_root drop_all allow_root = ok (none, [])

  -- The user to switch to, and the warnings.
  unfoldable pub switch_to :
      Bool → ℕ → Request → Option ServiceUser → Result PlanError (Option ServiceUser × List Warning)
  switch_to true effective_uid request (some user) =
      if user.uid == 0 then err (service_user_is_root user.name) else ok (some user, [])
  switch_to true effective_uid request none = remain_root request.goal request.allow_root
  switch_to false effective_uid request (some user) =
      if effective_uid == user.uid
      then ok (none, [])
      else ok (none, user_not_applied user.name effective_uid ∷ [])
  switch_to false effective_uid request none = ok (none, [])

  abbrev pub check_switch : Option ServiceUser → CapabilitySet → Result PlanError (Unit {0})
  check_switch none permitted = ok tt
  check_switch (some user) permitted =
      if not (has permitted setuid)
      then err (cannot_switch_user user.name (text "CAP_SETUID"))
      else if not (has permitted setgid)
      then err (cannot_switch_user user.name (text "CAP_SETGID"))
      else ok tt

  -- What the operations along the way need.
  abbrev pub needed : Bool → Option ServiceUser → CapabilitySet
  needed has_setpcap user =
      let n = if has_setpcap then union empty setpcap else empty in
      elim user [ none ↦ n | some u ↦ union n (union setuid setgid) ]

  abbrev pub raise_ops : CapabilitySets → CapabilitySet → List Op
  raise_ops caps n =
      if not (has caps.effective n)
      then set_caps (record {
        effective = union caps.effective n;
        permitted = caps.permitted;
        inheritable = empty;
      })
        ∷ []
      else []

  abbrev pub bounding_ops : Bool → CapabilitySet → List Op
  bounding_ops true k = drop_bounding_except k ∷ set_secure_bits locked_secure_bits ∷ []
  bounding_ops false k = []

  -- With the locked secure bits capabilities survive the change of user; else with `KEEPCAPS`.
  abbrev pub switch_ops : Bool → Option ServiceUser → List Op
  switch_ops has_setpcap none = []
  switch_ops has_setpcap (some user) =
      (if not has_setpcap then set_keep_caps true ∷ [] else [])
      ++ (set_groups (final_groups user).groups
          ∷ set_res_gid (final_groups user).gid
          ∷ set_res_uid user.uid
          ∷ (if not has_setpcap then set_keep_caps false ∷ [] else []))

  abbrev pub final_ops : CapabilitySet → List Op
  final_ops k =
      set_caps (record { effective = k; permitted = k; inheritable = empty })
      ∷ set_no_new_privs
      ∷ []

  abbrev pub plan_ops : Credentials → Goal → Option ServiceUser → List Op
  plan_ops current goal user =
      let permitted = current.caps.permitted in
      let has_setpcap = has permitted setpcap in
      clear_ambient
      ∷ (raise_ops current.caps (needed has_setpcap user)
          ++ (bounding_ops has_setpcap (keep goal)
              ++ (switch_ops has_setpcap user ++ final_ops (keep goal))))

  abbrev pub uid_after : ℕ → Option ServiceUser → ℕ
  uid_after effective_uid none = effective_uid
  uid_after effective_uid (some user) = user.uid

  unfoldable pub plan : Credentials → Request → Result PlanError PrivilegePlan
  unfolding switch_to final_groups
  plan current request = do
    u ← check_goal request.goal current.caps.permitted
    (user, warnings) ←
        switch_to (any_uid_is_root current) current.effective_uid request request.user
    v ← check_switch user current.caps.permitted
    ok (record {
      ops = plan_ops current request.goal user;
      warnings = warnings;
      final_uid = uid_after current.effective_uid user;
      final_caps = keep request.goal;
      final_groups = Option.map final_groups user;
    })
