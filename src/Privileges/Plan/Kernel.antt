-- ===== src/Privileges/Plan/Kernel.antt =====
-- What the kernel is documented to do with credential operations (capabilities(7), credentials(7),
-- prctl(2)) in a process that may use its capabilities, as the hypotheses under which the plan of
-- src/privileges/plan.rs works.
use byssus.Base.{
  ℕ, ◌≡◌, ◌↔◌, Bool, true, false, ◌||◌, Option, none, some, List, [], ◌∷◌, Elem, ◌==◌, nat_eq,
}
use byssus.Privileges.Plan.{
  Capabilities, CapabilitySets, Flag, no_root, no_root_locked, no_setuid_fixup,
  no_setuid_fixup_locked, keep_caps, keep_caps_locked, no_cap_ambient_raise,
  no_cap_ambient_raise_locked, Op, clear_ambient, set_caps, drop_bounding_except, set_secure_bits,
  set_keep_caps, set_groups, set_res_gid, set_res_uid, set_no_new_privs,
}

-- The bit of a flag.
abbrev number : Flag → ℕ
number no_root = 0
number no_root_locked = 1
number no_setuid_fixup = 2
number no_setuid_fixup_locked = 3
number keep_caps = 4
number keep_caps_locked = 5
number no_cap_ambient_raise = 6
number no_cap_ambient_raise_locked = 7

abbrev pub is_flag : Flag → Flag → Bool
is_flag f g = number f == number g

-- The flag that locks this one.
abbrev pub lock : Flag → Option Flag
lock no_root = some no_root_locked
lock no_setuid_fixup = some no_setuid_fixup_locked
lock keep_caps = some keep_caps_locked
lock no_cap_ambient_raise = some no_cap_ambient_raise_locked
lock _ = none

module _ (c : Capabilities) where
  open c use {
    CapabilitySet, empty, setuid, setgid, setpcap, union, SecureBits, flag, union_bits,
    contains_flag, has,
  }

  -- Sets of capabilities, by what they have, and sets of flags.
  pub record IsSets : Type 0 where
    pub has_self : (s : CapabilitySet) → has s s ≡ true
    pub has_empty : (s : CapabilitySet) → has s empty ≡ true
    pub empty_has : (s : CapabilitySet) → has empty s ≡ true → s ≡ empty
    pub has_trans : (s t u : CapabilitySet) → has s t ≡ true → has t u ≡ true → has s u ≡ true
    pub union_left : (s t : CapabilitySet) → has (union s t) s ≡ true
    pub union_right : (s t : CapabilitySet) → has (union s t) t ≡ true
    pub union_least :
        (s t u : CapabilitySet) → has u s ≡ true → has u t ≡ true → has u (union s t) ≡ true
    pub contains_own : (f g : Flag) → contains_flag (flag f) g ≡ is_flag f g
    pub contains_union :
        (a b : SecureBits) (f : Flag)
        → contains_flag (union_bits a b) f ≡ (contains_flag a f || contains_flag b f)

  -- The credentials of a process that the operations change. The three group IDs are one here.
  pub record Process : Type 0 where
    pub real_uid : ℕ
    pub effective_uid : ℕ
    pub saved_uid : ℕ
    pub gid : ℕ
    pub groups : List ℕ
    pub effective : CapabilitySet
    pub permitted : CapabilitySet
    pub inheritable : CapabilitySet
    pub ambient : CapabilitySet
    pub bounding : CapabilitySet
    pub secure_bits : SecureBits
    pub no_new_privs : Bool

  abbrev pub with_uid : ℕ → CapabilitySet → CapabilitySet → Process → Process
  with_uid u e a s = record s {
    real_uid = u;
    effective_uid = u;
    saved_uid = u;
    effective = e;
    ambient = a;
  }

  -- All flags but `KEEP_CAPS` are set.
  abbrev pub IsLocked : SecureBits → Type 0
  IsLocked bits = (f : Flag) → is_flag f keep_caps ≡ false → contains_flag bits f ≡ true

  -- No flag of the second set is locked as unset in the first.
  abbrev pub IsOpen : SecureBits → SecureBits → Type 0
  IsOpen old added =
      (f l : Flag)
      → lock f ≡ some l
      → contains_flag old l ≡ true
      → contains_flag added f ≡ true
      → contains_flag old f ≡ true

  -- The operations, `none` for one that fails, do what the manual pages say of their system calls.
  -- Ambient capabilities may be lowered with the other sets and with a change of user IDs; the
  -- supplementary groups are kept in an order of the kernel's; `set_secure_bits` adds its flags to
  -- those in force; and what a drop leaves in the bounding set, and what `KEEPCAPS` leaves effective,
  -- is not fixed. The user and group IDs are those of the process's user namespace, and no limit on
  -- memory or processes is reached.
  pub record IsKernel (apply : Op c → Process → Option Process) : Type 0 where
    pub ambient_cleared :
        (s : Process) → apply clear_ambient s ≡ some (record s { ambient = empty })
    pub caps_set :
        (caps : CapabilitySets c) (s : Process)
        → has s.permitted caps.permitted ≡ true
        → has caps.permitted caps.effective ≡ true
        → caps.inheritable ≡ empty
        → (a : CapabilitySet) × (has s.ambient a ≡ true)
          × (apply (set_caps caps) s
              ≡ some (record s {
                effective = caps.effective;
                permitted = caps.permitted;
                inheritable = caps.inheritable;
                ambient = a;
              }))
    pub bounding_dropped :
        (k : CapabilitySet) (s : Process)
        → has s.effective setpcap ≡ true
        → (b : CapabilitySet) × (has k b ≡ true)
          × (has s.bounding b ≡ true)
          × (apply (drop_bounding_except k) s ≡ some (record s { bounding = b }))
    pub secure_bits_set :
        (bits : SecureBits) (s : Process)
        → has s.effective setpcap ≡ true
        → IsOpen s.secure_bits bits
        → apply (set_secure_bits bits) s
          ≡ some (record s { secure_bits = union_bits s.secure_bits bits })
    pub keep_caps_set :
        (b : Bool) (s : Process)
        → contains_flag s.secure_bits keep_caps_locked ≡ false
        → (bits : SecureBits) × (contains_flag bits keep_caps ≡ b)
          × ((f : Flag)
              → is_flag f keep_caps ≡ false
              → contains_flag bits f ≡ contains_flag s.secure_bits f)
          × (apply (set_keep_caps b) s ≡ some (record s { secure_bits = bits }))
    pub groups_set :
        (gs : List ℕ) (s : Process)
        → has s.effective setgid ≡ true
        → (kept : List ℕ) × ((g : ℕ) → Elem g kept ↔ Elem g gs)
          × (apply (set_groups gs) s ≡ some (record s { groups = kept }))
    pub gid_set :
        (g : ℕ) (s : Process)
        → has s.effective setgid ≡ true
        → apply (set_res_gid g) s ≡ some (record s { gid = g })
    pub uid_set :
        (u : ℕ) (s : Process)
        → has s.effective setuid ≡ true
        → contains_flag s.secure_bits no_setuid_fixup ≡ true
        → apply (set_res_uid u) s ≡ some (with_uid u s.effective s.ambient s)
    pub uid_set_keeping :
        (u : ℕ) (s : Process)
        → has s.effective setuid ≡ true
        → contains_flag s.secure_bits keep_caps ≡ true
        → (e : CapabilitySet) × (a : CapabilitySet) × (has s.ambient a ≡ true)
          × (apply (set_res_uid u) s ≡ some (with_uid u e a s))
    pub no_new_privs_set :
        (s : Process) → apply set_no_new_privs s ≡ some (record s { no_new_privs = true })

  -- The operations in order, until one fails.
  unfoldable pub run_ops :
      (Op c → Process → Option Process) → List (Op c) → Process → Option Process
  run_ops apply [] s = some s
  run_ops apply (op ∷ ops) s = elim (apply op s) [ none ↦ none | some s' ↦ run_ops apply ops s' ]
