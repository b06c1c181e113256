-- ===== src/Privileges/Plan/Minimal.antt =====
-- The first stages of the operations of a plan (src/privileges/plan.rs): raising what is needed, the
-- bounding set and the secure bits.
use byssus.Base.{
  ◌≡◌, refl, sym, ◌∙◌, Bool, true, false, not, ◌||◌, Option, none, some, List, [], ◌∷◌, ◌++◌,
  if◌then◌else◌, ok, arith,
}
use byssus.Privileges.Plan.{
  Capabilities, CapabilitySets, Credentials, ServiceUser, Goal, keep_sys_admin, drop_all, Op,
  clear_ambient, set_caps, drop_bounding_except, set_secure_bits, keep, needed, bounding_ops, Flag,
  no_root, no_root_locked, no_setuid_fixup, no_setuid_fixup_locked, keep_caps, keep_caps_locked,
  no_cap_ambient_raise, no_cap_ambient_raise_locked, locked_secure_bits, switch_ops, final_ops,
  plan_ops, check_goal, check_switch,
}
use byssus.Privileges.Plan.Kernel.{IsSets, Process, IsOpen, IsLocked, IsKernel, is_flag}
use byssus.Privileges.Plan.Drop.{Reaches, Reaches-cons, IsDropped, lowered_empty, switch_stage}

module _ (c : Capabilities) (sets : IsSets c) (apply : Op c → Process c → Option (Process c))
    (kernel : IsKernel c apply) where
  open c use {
    CapabilitySet, empty, setuid, setgid, setpcap, union, SecureBits, union_bits, contains_flag,
    has,
  }

  -- With what the operations need in force.
  pub record IsRaised (s0 : Process c) (user : Option ServiceUser) (hs : Bool) (s : Process c)
      : Type 0 where
    pub permitted : s.permitted ≡ s0.permitted
    pub effective : has s.effective (needed c hs user) ≡ true
    pub ambient : s.ambient ≡ empty
    pub unlocked : hs ≡ false → contains_flag s.secure_bits keep_caps_locked ≡ false
    pub unlockable : hs ≡ true → IsOpen c s.secure_bits (locked_secure_bits c)
    pub real_uid : s.real_uid ≡ s0.real_uid
    pub effective_uid : s.effective_uid ≡ s0.effective_uid
    pub saved_uid : s.saved_uid ≡ s0.saved_uid

  setpcap_needed :
      (user : Option ServiceUser) (e : CapabilitySet)
      → has e (needed c true user) ≡ true
      → has e setpcap ≡ true
  setpcap_needed none e h =
      sets.has_trans e (union empty setpcap) setpcap h (sets.union_right empty setpcap)
  setpcap_needed (some u) e h =
      let n = union empty setpcap in
      sets.has_trans e n setpcap
        (sets.has_trans e (union n (union setuid setgid)) n h
          (sets.union_left n (union setuid setgid)))
        (sets.union_right empty setpcap)

  -- The flags of the locked secure bits.
  abbrev is_locked : Flag → Bool
  is_locked f =
      is_flag no_root f
      || is_flag no_root_locked f
      || is_flag no_setuid_fixup f
      || is_flag no_setuid_fixup_locked f
      || is_flag keep_caps_locked f
      || is_flag no_cap_ambient_raise f
      || is_flag no_cap_ambient_raise_locked f

  contains-locked : (f : Flag) → contains_flag (locked_secure_bits c) f ≡ is_locked f
  unfolding locked_secure_bits
  contains-locked f = simp (sets.contains_union, sets.contains_own)

  all_locked : (f : Flag) → is_flag f keep_caps ≡ false → is_locked f ≡ true
  all_locked no_root e = refl
  all_locked no_root_locked e = refl
  all_locked no_setuid_fixup e = refl
  all_locked no_setuid_fixup_locked e = refl
  all_locked keep_caps e = absurd (ground arith)
  all_locked keep_caps_locked e = refl
  all_locked no_cap_ambient_raise e = refl
  all_locked no_cap_ambient_raise_locked e = refl

  -- Whatever flags were set before.
  union-IsLocked : (old : SecureBits) → IsLocked c (union_bits old (locked_secure_bits c))
  union-IsLocked old f e =
      let own : contains_flag (locked_secure_bits c) f ≡ true =
        contains-locked f ∙ all_locked f e in
      ground (arith, sets.contains_union old (locked_secure_bits c) f)

  bounding_stage :
      (s0 : Process c) (goal : Goal) (user : Option ServiceUser) (hs : Bool) (s : Process c)
      → has s0.permitted (keep c goal) ≡ true
      → IsRaised s0 user hs s
      → Reaches c sets apply kernel
          (bounding_ops c hs (keep c goal) ++ (switch_ops c hs user ++ final_ops c (keep c goal)))
          (IsDropped c sets apply kernel s0 (keep c goal) hs user)
          s
  bounding_stage s0 goal user false s p h =
      switch_stage c sets apply kernel s0 goal user false s p (record {
        permitted = h.permitted;
        effective = h.effective;
        ambient = h.ambient;
        bounding = λ e. absurd (ground arith);
        locked = λ e. absurd (ground arith);
        unlocked = h.unlocked;
        real_uid = h.real_uid;
        effective_uid = h.effective_uid;
        saved_uid = h.saved_uid;
      })
  bounding_stage s0 goal user true s p h =
      let k = keep c goal in
      let Q = IsDropped c sets apply kernel s0 k true user in
      let e = setpcap_needed user s.effective h.effective in
      let (b, within, fewer, dropped) = kernel.bounding_dropped k s e in
      let s1 : Process c = record s { bounding = b } in
      let locked = locked_secure_bits c in
      let s2 : Process c = record s1 { secure_bits = union_bits s.secure_bits locked } in
      let rest = switch_ops c true user ++ final_ops c k in
      Reaches-cons c sets apply kernel Q (drop_bounding_except k) (set_secure_bits locked ∷ rest) s
        s1 dropped
        (Reaches-cons c sets apply kernel Q (set_secure_bits locked) rest s1 s2
          (kernel.secure_bits_set locked s1 e (h.unlockable refl))
          (switch_stage c sets apply kernel s0 goal user true s2 p (record {
            permitted = h.permitted;
            effective = h.effective;
            ambient = h.ambient;
            bounding = λ e. within;
            locked = λ e. union-IsLocked s.secure_bits;
            unlocked = λ e. absurd (ground arith);
            real_uid = h.real_uid;
            effective_uid = h.effective_uid;
            saved_uid = h.saved_uid;
          })))

  -- The process has these credentials.
  pub record IsStart (current : Credentials c) (s : Process c) : Type 0 where
    pub permitted : s.permitted ≡ current.caps.permitted
    pub effective : s.effective ≡ current.caps.effective
    pub real_uid : s.real_uid ≡ current.real_uid
    pub effective_uid : s.effective_uid ≡ current.effective_uid
    pub saved_uid : s.saved_uid ≡ current.saved_uid
    -- The effective capabilities are among the permitted ones, as the kernel has it.
    pub within : has s.permitted s.effective ≡ true
    -- `KEEPCAPS` can be set, or is not needed.
    pub unlocked :
        has s.permitted setpcap ≡ false → contains_flag s.secure_bits keep_caps_locked ≡ false
    -- The locked secure bits can be set, or are not.
    pub unlockable : has s.permitted setpcap ≡ true → IsOpen c s.secure_bits (locked_secure_bits c)

  setpcap-permitted :
      (P : CapabilitySet) (hs : Bool) → has P setpcap ≡ hs → has P (needed c hs none) ≡ true
  setpcap-permitted P true e = sets.union_least empty setpcap P (sets.has_empty P) e
  setpcap-permitted P false e = sets.has_empty P

  kept :
      (goal : Goal) (P : CapabilitySet) → check_goal c goal P ≡ ok tt → has P (keep c goal) ≡ true
  kept keep_sys_admin P h = ground arith
  kept drop_all P h = sets.has_empty P

  needed-permitted :
      (P : CapabilitySet) (user : Option ServiceUser) (hs : Bool)
      → has P setpcap ≡ hs
      → check_switch c user P ≡ ok tt
      → has P (needed c hs user) ≡ true
  needed-permitted P none hs e h = setpcap-permitted P hs e
  needed-permitted P (some u) hs e h =
      let uid : has P setuid ≡ true = ground arith in
      let gid : has P setgid ≡ true = ground arith in
      let n = if hs then union empty setpcap else empty in
      sets.union_least n (union setuid setgid) P (setpcap-permitted P hs e)
        (sets.union_least setuid setgid P uid gid)

  abbrev after_raise : Goal → Option ServiceUser → Bool → List (Op c)
  after_raise goal user hs =
      bounding_ops c hs (keep c goal) ++ (switch_ops c hs user ++ final_ops c (keep c goal))

  raise_stage :
      (current : Credentials c) (s0 : Process c) (goal : Goal) (user : Option ServiceUser)
      (hs b : Bool)
      → IsStart current s0
      → has s0.permitted setpcap ≡ hs
      → has s0.permitted (needed c hs user) ≡ true
      → has s0.permitted (keep c goal) ≡ true
      → has current.caps.effective (needed c hs user) ≡ b
      → Reaches c sets apply kernel
          ((if not b
              then set_caps (record {
                effective = union current.caps.effective (needed c hs user);
                permitted = current.caps.permitted;
                inheritable = empty;
              })
                ∷ []
              else [])
            ++ after_raise goal user hs)
          (IsDropped c sets apply kernel s0 (keep c goal) hs user)
          (record s0 { ambient = empty })
  raise_stage current s0 goal user hs true h q n p e =
      let s : Process c = record s0 { ambient = empty } in
      bounding_stage s0 goal user hs s p (record {
        permitted = refl;
        effective = rw h.effective e;
        ambient = refl;
        unlocked = λ x. h.unlocked (q ∙ x);
        unlockable = λ x. h.unlockable (q ∙ x);
        real_uid = refl;
        effective_uid = refl;
        saved_uid = refl;
      })
  raise_stage current s0 goal user hs false h q n p e =
      let raised = union current.caps.effective (needed c hs user) in
      let s : Process c = record s0 { ambient = empty } in
      let caps : CapabilitySets c = record {
        effective = raised;
        permitted = current.caps.permitted;
        inheritable = empty;
      } in
      let P = current.caps.permitted in
      let self : has s0.permitted P ≡ true = rw h.permitted (sets.has_self P) in
      let all : has P raised ≡ true =
        sets.union_least current.caps.effective (needed c hs user) P
          (rw (sym h.permitted, sym h.effective) h.within) (rw (sym h.permitted) n) in
      let (a, lowered, set) = kernel.caps_set caps s self all refl in
      let s1 : Process c = record s {
        effective = raised;
        permitted = current.caps.permitted;
        inheritable = empty;
        ambient = a;
      } in
      let Q = IsDropped c sets apply kernel s0 (keep c goal) hs user in
      Reaches-cons c sets apply kernel Q (set_caps caps) (after_raise goal user hs) s s1 set (
        bounding_stage s0 goal user hs s1 p (record {
          permitted = sym h.permitted;
          effective = sets.union_right current.caps.effective (needed c hs user);
          ambient = lowered_empty c sets apply kernel empty a refl lowered;
          unlocked = λ x. h.unlocked (q ∙ x);
          unlockable = λ x. h.unlockable (q ∙ x);
          real_uid = refl;
          effective_uid = refl;
          saved_uid = refl;
        }))

  pub ops_stage :
      (current : Credentials c) (s0 : Process c) (goal : Goal) (user : Option ServiceUser)
      → IsStart current s0
      → check_goal c goal current.caps.permitted ≡ ok tt
      → check_switch c user current.caps.permitted ≡ ok tt
      → Reaches c sets apply kernel
          (plan_ops c current goal user)
          (IsDropped c sets apply kernel s0 (keep c goal) (has current.caps.permitted setpcap) user)
          s0
  ops_stage current s0 goal user h g w =
      let hs = has current.caps.permitted setpcap in
      let q : has s0.permitted setpcap ≡ hs = rw h.permitted refl in
      let n = needed-permitted current.caps.permitted user hs refl w in
      let Q = IsDropped c sets apply kernel s0 (keep c goal) hs user in
      Reaches-cons c sets apply kernel Q clear_ambient _ s0 (record s0 { ambient = empty })
        (kernel.ambient_cleared s0)
        (raise_stage current s0 goal user hs (has current.caps.effective (needed c hs user)) h q
          (rw h.permitted n) (rw h.permitted (kept goal current.caps.permitted g)) refl)
