-- ===== src/Privileges/Plan/Drop.antt =====
-- The last stages of the operations of a plan (src/privileges/plan.rs): the switch to the service user
-- and the final sets.
use mathlib.Core.Path.{subst}
use byssus.Base.{
  ℕ, Elem, ◌↔◌, sym, ◌≡◌, refl, ◌∙◌, Bool, true, false, Option, none, some, List, [], ◌∷◌, ◌++◌,
  if◌then◌else◌, arith,
}
use byssus.Privileges.Plan.{
  Capabilities, CapabilitySets, ServiceUser, Goal, no_setuid_fixup, keep_caps_locked, Op, set_caps,
  set_keep_caps, set_groups, set_res_gid, set_res_uid, set_no_new_privs, keep, needed, switch_ops,
  final_ops, final_groups,
}
use byssus.Privileges.Plan.Kernel.{IsSets, Process, with_uid, IsLocked, IsKernel, run_ops}

module _ (c : Capabilities) (sets : IsSets c) (apply : Op c → Process c → Option (Process c))
    (kernel : IsKernel c apply) where
  open c use {CapabilitySet, empty, setuid, setgid, setpcap, union, contains_flag, has}

  -- The operations all succeed, and the process is then in such a state.
  pub record Reaches (ops : List (Op c)) (Q : Process c → Type 0) (s : Process c) : Type 0 where
    pub final : Process c
    pub runs : run_ops c apply ops s ≡ some final
    pub reached : Q final

  run_nil : (s : Process c) → run_ops c apply [] s ≡ some s
  unfolding run_ops
  run_nil s = refl

  run_cons :
      (op : Op c) (ops : List (Op c)) (s s' : Process c)
      → apply op s ≡ some s'
      → run_ops c apply (op ∷ ops) s ≡ run_ops c apply ops s'
  unfolding run_ops
  run_cons op ops s s' e = rw (e, run_ops) refl

  pub Reaches-cons :
      (Q : Process c → Type 0) (op : Op c) (ops : List (Op c)) (s s' : Process c)
      → apply op s ≡ some s'
      → Reaches ops Q s'
      → Reaches (op ∷ ops) Q s
  Reaches-cons Q op ops s s' e r = record {
    final = r.final;
    runs = run_cons op ops s s' e ∙ r.runs;
    reached = r.reached;
  }

  -- From nothing nothing is left.
  pub lowered_empty : (old a : CapabilitySet) → old ≡ empty → has old a ≡ true → a ≡ empty
  lowered_empty old a e h = sets.empty_has a (subst (λ s. has s a ≡ true) e h)

  -- The user and the groups are those of before, or those of the service user.
  abbrev pub IsSwitched : Process c → Option ServiceUser → Process c → Type 0
  IsSwitched s none s' =
      (s'.real_uid ≡ s.real_uid)
      × ((s'.effective_uid ≡ s.effective_uid) × (s'.saved_uid ≡ s.saved_uid))
  IsSwitched s (some user) s' =
      (s'.real_uid ≡ user.uid)
      × ((s'.effective_uid ≡ user.uid)
          × ((s'.saved_uid ≡ user.uid)
              × ((s'.gid ≡ (final_groups user).gid)
                  × ((g : ℕ) → Elem g s'.groups ↔ Elem g (final_groups user).groups))))

  -- The minimal state.
  pub record IsDropped (s : Process c) (k : CapabilitySet) (has_setpcap : Bool)
      (user : Option ServiceUser) (s' : Process c) : Type 0 where
    pub effective : s'.effective ≡ k
    pub permitted : s'.permitted ≡ k
    pub inheritable : s'.inheritable ≡ empty
    pub ambient : s'.ambient ≡ empty
    pub bounding : has_setpcap ≡ true → has k s'.bounding ≡ true
    pub locked : has_setpcap ≡ true → IsLocked c s'.secure_bits
    pub no_new_privs : s'.no_new_privs ≡ true
    pub switched : IsSwitched s user s'

  module _ (s0 : Process c) (goal : Goal) (user : Option ServiceUser) where
    abbrev P : CapabilitySet
    P = s0.permitted

    abbrev k : CapabilitySet
    k = keep c goal

    abbrev Q : Bool → Process c → Type 0
    Q has_setpcap = IsDropped s0 k has_setpcap user

    -- Before the last operations.
    pub record IsNearlyDropped (hs : Bool) (s : Process c) : Type 0 where
      pub permitted : s.permitted ≡ P
      pub ambient : s.ambient ≡ empty
      pub bounding : hs ≡ true → has k s.bounding ≡ true
      pub locked : hs ≡ true → IsLocked c s.secure_bits
      pub switched : IsSwitched s0 user s

    IsSwitched-same :
        (u : Option ServiceUser) (s s' : Process c)
        → s'.real_uid ≡ s.real_uid
        → s'.effective_uid ≡ s.effective_uid
        → s'.saved_uid ≡ s.saved_uid
        → s'.gid ≡ s.gid
        → s'.groups ≡ s.groups
        → IsSwitched s0 u s
        → IsSwitched s0 u s'
    IsSwitched-same none s s' a b d e f h = (a ∙ h.0, (b ∙ h.1.0, d ∙ h.1.1))
    IsSwitched-same (some u) s s' a b d e f h = (
      a ∙ h.0,
      (
        b ∙ h.1.0,
        (
          d ∙ h.1.1.0,
          (
            e ∙ h.1.1.1.0,
            λ g. subst (λ gs. Elem g gs ↔ Elem g (final_groups u).groups) (sym f) (h.1.1.1.1 g),
          ),
        ),
      ),
    )

    final_stage :
        (hs : Bool) (s : Process c)
        → has P k ≡ true
        → IsNearlyDropped hs s
        → Reaches (final_ops c k) (Q hs) s
    final_stage hs s p h =
        let caps : CapabilitySets c = record {
          effective = k;
          permitted = k;
          inheritable = empty;
        } in
        let (a, lowered, set) = kernel.caps_set caps s (rw h.permitted p) (sets.has_self k) refl in
        let s1 : Process c = record s {
          effective = k;
          permitted = k;
          inheritable = empty;
          ambient = a;
        } in
        let s2 : Process c = record s1 { no_new_privs = true } in
        Reaches-cons (Q hs) (set_caps caps) (set_no_new_privs ∷ []) s s1 set (
          Reaches-cons (Q hs) set_no_new_privs [] s1 s2 (kernel.no_new_privs_set s1) (record {
            final = s2;
            runs = run_nil s2;
            reached = record {
              effective = refl;
              permitted = refl;
              inheritable = refl;
              ambient = lowered_empty s.ambient a h.ambient lowered;
              bounding = h.bounding;
              locked = h.locked;
              no_new_privs = refl;
              switched = IsSwitched-same user s s2 refl refl refl refl refl h.switched;
            };
          }))

    -- After the bounding set and the secure bits.
    pub record IsBounded (hs : Bool) (s : Process c) : Type 0 where
      pub permitted : s.permitted ≡ P
      pub effective : has s.effective (needed c hs user) ≡ true
      pub ambient : s.ambient ≡ empty
      pub bounding : hs ≡ true → has k s.bounding ≡ true
      pub locked : hs ≡ true → IsLocked c s.secure_bits
      pub unlocked : hs ≡ false → contains_flag s.secure_bits keep_caps_locked ≡ false
      pub real_uid : s.real_uid ≡ s0.real_uid
      pub effective_uid : s.effective_uid ≡ s0.effective_uid
      pub saved_uid : s.saved_uid ≡ s0.saved_uid

  switch_needs :
      (hs : Bool) (u : ServiceUser) (e : CapabilitySet)
      → has e (needed c hs (some u)) ≡ true
      → (has e setuid ≡ true) × (has e setgid ≡ true)
  switch_needs hs u e h =
      let n = if hs then union empty setpcap else empty in
      let ids = union setuid setgid in
      let both = sets.has_trans e (union n ids) ids h (sets.union_right n ids) in
      (
        sets.has_trans e ids setuid both (sets.union_left setuid setgid),
        sets.has_trans e ids setgid both (sets.union_right setuid setgid),
      )

  pub switch_stage :
      (s0 : Process c) (goal : Goal) (user : Option ServiceUser) (hs : Bool) (s : Process c)
      → has s0.permitted (keep c goal) ≡ true
      → IsBounded s0 goal user hs s
      → Reaches
          (switch_ops c hs user ++ final_ops c (keep c goal))
          (IsDropped s0 (keep c goal) hs user)
          s
  switch_stage s0 goal none hs s p h = final_stage s0 goal none hs s p (record {
    permitted = h.permitted;
    ambient = h.ambient;
    bounding = h.bounding;
    locked = h.locked;
    switched = (h.real_uid, (h.effective_uid, h.saved_uid));
  })
  switch_stage s0 goal (some u) true s p h =
      let Q = IsDropped s0 (keep c goal) true (some u) in
      let (uid, gid) = switch_needs true u s.effective h.effective in
      let g = final_groups u in
      let end = final_ops c (keep c goal) in
      let (gs, same, changed) = kernel.groups_set g.groups s gid in
      let s1 : Process c = record s { groups = gs } in
      let s2 : Process c = record s1 { gid = g.gid } in
      let s3 : Process c = with_uid c u.uid s.effective s.ambient s2 in
      Reaches-cons Q (set_groups g.groups) (set_res_gid g.gid ∷ set_res_uid u.uid ∷ end) s s1
        changed
        (Reaches-cons Q (set_res_gid g.gid) (set_res_uid u.uid ∷ end) s1 s2
          (kernel.gid_set g.gid s1 gid)
          (Reaches-cons Q (set_res_uid u.uid) end s2 s3
            (kernel.uid_set u.uid s2 uid (h.locked refl no_setuid_fixup refl))
            (final_stage s0 goal (some u) true s3 p (record {
              permitted = h.permitted;
              ambient = h.ambient;
              bounding = h.bounding;
              locked = h.locked;
              switched = (refl, (refl, (refl, (refl, same))));
            }))))
  switch_stage s0 goal (some u) false s p h =
      let Q = IsDropped s0 (keep c goal) false (some u) in
      let (uid, gid) = switch_needs false u s.effective h.effective in
      let g = final_groups u in
      let end = set_keep_caps false ∷ final_ops c (keep c goal) in
      let (kept, on, others, keeping) = kernel.keep_caps_set true s (h.unlocked refl) in
      let r : Process c = record s { secure_bits = kept } in
      let (gs, same, grouped) = kernel.groups_set g.groups r gid in
      let s1 : Process c = record r { groups = gs } in
      let s2 : Process c = record s1 { gid = g.gid } in
      let (e, a, lowered, changed) = kernel.uid_set_keeping u.uid s2 uid on in
      let s3 : Process c = with_uid c u.uid e a s2 in
      let unlocked : contains_flag kept keep_caps_locked ≡ false =
        others keep_caps_locked refl ∙ h.unlocked refl in
      let (left, off, others', dropping) = kernel.keep_caps_set false s3 unlocked in
      let s4 : Process c = record s3 { secure_bits = left } in
      Reaches-cons Q (set_keep_caps true)
        (set_groups g.groups ∷ set_res_gid g.gid ∷ set_res_uid u.uid ∷ end) s r keeping
        (Reaches-cons Q (set_groups g.groups) (set_res_gid g.gid ∷ set_res_uid u.uid ∷ end) r s1
          grouped
          (Reaches-cons Q (set_res_gid g.gid) (set_res_uid u.uid ∷ end) s1 s2
            (kernel.gid_set g.gid s1 gid)
            (Reaches-cons Q (set_res_uid u.uid) end s2 s3 changed (
              Reaches-cons Q (set_keep_caps false) (final_ops c (keep c goal)) s3 s4 dropping (
                final_stage s0 goal (some u) false s4 p (record {
                  permitted = h.permitted;
                  ambient = lowered_empty s.ambient a h.ambient lowered;
                  bounding = h.bounding;
                  locked = λ b. absurd (ground arith);
                  switched = (refl, (refl, (refl, (refl, same))));
                }))))))
