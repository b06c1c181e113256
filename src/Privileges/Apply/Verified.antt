-- ===== src/Privileges/Apply/Verified.antt =====
-- What holds of a process that was verified (src/privileges/apply.rs).
use Prim.Native.Nat.{bit_and}
use byssus.Base.{
  ℕ, ◌≡◌, refl, inl, inr, Bool, true, false, not, ◌&&◌, Bool-cases, Option, none, some, List, [],
  ◌∷◌, ◌++◌, any, is_empty, if◌then◌else◌, Result, ok, err, Yields, Yields-mono, All, ◌==◌, nat_eq,
  list_eq, ==→≡, beq_nat_iff, arith,
}
use byssus.Privileges.Plan.{
  Capabilities, FinalGroups, PrivilegePlan, Op, clear_ambient, set_caps, drop_bounding_except,
  set_secure_bits, set_keep_caps, set_groups, set_res_gid, set_res_uid, set_no_new_privs,
}
use byssus.Privileges.Apply.{
  Ids, ProcessState, Problem, push_if, differs, sorted, without, check_groups, check_secure_bits,
  check_ops, drops_bounding, problems_of, verify, ApplyError, accepted, apply_ops, check_after,
  after_ops, start, apply,
}

abbrev AreAll : Ids → ℕ → Type 0
AreAll ids id = (ids.real ≡ id) × (ids.effective ≡ id) × (ids.saved ≡ id)

-- The IDs of the groups, if the plan has any.
abbrev AreFinal : Option FinalGroups → ProcessState → Type 0
AreFinal none status = Unit
AreFinal (some expected) status =
    AreAll status.gids expected.gid × (sorted status.groups ≡ sorted expected.groups)

module _ (c : Capabilities) (caps_bits : c.CapabilitySet → ℕ) (secure_bits : c.SecureBits → ℕ) where
  -- The secure bits of a step are set.
  abbrev AreKept : ProcessState → Op c → Type 0
  AreKept status (set_secure_bits bits) =
      bit_and status.secure_bits (secure_bits bits) ≡ secure_bits bits
  AreKept status _ = Unit

  -- The process has what the plan promised.
  pub record IsVerified (plan : PrivilegePlan c) (status : ProcessState) : Type 0 where
    pub groups : AreFinal plan.final_groups status
    pub uids : AreAll status.uids plan.final_uid
    pub effective : status.cap_effective ≡ caps_bits plan.final_caps
    pub permitted : status.cap_permitted ≡ caps_bits plan.final_caps
    pub inheritable : status.cap_inheritable ≡ 0
    pub ambient : status.cap_ambient ≡ 0
    pub no_new_privs : status.no_new_privs ≡ true
    pub secure_bits_kept : All (AreKept status) plan.ops
    pub bounding :
        any (drops_bounding c caps_bits secure_bits) plan.ops ≡ true
        → without status.cap_bounding (caps_bits plan.final_caps) ≡ 0

push_if_lem : (b : Bool) (p : Problem) → push_if b p ≡ [] → b ≡ false
push_if_lem true p h = absurd (ground arith)
push_if_lem false p h = refl

parts : (xs ys : List Problem) → xs ++ ys ≡ [] → (xs ≡ []) × (ys ≡ [])
parts [] ys h = (refl, h)
parts (x ∷ xs) ys h = absurd (ground arith)

not_equal : (a b : ℕ) (p : Problem) → push_if (not (a == b)) p ≡ [] → a ≡ b
not_equal a b p h = let e = push_if_lem (not (a == b)) p h in ground (arith, beq_nat_iff a b)

differs_lem : (ids : Ids) (id : ℕ) (p : Problem) → push_if (differs ids id) p ≡ [] → AreAll ids id
differs_lem ids id p h =
    let e = push_if_lem (differs ids id) p h in (ground arith, ground arith, ground arith)

guarded_lem : (b : Bool) (n : ℕ) → (b && not (n == 0)) ≡ false → b ≡ true → n ≡ 0
guarded_lem true n h e = ground (arith, beq_nat_iff n 0)
guarded_lem false n h e = absurd (ground arith)

unless_empty {ℓ} :
    (P : Type ℓ) (ps : List Problem)
    → (ps ≡ [] → P)
    → Yields {A = Unit {0}} (λ u. P) (if is_empty ps then ok tt else err ps)
unless_empty P [] f = f refl
unless_empty P (p ∷ ps) f = tt

check_groups-AreFinal :
    (g : Option FinalGroups) (status : ProcessState)
    → check_groups g status ≡ []
    → AreFinal g status
check_groups-AreFinal none status h = tt
check_groups-AreFinal (some expected) status h =
    let both = parts (push_if (differs status.gids expected.gid) _) _ h in
    let e = push_if_lem (not (sorted status.groups == sorted expected.groups)) _ both.1 in
    let same : (sorted status.groups == sorted expected.groups) ≡ true = ground arith in
    (
      differs_lem status.gids expected.gid _ both.0,
      ==→≡ (sorted status.groups) (sorted expected.groups) same,
    )

module _ (c : Capabilities) (caps_bits : c.CapabilitySet → ℕ) (secure_bits : c.SecureBits → ℕ) where
  kept_lem :
      (op : Op c) (status : ProcessState)
      → check_secure_bits c caps_bits secure_bits op status ≡ []
      → AreKept c caps_bits secure_bits status op
  kept_lem (set_secure_bits bits) status h =
      not_equal (bit_and status.secure_bits (secure_bits bits)) (secure_bits bits) _ h
  kept_lem clear_ambient status h = tt
  kept_lem (set_caps s) status h = tt
  kept_lem (drop_bounding_except k) status h = tt
  kept_lem (set_keep_caps b) status h = tt
  kept_lem (set_groups gs) status h = tt
  kept_lem (set_res_gid g) status h = tt
  kept_lem (set_res_uid u) status h = tt
  kept_lem set_no_new_privs status h = tt

  check_ops-AreKept :
      (ops : List (Op c)) (status : ProcessState)
      → check_ops c caps_bits secure_bits ops status ≡ []
      → All (AreKept c caps_bits secure_bits status) ops
  check_ops-AreKept [] status h = tt
  check_ops-AreKept (op ∷ ops) status h =
      let both = parts (check_secure_bits c caps_bits secure_bits op status) _ h in
      (kept_lem op status both.0, check_ops-AreKept ops status both.1)

  problems_of-IsVerified :
      (plan : PrivilegePlan c) (status : ProcessState)
      → problems_of c caps_bits secure_bits plan status ≡ []
      → IsVerified c caps_bits secure_bits plan status
  unfolding problems_of
  problems_of-IsVerified plan status h =
      let p1 = parts (check_groups plan.final_groups status) _ h in
      let p2 = parts (push_if (differs status.uids plan.final_uid) _) _ p1.1 in
      let p3 = parts (push_if (not (status.cap_effective == caps_bits plan.final_caps)) _) _ p2.1 in
      let p4 = parts (push_if (not (status.cap_permitted == caps_bits plan.final_caps)) _) _ p3.1 in
      let p5 = parts (push_if (not (status.cap_inheritable == 0)) _) _ p4.1 in
      let p6 = parts (push_if (not (status.cap_ambient == 0)) _) _ p5.1 in
      let p7 = parts (push_if (not status.no_new_privs) _) _ p6.1 in
      let p8 = parts (check_ops c caps_bits secure_bits plan.ops status) _ p7.1 in
      let gains = push_if_lem (not status.no_new_privs) _ p7.0 in
      let exceeds =
        push_if_lem
          (any (drops_bounding c caps_bits secure_bits) plan.ops
            && not (without status.cap_bounding (caps_bits plan.final_caps) == 0))
          _ p8.1 in
      record {
        groups = check_groups-AreFinal plan.final_groups status p1.0;
        uids = differs_lem status.uids plan.final_uid _ p2.0;
        effective = not_equal status.cap_effective (caps_bits plan.final_caps) _ p3.0;
        permitted = not_equal status.cap_permitted (caps_bits plan.final_caps) _ p4.0;
        inheritable = not_equal status.cap_inheritable 0 _ p5.0;
        ambient = not_equal status.cap_ambient 0 _ p6.0;
        no_new_privs = ground (arith, gains);
        secure_bits_kept = check_ops-AreKept plan.ops status p8.0;
        bounding =
            guarded_lem (any (drops_bounding c caps_bits secure_bits) plan.ops)
              (without status.cap_bounding (caps_bits plan.final_caps)) exceeds;
      }

  verify-IsVerified :
      (plan : PrivilegePlan c) (status : ProcessState)
      → Yields
          (λ u. IsVerified c caps_bits secure_bits plan status)
          (verify c caps_bits secure_bits plan status)
  unfolding verify
  verify-IsVerified plan status =
      unless_empty (IsVerified c caps_bits secure_bits plan status)
        (problems_of c caps_bits secure_bits plan status) (problems_of-IsVerified plan status)

  module _ {S E : Type 0} (read_self : S → Result E ProcessState)
      (apply_op : Op c → S → Result E (Unit {0}) × S) where
    -- A plan that was applied: one thread, every operation succeeded, and the result is the process's own
    -- state afterwards, which has what the plan promised.
    pub record IsApplied (plan : PrivilegePlan c) (s s' : S) (after : ProcessState) : Type 0 where
      pub before : ProcessState
      pub before_read : read_self s ≡ ok before
      pub alone : before.threads ≡ 1
      pub done : apply_ops c caps_bits secure_bits read_self apply_op plan.ops s ≡ (ok tt, s')
      pub after_read : read_self s' ≡ ok after
      pub verified : IsVerified c caps_bits secure_bits plan after

    accepted_after :
        (plan : PrivilegePlan c) (after : ProcessState) (s : S)
        → read_self s ≡ ok after
        → (v : Result (List Problem) (Unit {0}))
        → Yields (λ u. IsVerified c caps_bits secure_bits plan after) v
        → Yields
            (λ a. (read_self s ≡ ok a) × IsVerified c caps_bits secure_bits plan a)
            (accepted {c = c} {E = E} after v)
    accepted_after plan after s h (ok u) v = (h, v)
    accepted_after plan after s h (err problems) v = tt

    check_after_lem :
        (plan : PrivilegePlan c) (r : Result E ProcessState) (s : S)
        → read_self s ≡ r
        → Yields
            (λ after. (read_self s ≡ ok after) × IsVerified c caps_bits secure_bits plan after)
            (check_after c caps_bits secure_bits read_self apply_op plan r)
    check_after_lem plan (err e) s h = tt
    check_after_lem plan (ok after) s h =
        accepted_after plan after s h (verify c caps_bits secure_bits plan after)
          (verify-IsVerified plan after)

    ran_lem :
        (plan : PrivilegePlan c) (s : S) (before : ProcessState)
        → read_self s ≡ ok before
        → before.threads ≡ 1
        → (ran : Result (ApplyError c E) (Unit {0}) × S)
        → apply_ops c caps_bits secure_bits read_self apply_op plan.ops s ≡ ran
        → Yields
            (IsApplied plan s (after_ops c caps_bits secure_bits read_self apply_op plan ran).1)
            (after_ops c caps_bits secure_bits read_self apply_op plan ran).0
    ran_lem plan s before b one (err e, s') h = tt
    ran_lem plan s before b one (ok u, s') h =
        Yields-mono _ (IsApplied plan s s')
          (check_after c caps_bits secure_bits read_self apply_op plan (read_self s'))
          (λ after v. record {
            before = before;
            before_read = b;
            alone = one;
            done = h;
            after_read = v.0;
            verified = v.1;
          })
          (check_after_lem plan (read_self s') s' refl)

    start_lem :
        (plan : PrivilegePlan c) (s : S) (r : Result E ProcessState)
        → read_self s ≡ r
        → Yields
            (IsApplied plan s (start c caps_bits secure_bits read_self apply_op plan s r).1)
            (start c caps_bits secure_bits read_self apply_op plan s r).0
    start_lem plan s (err e) h = tt
    start_lem plan s (ok before) h = elim (Bool-cases (before.threads == 1)) [
      | inl e ↦
          let one : before.threads ≡ 1 = ==→≡ before.threads 1 e in
          rw e (
            ran_lem plan s before h one
              (apply_ops c caps_bits secure_bits read_self apply_op plan.ops s) refl)
      | inr e ↦ rw e tt
    ]

    -- Applying a plan either fails, or the process had one thread, every operation succeeded in order,
    -- and the result is what the process then says of itself, which has what the plan promised: the
    -- capabilities and user IDs of the plan, its group IDs and, when both are sorted without repetition,
    -- its supplementary groups if it has any, no inheritable and ambient capabilities, `no_new_privs`, the secure bits of its
    -- operations, and no other capability in the bounding set if it drops from it.
    pub apply-IsApplied :
        (plan : PrivilegePlan c) (s : S)
        → Yields
            (IsApplied plan s (apply c caps_bits secure_bits read_self apply_op plan s).1)
            (apply c caps_bits secure_bits read_self apply_op plan s).0
    unfolding apply
    apply-IsApplied plan s = start_lem plan s (read_self s) refl
