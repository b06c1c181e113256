-- ===== src/Privileges/Apply.antt =====
-- Applying a plan and checking the result (src/privileges/apply.rs).
pub mod Verified
mod Tests
use Prim.Native.Nat.{bit_and}
use byssus.Base.{
  ℕ, ◌-◌, ◌^◌, Bool, true, false, not, ◌&&◌, ◌||◌, Option, none, some, List, [], ◌∷◌, ◌++◌, any,
  is_empty, if◌then◌else◌, Result, ok, err, ◌==◌, nat_eq, list_eq, by_number, sort_by, dedup, Text,
  text,
}
use byssus.Privileges.Plan.{
  Capabilities, FinalGroups, PrivilegePlan, Op, set_secure_bits, drop_bounding_except,
}

-- Three IDs: real, effective and saved.
pub record Ids : Type 0 where
  pub real : ℕ
  pub effective : ℕ
  pub saved : ℕ

-- The sets of capabilities and the secure bits are their bits.
pub record ProcessState : Type 0 where
  pub uids : Ids
  pub gids : Ids
  pub groups : List ℕ
  pub threads : ℕ
  pub cap_inheritable : ℕ
  pub cap_permitted : ℕ
  pub cap_effective : ℕ
  pub cap_bounding : ℕ
  pub cap_ambient : ℕ
  pub no_new_privs : Bool
  pub secure_bits : ℕ

-- The data of the problems.
pub data Problem : Type 0 where
  wrong_gids : Ids → ℕ → Problem
  wrong_groups : List ℕ → List ℕ → Problem
  wrong_uids : Ids → ℕ → Problem
  wrong_caps : Text → ℕ → ℕ → Problem
  inheritable_left : ℕ → Problem
  ambient_left : ℕ → Problem
  can_gain : Problem
  wrong_secure_bits : ℕ → ℕ → Problem
  bounding_exceeds : ℕ → ℕ → Problem

abbrev pub push_if : Bool → Problem → List Problem
push_if c p = if c then p ∷ [] else []

abbrev pub differs : Ids → ℕ → Bool
differs ids id = not (ids.real == id && (ids.effective == id && ids.saved == id))

unfoldable pub sorted : List ℕ → List ℕ
unfolding sort_by dedup
sorted groups = dedup (sort_by (by_number (λ g. g)) groups)

-- What the first has in 64 bits and the second lacks: `a & !b`
abbrev pub without : ℕ → ℕ → ℕ
without a b = bit_and a (2 ^ 64 - 1 - b)

abbrev pub check_groups : Option FinalGroups → ProcessState → List Problem
check_groups none status = []
check_groups (some expected) status =
    push_if (differs status.gids expected.gid) (wrong_gids status.gids expected.gid)
    ++ push_if (not (sorted status.groups == sorted expected.groups))
        (wrong_groups status.groups expected.groups)

-- `E` are the errors of the system calls.
pub data ApplyError (c : Capabilities) (E : Type 0) : Type 0 where
  multi_threaded : ℕ → ApplyError c E
  read_failed : E → ApplyError c E
  op_failed : Op c → E → ApplyError c E
  verification : List Problem → ApplyError c E

abbrev pub accepted :
    {c : Capabilities} {E : Type 0}
    → ProcessState
    → Result (List Problem) (Unit {0})
    → Result (ApplyError c E) ProcessState
accepted after (ok u) = ok after
accepted after (err problems) = err (verification problems)

-- `bits()` of the library's sets.
module _ (c : Capabilities) (caps_bits : c.CapabilitySet → ℕ) (secure_bits : c.SecureBits → ℕ) where
  abbrev pub check_secure_bits : Op c → ProcessState → List Problem
  check_secure_bits (set_secure_bits bits) status =
      push_if (not (bit_and status.secure_bits (secure_bits bits) == secure_bits bits))
        (wrong_secure_bits status.secure_bits (secure_bits bits))
  check_secure_bits _ status = []

  abbrev pub check_ops : List (Op c) → ProcessState → List Problem
  check_ops [] status = []
  check_ops (op ∷ ops) status = check_secure_bits op status ++ check_ops ops status

  abbrev pub drops_bounding : Op c → Bool
  drops_bounding (drop_bounding_except k) = true
  drops_bounding _ = false

  unfoldable pub problems_of : PrivilegePlan c → ProcessState → List Problem
  unfolding sorted
  problems_of plan status =
      let expected = caps_bits plan.final_caps in
      check_groups plan.final_groups status
      ++ (push_if (differs status.uids plan.final_uid) (wrong_uids status.uids plan.final_uid)
          ++ (push_if (not (status.cap_effective == expected))
                (wrong_caps (text "effective") status.cap_effective expected)
              ++ (push_if (not (status.cap_permitted == expected))
                    (wrong_caps (text "permitted") status.cap_permitted expected)
                  ++ (push_if (not (status.cap_inheritable == 0))
                        (inheritable_left status.cap_inheritable)
                      ++ (push_if (not (status.cap_ambient == 0)) (ambient_left status.cap_ambient)
                          ++ (push_if (not status.no_new_privs) can_gain
                              ++ (check_ops plan.ops status
                                  ++ push_if
                                      (any drops_bounding plan.ops
                                        && not (without status.cap_bounding expected == 0))
                                      (bounding_exceeds status.cap_bounding expected))))))))

  unfoldable pub verify : PrivilegePlan c → ProcessState → Result (List Problem) (Unit {0})
  unfolding problems_of
  verify plan status =
      let problems = problems_of plan status in if is_empty problems then ok tt else err problems

  -- The process is a state that only these calls read and change.
  module _ {S E : Type 0} (read_self : S → Result E ProcessState)
      (apply_op : Op c → S → Result E (Unit {0}) × S) where
    unfoldable pub apply_ops : List (Op c) → S → Result (ApplyError c E) (Unit {0}) × S
    apply_ops [] s = (ok tt, s)
    apply_ops (op ∷ ops) s =
        let (r, s') = apply_op op s in
        let rest = apply_ops ops s' in elim r [ ok u ↦ rest | err e ↦ (err (op_failed op e), s') ]

    abbrev pub check_after :
        PrivilegePlan c → Result E ProcessState → Result (ApplyError c E) ProcessState
    check_after plan (err e) = err (read_failed e)
    check_after plan (ok after) = accepted after (verify plan after)

    abbrev pub after_ops :
        PrivilegePlan c
        → Result (ApplyError c E) (Unit {0}) × S
        → Result (ApplyError c E) ProcessState × S
    after_ops plan (ok u, s) = (check_after plan (read_self s), s)
    after_ops plan (err e, s) = (err e, s)

    abbrev pub start :
        PrivilegePlan c → S → Result E ProcessState → Result (ApplyError c E) ProcessState × S
    start plan s (err e) = (err (read_failed e), s)
    start plan s (ok before) =
        if before.threads == 1
        then after_ops plan (apply_ops plan.ops s)
        else (err (multi_threaded before.threads), s)

    unfoldable pub apply : PrivilegePlan c → S → Result (ApplyError c E) ProcessState × S
    unfolding verify apply_ops
    apply plan s = start plan s (read_self s)
