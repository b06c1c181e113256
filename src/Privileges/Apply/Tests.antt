-- ===== src/Privileges/Apply/Tests.antt =====
-- A plan that is applied to a small process (src/privileges/apply.rs).
use Prim.Native.Nat.{bit_and, bit_or}
use byssus.Base.{
  ℕ, ◌≡◌, refl, Bool, true, false, some, [], ◌∷◌, Result, ok, err, Yields, ◌==◌, nat_eq,
}
use byssus.Privileges.Plan.{
  Flag, no_root, no_root_locked, no_setuid_fixup, no_setuid_fixup_locked, keep_caps,
  keep_caps_locked, no_cap_ambient_raise, no_cap_ambient_raise_locked, locked_secure_bits,
  Capabilities, PrivilegePlan, Op, clear_ambient, set_caps, drop_bounding_except, set_secure_bits,
  set_keep_caps, set_groups, set_res_gid, set_res_uid, set_no_new_privs,
}
use byssus.Privileges.Apply.{Ids, ProcessState, multi_threaded, ApplyError, apply}
use byssus.Privileges.Apply.Verified.{IsApplied, apply-IsApplied}

-- The bits of the kernel's interface.
abbrev bit_of : Flag → ℕ
bit_of no_root = 1
bit_of no_root_locked = 2
bit_of no_setuid_fixup = 4
bit_of no_setuid_fixup_locked = 8
bit_of keep_caps = 16
bit_of keep_caps_locked = 32
bit_of no_cap_ambient_raise = 64
bit_of no_cap_ambient_raise_locked = 128

-- Sets of capabilities as bits, by their numbers in the kernel.
abbrev masks : Capabilities
masks = record {
  CapabilitySet = ℕ;
  empty = 0;
  sys_admin = 2097152;
  setuid = 128;
  setgid = 64;
  setpcap = 256;
  union = bit_or;
  SecureBits = ℕ;
  flag = bit_of;
  union_bits = bit_or;
  contains_flag = λ s f. bit_and s (bit_of f) == bit_of f;
  has = λ s t. bit_and s t == t;
}

abbrev same : ℕ → ℕ
same n = n

abbrev all_of : ℕ → Ids
all_of id = record { real = id; effective = id; saved = id }

abbrev root : ProcessState
root = record {
  uids = all_of 0;
  gids = all_of 0;
  groups = [];
  threads = 1;
  cap_inheritable = 0;
  cap_permitted = 4194303;
  cap_effective = 4194303;
  cap_bounding = 4194303;
  cap_ambient = 2;
  no_new_privs = false;
  secure_bits = 0;
}

abbrev read_self : ProcessState → Result ℕ ProcessState
read_self s = ok s

abbrev apply_op : Op masks → ProcessState → Result ℕ (Unit {0}) × ProcessState
apply_op clear_ambient s = (ok tt, record s { cap_ambient = 0 })
apply_op (set_caps sets) s = (
  ok tt,
  record s {
    cap_effective = sets.effective;
    cap_permitted = sets.permitted;
    cap_inheritable = sets.inheritable;
  },
)
apply_op (drop_bounding_except k) s = (ok tt, record s { cap_bounding = bit_and s.cap_bounding k })
apply_op (set_secure_bits bits) s = (ok tt, record s { secure_bits = bit_or s.secure_bits bits })
apply_op (set_keep_caps b) s = (ok tt, s)
apply_op (set_groups gs) s = (ok tt, record s { groups = gs })
apply_op (set_res_gid g) s = (ok tt, record s { gids = all_of g })
apply_op (set_res_uid u) s = (ok tt, record s { uids = all_of u })
apply_op set_no_new_privs s = (ok tt, record s { no_new_privs = true })

abbrev to_user : PrivilegePlan masks
to_user = record {
  ops =
      clear_ambient
      ∷ drop_bounding_except 2097152
      ∷ set_secure_bits 239
      ∷ set_groups (992 ∷ 501 ∷ [])
      ∷ set_res_gid 992
      ∷ set_res_uid 991
      ∷ set_caps (record { effective = 2097152; permitted = 2097152; inheritable = 0 })
      ∷ set_no_new_privs
      ∷ [];
  warnings = [];
  final_uid = 991;
  final_caps = 2097152;
  final_groups = some (record { gid = 992; groups = 501 ∷ 992 ∷ [] });
}

-- The outcome, whether the plan was applied.
outcome : PrivilegePlan masks → ProcessState → Result (ApplyError masks ℕ) ProcessState
unfolding apply
outcome plan s = (apply masks same same read_self apply_op plan s).0

abbrev is_ok : Result (ApplyError masks ℕ) ProcessState → Bool
is_ok (ok s) = true
is_ok (err e) = false

outcome_ok : is_ok (outcome to_user root) ≡ true
unfolding outcome
outcome_ok = refl

outcome_threads : outcome to_user (record root { threads = 2 }) ≡ err (multi_threaded 2)
unfolding outcome
outcome_threads = refl

verify_root : is_ok (outcome (record to_user { ops = [] }) root) ≡ false
unfolding outcome
verify_root = refl

apply-IsApplied_example :
    Yields
      (IsApplied masks same same read_self apply_op to_user root
        (apply masks same same read_self apply_op to_user root).1)
      (apply masks same same read_self apply_op to_user root).0
apply-IsApplied_example = apply-IsApplied masks same same read_self apply_op to_user root

locked_mask : locked_secure_bits masks ≡ 239
unfolding locked_secure_bits
locked_mask = refl
