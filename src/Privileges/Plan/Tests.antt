-- ===== src/Privileges/Plan/Tests.antt =====
-- A small kernel with four capabilities, and the plan at concrete inputs on it.
use byssus.Base.{
  ◌↔◌, List, Elem, All-Elem, All-get, Bool-cases, inl, inr, sort_by, by_number, All-sort_by,
  Elem-sort_by, ℕ, ◌≡◌, refl, Bool, true, false, ◌&&◌, ◌||◌, not, Option, none, some, [], ◌∷◌,
  if◌then◌else◌, ok, text, arith,
}
use byssus.Privileges.Plan.{
  Capabilities, CapabilitySets, Credentials, Request, keep_sys_admin, PrivilegePlan, Op,
  clear_ambient, set_caps, drop_bounding_except, set_secure_bits, set_keep_caps, set_groups, Flag,
  no_root, no_root_locked, no_setuid_fixup, no_setuid_fixup_locked, keep_caps, keep_caps_locked,
  no_cap_ambient_raise, no_cap_ambient_raise_locked, locked_secure_bits, set_res_gid, set_res_uid,
  set_no_new_privs, final_groups, switch_to, plan,
}
use byssus.Privileges.Plan.Kernel.{is_flag, IsSets, Process, with_uid, IsOpen, IsKernel}
use byssus.Privileges.Plan.Drop.{Reaches}
use byssus.Privileges.Plan.Minimal.{IsStart}
use byssus.Privileges.Plan.Promise.{IsMinimal, plan-IsMinimal}

record Bits : Type 0 where
  sys_admin : Bool
  setuid : Bool
  setgid : Bool
  setpcap : Bool

abbrev bits : Bool → Bool → Bool → Bool → Bits
bits a b d e = record { sys_admin = a; setuid = b; setgid = d; setpcap = e }

abbrev four : Capabilities
four = record {
  CapabilitySet = Bits;
  empty = bits false false false false;
  sys_admin = bits true false false false;
  setuid = bits false true false false;
  setgid = bits false false true false;
  setpcap = bits false false false true;
  union = λ s t.
      bits (s.sys_admin || t.sys_admin) (s.setuid || t.setuid) (s.setgid || t.setgid)
        (s.setpcap || t.setpcap);
  SecureBits = Flag → Bool;
  flag = is_flag;
  union_bits = λ a b f. a f || b f;
  contains_flag = λ a f. a f;
  has = λ s t.
      (s.sys_admin || not t.sys_admin)
      && ((s.setuid || not t.setuid)
          && ((s.setgid || not t.setgid) && (s.setpcap || not t.setpcap)));
}

four-IsSets : IsSets four
four-IsSets = record {
  has_self = λ s. ground arith;
  has_empty = λ s. ground arith;
  has_trans = λ s t u h k. ground arith;
  union_left = λ s t. ground arith;
  union_right = λ s t. ground arith;
  union_least = λ s t u h k. ground arith;
  empty_has = λ s h. ground arith;
  contains_own = λ f g. refl;
  contains_union = λ a b f. refl;
}

abbrev meet : Bits → Bits → Bits
meet s t =
    bits (s.sys_admin && t.sys_admin) (s.setuid && t.setuid) (s.setgid && t.setgid)
      (s.setpcap && t.setpcap)

abbrev given : Bool → Process four → Option (Process four)
given b s = if b then some s else none

-- A locked flag cannot be set.
abbrev is_open_at : (Flag → Bool) → (Flag → Bool) → Flag → Flag → Bool
is_open_at old added l f = not (old l) || (not (added f) || old f)

abbrev is_open : (Flag → Bool) → (Flag → Bool) → Bool
is_open old added =
    is_open_at old added no_root_locked no_root
    && (is_open_at old added no_setuid_fixup_locked no_setuid_fixup
        && (is_open_at old added keep_caps_locked keep_caps
            && is_open_at old added no_cap_ambient_raise_locked no_cap_ambient_raise))

abbrev with_keep_caps : Bool → (Flag → Bool) → Flag → Bool
with_keep_caps b old f = if is_flag f keep_caps then b else old f

abbrev sorted : List ℕ → List ℕ
sorted = sort_by (by_number (λ g. g))

call : Op four → Process four → Option (Process four)
call clear_ambient s = some (record s { ambient = four.empty })
call (set_caps caps) s =
    given (four.has s.permitted caps.permitted && four.has caps.permitted caps.effective)
      (record s {
        effective = caps.effective;
        permitted = caps.permitted;
        inheritable = caps.inheritable;
        ambient = meet s.ambient (meet caps.permitted caps.inheritable);
      })
call (drop_bounding_except k) s =
    given (four.has s.effective four.setpcap) (record s { bounding = meet k s.bounding })
call (set_secure_bits added) s =
    given (four.has s.effective four.setpcap && is_open s.secure_bits added)
      (record s { secure_bits = four.union_bits s.secure_bits added })
call (set_keep_caps b) s =
    given (not (s.secure_bits keep_caps_locked))
      (record s { secure_bits = with_keep_caps b s.secure_bits })
call (set_groups gs) s = given (four.has s.effective four.setgid) (record s { groups = sorted gs })
call (set_res_gid g) s = given (four.has s.effective four.setgid) (record s { gid = g })
call (set_res_uid u) s = given (four.has s.effective four.setuid) (
    if s.secure_bits no_setuid_fixup
    then with_uid four u s.effective s.ambient s
    else if s.secure_bits keep_caps
    then with_uid four u four.empty four.empty s
    else record (with_uid four u four.empty four.empty s) { permitted = four.empty })
call set_no_new_privs s = some (record s { no_new_privs = true })

within_meet : (k b : Bits) → four.has k (meet k b) ≡ true
within_meet k b = ground arith

within_old : (s t : Bits) → four.has s (meet s t) ≡ true
within_old s t = ground arith

is_open_lem : (old added : Flag → Bool) → IsOpen four old added → is_open old added ≡ true
is_open_lem old added h = ground (
  arith,
  h no_root no_root_locked refl,
  h no_setuid_fixup no_setuid_fixup_locked refl,
  h keep_caps keep_caps_locked refl,
  h no_cap_ambient_raise no_cap_ambient_raise_locked refl,
)

Elem-sorted : (gs : List ℕ) (g : ℕ) → Elem g (sorted gs) ↔ Elem g gs
Elem-sorted gs g = (
  λ h.
      All-get (λ x. Elem x gs) (sorted gs) g
        (All-sort_by (by_number (λ x. x)) (λ x. Elem x gs) gs
          (All-Elem (λ x. Elem x gs) gs (λ a m. m)))
        h,
  λ h. Elem-sort_by (by_number (λ x. x)) gs g h,
)

set_keep_caps_lem :
    (b : Bool) (old : Flag → Bool) (f : Flag)
    → is_flag f keep_caps ≡ false
    → with_keep_caps b old f ≡ old f
set_keep_caps_lem b old f h = rw h refl

within_meet' : (k b : Bits) → four.has b (meet k b) ≡ true
within_meet' k b = ground arith

call-IsKernel : IsKernel four call
unfolding call
call-IsKernel = record {
  ambient_cleared = λ s. refl;
  caps_set = λ caps s h k e. (
    meet s.ambient (meet caps.permitted caps.inheritable),
    within_old s.ambient (meet caps.permitted caps.inheritable),
    rw (h, k) refl,
  );
  bounding_dropped =
      λ k s h. (meet k s.bounding, within_meet k s.bounding, within_meet' k s.bounding, rw h refl);
  secure_bits_set = λ bits s h o. rw (h, is_open_lem s.secure_bits bits o) refl;
  keep_caps_set =
      λ b s h. (with_keep_caps b s.secure_bits, refl, set_keep_caps_lem b s.secure_bits, rw h refl);
  groups_set = λ gs s h. (sorted gs, Elem-sorted gs, rw h refl);
  gid_set = λ g s h. rw h refl;
  uid_set = λ u s h k. rw h (rw k refl);
  uid_set_keeping = λ u s h k. elim (Bool-cases (s.secure_bits no_setuid_fixup)) [
    | inl e ↦ (s.effective, s.ambient, four-IsSets.has_self s.ambient, rw (h, e) refl)
    | inr e ↦ (four.empty, four.empty, four-IsSets.has_empty s.ambient, rw (h, e, k) refl)
  ];
  no_new_privs_set = λ s. refl;
}

abbrev all : Bits
all = bits true true true true

abbrev root : Credentials four
root = record {
  real_uid = 0;
  effective_uid = 0;
  saved_uid = 0;
  caps = record { effective = all; permitted = all; inheritable = four.empty };
}

abbrev request : Request
request = record {
  goal = keep_sys_admin;
  user = some (record { name = text "byssus"; uid = 990; gid = 991; groups = 4 ∷ [] });
  allow_root = false;
}

abbrev sole : CapabilitySets four
sole = record { effective = four.sys_admin; permitted = four.sys_admin; inheritable = four.empty }

abbrev planned : PrivilegePlan four
planned = record {
  ops =
      clear_ambient
      ∷ drop_bounding_except four.sys_admin
      ∷ set_secure_bits (locked_secure_bits four)
      ∷ set_groups (991 ∷ 4 ∷ [])
      ∷ set_res_gid 991
      ∷ set_res_uid 990
      ∷ set_caps sole
      ∷ set_no_new_privs
      ∷ [];
  warnings = [];
  final_uid = 990;
  final_caps = four.sys_admin;
  final_groups = some (record { gid = 991; groups = 991 ∷ 4 ∷ [] });
}

-- Root switches to the service user.
plan-root : plan four root request ≡ ok planned
unfolding plan switch_to final_groups
plan-root = refl

abbrev process : Process four
process = record {
  real_uid = 0;
  effective_uid = 0;
  saved_uid = 0;
  gid = 0;
  groups = [];
  effective = all;
  permitted = all;
  inheritable = four.empty;
  ambient = all;
  bounding = all;
  secure_bits = λ f. false;
  no_new_privs = false;
}

process-IsStart : IsStart four four-IsSets call call-IsKernel root process
process-IsStart = record {
  permitted = refl;
  effective = refl;
  real_uid = refl;
  effective_uid = refl;
  saved_uid = refl;
  within = refl;
  unlocked = λ e. refl;
  unlockable = λ e f l k locked added. absurd (ground arith);
}

plan-IsMinimal_example :
    Reaches four four-IsSets call call-IsKernel planned.ops
      (IsMinimal four four-IsSets call call-IsKernel root planned process)
      process
plan-IsMinimal_example =
    plan-IsMinimal four four-IsSets call call-IsKernel root request planned process plan-root
      process-IsStart
