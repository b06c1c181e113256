-- ===== src/Reconcile/Execute/Tests.antt =====
-- Runs of the executor, and its theorems at concrete inputs.
use byssus.Base.{
  ℕ, ◌<◌, ◌≡◌, ◌≢◌, refl, Bool, true, false, none, some, List, [], ◌∷◌, Text, text, All, length,
  get_elem?, arith,
}
use byssus.Base.Exec.{pure, raise}
use byssus.Base.Map
use byssus.System.{other}
use byssus.System.Toy.{toy}
use byssus.Identity.{MountIdentity}
use byssus.State
use byssus.State.{State, MountRecord, RecordKey, key, identity}
use byssus.State.Laws.{IsKeyed}
use byssus.Mount.{attr_bits, unmount_verified}
use byssus.Mount.Attrs.{set_by, attr_bits-enforce}
use byssus.Mount.Lasting.{IsLasting}
use byssus.Mount.Verified.{IsSafeUnmount, unmount_verified-IsSafeUnmount}
use byssus.Reconcile.Types.{enforce, mount, Step, Plan}
use byssus.Reconcile.Plan.{plan}
use byssus.Reconcile.Tests.{left, joined, recorded, replaced, replacement, recorded-IsKeyed}
use byssus.Reconcile.Execute.{
  StepResult, done, skipped, failed, blocked, Sink, Machine, execute, execute_rest, execute_step,
  run,
}
use byssus.Reconcile.Execute.Dependencies.{is_skipped, execute-plan}
use byssus.Reconcile.Execute.Effects.{IsEffect, execute_step-IsEffect, execute_frame}

abbrev pub saving : Sink toy
saving = record { save = λ s. pure tt; now = λ here. 0 }

abbrev full : Sink toy
full = record { save = λ s. raise (other (text "full")); now = λ here. 0 }

abbrev machine : Machine toy
machine = record { world = true; roots = []; state = recorded }

carry_out : Sink toy → Plan → Machine toy → List StepResult × Machine toy
unfolding execute execute_rest execute_step run Map.get byssus.Identity.matches
    byssus.Identity.beq_dev_ino Map.insert byssus.Base.split
carry_out sink p m = execute toy sink true p m

-- The mount that is left is unmounted and the new one made.
execute_replacement : (carry_out saving replacement machine).0 ≡ done ∷ done ∷ []
unfolding carry_out
execute_replacement = refl

-- Without the state file nothing is recorded, and what waits for the first step is skipped.
execute_full :
    (carry_out full replacement machine).0
    ≡ failed (text "cannot write state file: full") ∷ skipped ∷ []
unfolding carry_out
execute_full = refl

execute-plan_example :
    (length (execute toy full true (plan replaced) machine).0 ≡ length (plan replaced).steps)
    × ((i : ℕ) (s : Step) (r : StepResult)
        → get_elem? (plan replaced).steps i ≡ some s
        → get_elem? (execute toy full true (plan replaced) machine).0 i ≡ some r
        → is_skipped r ≡ blocked (execute toy full true (plan replaced) machine).0 s)
execute-plan_example = execute-plan toy full true replaced machine recorded-IsKeyed

abbrev mount_step : Step
mount_step = record { action = mount joined; depends_on = [] }

abbrev free : Machine toy
free = record { world = false; roots = []; state = recorded }

-- This step is completed.
execute_free :
    (carry_out saving (record { steps = mount_step ∷ []; findings = [] }) free).0 ≡ done ∷ []
unfolding carry_out
execute_free = refl

execute_step-IsEffect_example :
    IsEffect toy saving true
      (mount joined)
      free
      (execute_step toy saving true [] mount_step free).0
      (execute_step toy saving true [] mount_step free).1
execute_step-IsEffect_example = execute_step-IsEffect toy saving true [] mount_step free

abbrev bystander : RecordKey
bystander = record { group = joined.key.group; name = record { str = text "bystander" } }

bystander-left : bystander ≢ key left
bystander-left = ground arith

bystander-joined : bystander ≢ joined.key
bystander-joined = ground arith

execute_frame_example :
    IsKeyed (execute toy saving true replacement machine).1.state
    × (State.get (execute toy saving true replacement machine).1.state bystander
        ≡ State.get recorded bystander)
execute_frame_example =
    execute_frame toy saving true bystander replacement machine recorded-IsKeyed
      (bystander-left, (bystander-joined, tt))

abbrev IsMountedHere : Bool → Type 0
IsMountedHere here = here ≡ true

toy-IsLasting : IsLasting toy IsMountedHere
toy-IsLasting = record {
  openat2_keeps = λ fd path w p. p;
  statx_keeps = λ fd w p. p;
  statx_unique_keeps = λ fd w p. p;
  fstatvfs_keeps = λ fd w p. p;
  open_link_keeps = λ fd w p. p;
}

unmount_verified-IsSafeUnmount_example :
    IsSafeUnmount toy IsMountedHere toy-IsLasting
      (identity left)
      true
      (unmount_verified toy 3 (text "view/x") (identity left) true true).0
      (unmount_verified toy 3 (text "view/x") (identity left) true true).1
unmount_verified-IsSafeUnmount_example =
    unmount_verified-IsSafeUnmount toy IsMountedHere toy-IsLasting (identity left) true 3
      (text "view/x") true refl

attr_bits-enforce_example :
    (set_by (attr_bits joined.attrs) ≡ record {
      read_only = true;
      nosuid = true;
      nodev = true;
      noexec = true;
      nosymfollow = false;
    })
    × (enforce (set_by (attr_bits joined.attrs)) joined.attrs ≡ true)
attr_bits-enforce_example = attr_bits-enforce joined.attrs
