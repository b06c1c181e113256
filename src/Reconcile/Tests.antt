-- ===== src/Reconcile/Tests.antt =====
-- Runs of the planner, and its theorems at concrete inputs.
use byssus.Base.{
  ℕ, ◌<◌, ◌≡◌, refl, inl, inr, true, false, none, some, [], ◌∷◌, Text, text, All, nat_ord, nat_eq,
  list_ord, option_ord,
}
use byssus.Base.Map
use byssus.Name.{Name, GroupId, statically, name_ord, group_ord}
use byssus.Identity.{matches, beq_dev_ino, beq_identity}
use byssus.Config.{AbsPath, MountAttrs}
use byssus.State
use byssus.State.{RecordKey, MountRecord, State, key, identity}
use byssus.State.Laws.{IsKeyed}
use byssus.Reconcile.Types.{
  DesiredMount, resolved, mounted, not_mounted, source_location, PlanInput, unmount, mount,
  not_member, Plan, target_location,
}
use byssus.Reconcile.Builder.{push, target_at, source_of}
use byssus.Reconcile.Collisions.{accept_all, accept, group_by_target, add_to}
use byssus.Reconcile.Plan.{
  plan, plan_member, plan_departing_record, depart, departure_reason, plan_unrecorded_member,
  plan_recorded_member, mount_at_target, mount_if_resolved,
}
use byssus.Reconcile.Plan.Spec.{IsJustified, IsReady, IsRemoval}
use byssus.Reconcile.Plan.Safety.{plan_action, plan-IsJustified, plan-IsReady, plan_dependencies}
use byssus.Reconcile.Plan.Settled.{IsSettled, plan_settled}
use byssus.Reconcile.Plan.Targets.{plan_targets}

abbrev pub named : Text → Name
named s = record { str = s }

abbrev pub research : GroupId
research = statically (named (text "research"))

abbrev pub srv : AbsPath
srv = record { components = text "srv" ∷ [] }

abbrev pub restrictions : MountAttrs
restrictions = record { read_only = true; noexec = true; nosymfollow = false }

-- The mount of a member that left the group.
abbrev pub left : MountRecord
left = record {
  group = research;
  name = named (text "curl");
  source_root = srv;
  source = text "curl";
  target_root = srv;
  target = text "view/x";
  mnt_id = 7;
  mnt_id_unique = some 70;
  root_dev_major = 8;
  root_dev_minor = 1;
  root_ino = 99;
  read_only = true;
  noexec = true;
  nosymfollow = false;
  created_at = 0;
}

-- A member that wants the same target.
abbrev pub joined : DesiredMount
joined = record {
  key = record { group = research; name = named (text "zlib") };
  source = record { root = srv; path = text "zlib" };
  target = target_location left;
  attrs = restrictions;
}

abbrev pub recorded : State
recorded = record { entries = (key left, left) ∷ [] }

abbrev pub replaced : PlanInput
replaced = record {
  desired = joined ∷ [];
  state = recorded;
  frozen_groups = [];
  observations = record {
    sources = (joined.key, resolved (record { dev_major = 8; dev_minor = 1; ino = 5 })) ∷ [];
    targets = (target_location left, mounted (identity left) none) ∷ [];
  };
}

abbrev pub replacement : Plan
replacement = record {
  steps =
      record { action = unmount left not_member; depends_on = [] }
      ∷ record { action = mount joined; depends_on = 0 ∷ [] }
      ∷ [];
  findings = [];
}

run : PlanInput → Plan
unfolding plan plan_member plan_departing_record depart departure_reason plan_unrecorded_member
    plan_recorded_member mount_at_target mount_if_resolved accept_all group_by_target add_to
    Map.insert accept Map.get State.get State.records Map.values target_at matches beq_dev_ino
    beq_identity source_of push
run = plan

-- The member that left is unmounted first, and the new one waits for that.
run-replaced : run replaced ≡ replacement
unfolding run
run-replaced = refl

pub recorded-IsKeyed : IsKeyed recorded
recorded-IsKeyed = record { keyed = (refl, tt); sorted = (tt, tt) }

plan-IsJustified_example : IsJustified replaced (mount joined)
unfolding run
plan-IsJustified_example =
    plan-IsJustified replaced recorded-IsKeyed 1
      (record { action = mount joined; depends_on = 0 ∷ [] }) refl

plan-IsReady_example : IsReady replaced (plan_action replaced) (mount joined) (0 ∷ [])
unfolding run
plan-IsReady_example =
    plan-IsReady replaced recorded-IsKeyed 1 (record { action = mount joined; depends_on = 0 ∷ [] })
      refl

plan_dependencies_example : All (λ d. (d < 1) × IsRemoval (plan_action replaced d)) (0 ∷ [])
unfolding run
plan_dependencies_example =
    plan_dependencies replaced recorded-IsKeyed 1
      (record { action = mount joined; depends_on = 0 ∷ [] }) refl

plan_targets_example : ◌≡◌ {A = ℕ} 1 1
unfolding run
plan_targets_example = plan_targets replaced 1 1 joined joined refl refl refl

-- The member that is recorded stays, and its mount is there.
abbrev stays : DesiredMount
stays = record {
  key = key left;
  source = source_location left;
  target = target_location left;
  attrs = restrictions;
}

abbrev settled : PlanInput
settled = record {
  desired = stays ∷ [];
  state = recorded;
  frozen_groups = [];
  observations = record {
    sources = (key left, resolved (identity left).root) ∷ [];
    targets = (target_location left, mounted (identity left) none) ∷ [];
  };
}

settled-IsSettled : IsSettled settled
unfolding run byssus.Reconcile.Builder.record_matches_desired byssus.Config.beq_attrs
settled-IsSettled = record {
  keys = (tt, tt);
  targets = (tt, tt);
  members = (
    λ thawed. (
      left,
      record {
        recorded = refl;
        located = refl;
        found = identity left;
        attrs = none;
        observed = refl;
        ours = refl;
        source = refl;
        attributes = refl;
        enforced = refl;
      },
    ),
    tt,
  );
  records = (inr (stays, inl refl, refl, refl, refl), tt);
}

plan_settled_example : (plan settled).steps ≡ []
plan_settled_example = plan_settled settled settled-IsSettled

-- A member that joined, at a free target.
abbrev awaited : PlanInput
awaited = record {
  desired = joined ∷ [];
  state = State.default;
  frozen_groups = [];
  observations = record {
    sources = (joined.key, resolved (record { dev_major = 8; dev_minor = 1; ino = 5 })) ∷ [];
    targets = (joined.target, not_mounted) ∷ [];
  };
}
