-- ===== src/Reconcile/Pass/Tests.antt =====
-- Runs of passes, and the theorems about them at concrete inputs.
use byssus.Base.{
  ◌≡◌, refl, true, some, inl, List, [], ◌∷◌, map, length, ap, arith, split, text, IsNodup,
}
use byssus.Base.Map
use byssus.Base.Set
use byssus.Name.{group_ord, group_eq}
use byssus.Membership.{not_directory, regular}
use byssus.Template.{Piece, literal}
use byssus.State
use byssus.State.{State, MountRecord, key}
use byssus.State.Laws.{IsKeyed}
use byssus.System.Toy.{toy}
use byssus.Config.Groups.{GroupConfig}
use byssus.Reconcile.Notes.{
  Note, membership_unreadable, note_identity, NoteKey, note_key_ord, text_ord, NoteEvent, raised,
  cleared, NoteLog, update, Observed, set_entry_rejected,
}
use byssus.Reconcile.Notes.Laws.{kept, by_key, examined_groups, update-get, update-settled}
use byssus.Reconcile.Observe.{default_observed}
use byssus.Reconcile.Observe.Frozen.{IsFrozen}
use byssus.Identity.{matches, beq_dev_ino, beq_identity}
use byssus.Reconcile.Builder.{push, target_at, source_of}
use byssus.Reconcile.Collisions.{accept_all, accept, group_by_target, add_to}
use byssus.Reconcile.Plan.{
  plan_member, plan_departing_record, depart, departure_reason, plan_unrecorded_member,
  plan_recorded_member, mount_at_target,
}
use byssus.Reconcile.Tests.{named, research, srv, restrictions, left, recorded, recorded-IsKeyed}
use byssus.Reconcile.Execute.Tests.{saving}
use byssus.Reconcile.Execute.{done}
use byssus.Reconcile.Pass.{Degraded, Pass, PassState, run_pass}
use byssus.Reconcile.Pass.Frozen.{run_pass_frozen, run_pass_degraded}

-- `{name}`, and `view/x`-like targets beneath the same root.
abbrev config : GroupConfig
config = record {
  name = research;
  source_root = srv;
  source = record { raw = text "{name}"; components = (Piece.name ∷ []) ∷ [] };
  target_root = srv;
  target = record {
    raw = text "view/{name}";
    components = (literal (text "view") ∷ []) ∷ (Piece.name ∷ []) ∷ [];
  };
  membership = srv;
  attrs = restrictions;
  origin = text "/etc/byssus.toml";
}

abbrev start : PassState toy
start = record {
  runtime = record {
    groups = (research, record { config = config; membership_dir = 9 }) ∷ [];
    sets = [];
    intermediates = [];
    roots = [];
  };
  state = recorded;
  log = record { active = [] };
  world = true;
}

abbrev nothing_degraded : Degraded
nothing_degraded = record { groups = []; sets = [] }

abbrev research_degraded : Degraded
research_degraded = record { groups = research ∷ []; sets = [] }

pass : Degraded → Pass × PassState toy
unfolding run_pass accept_all group_by_target Map.retain Set.extend Map.values Map.keys Map.insert
    add_to accept Map.get plan_member State.get Set.insert plan_unrecorded_member
    plan_departing_record depart target_at departure_reason plan_recorded_member mount_at_target
    matches beq_dev_ino beq_identity source_of push split
pass degraded = run_pass toy true (λ runtime w. w) saving degraded start

-- The member that left is unmounted, the one that joined finds its target taken.
pass-executed : (pass nothing_degraded).0.execution ≡ done ∷ []
unfolding pass
pass-executed = refl

pass-degraded : (pass research_degraded).0.execution ≡ []
unfolding pass
pass-degraded = refl

research-IsFrozen :
    IsFrozen research (run_pass toy true (λ runtime w. w) saving research_degraded start).0.observed
unfolding pass
research-IsFrozen = refl

run_pass_frozen_example :
    IsKeyed (run_pass toy true (λ runtime w. w) saving research_degraded start).1.state
    × (State.get
          (run_pass toy true (λ runtime w. w) saving research_degraded start).1.state
          (key left)
        ≡ State.get recorded (key left))
run_pass_frozen_example =
    run_pass_frozen toy true (λ runtime w. w) saving research_degraded start (key left)
      recorded-IsKeyed research-IsFrozen

left-recorded : State.get recorded (key left) ≡ some left
unfolding State.get Map.get
left-recorded = refl

run_pass_degraded_example :
    State.get (run_pass toy true (λ runtime w. w) saving research_degraded start).1.state (key left)
    ≡ some left
run_pass_degraded_example =
    run_pass_degraded toy true (λ runtime w. w) saving research_degraded start (key left) left
      recorded-IsKeyed left-recorded (inl refl)

-- A file in the membership root of a set, and a group whose directory cannot be read.
abbrev file_in_set : Note
file_in_set =
    set_entry_rejected (named (text "orgs"))
      (record { display_name = text "file"; reason = not_directory (regular 0) })

abbrev unreadable : Note
unreadable = membership_unreadable research (text "I/O error")

abbrev noted : Observed
noted = record default_observed { notes = file_in_set ∷ unreadable ∷ [] }

abbrev empty_log : NoteLog
empty_log = record { active = [] }

report : NoteLog → Observed → List NoteEvent × NoteLog
unfolding update Map.insert Map.get Set.extend Set.insert Map.keys
report = update

report-first : (report empty_log noted).0 ≡ raised file_in_set ∷ raised unreadable ∷ []
unfolding report
report-first = refl

report-cleared :
    (report
      (report empty_log noted).1
      (record default_observed { scanned_sets = named (text "orgs") ∷ [] })).0
    ≡ cleared (text "orgs/*") (text "file") ∷ []
unfolding report
report-cleared = refl

noted-IsNodup : IsNodup (Map.firsts (map note_identity noted.notes))
unfolding note_identity
noted-IsNodup =
    ((λ e. absurd (omega (arith, ap (λ (k : NoteKey). length k.group) e)), tt), (tt, tt))

abbrev research_key : NoteKey
research_key = record { group = text "research"; subject = [] }

update-get_example :
    Map.get research_key (update empty_log noted).1.active
    ≡ kept
        (Set.has (examined_groups noted) (text "research"))
        (Map.get research_key (by_key noted.notes))
        (Map.get research_key empty_log.active)
update-get_example = update-get empty_log noted research_key

update-settled_example : (update (update empty_log noted).1 noted).0 ≡ []
update-settled_example = update-settled empty_log noted noted-IsNodup
