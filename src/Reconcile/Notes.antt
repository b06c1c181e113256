-- ===== src/Reconcile/Notes.antt =====
-- What an observation reports, and the log of it (src/reconcile/observe.rs, src/reconcile/mod.rs).
pub mod Laws
use byssus.Base.{
  ◌≡◌, Bool, true, false, Option, none, some, List, [], ◌∷◌, ◌++◌, map, if◌then◌else◌, Text, text,
  slash, Eq, Ord, ◌==◌, nat_ord, nat_eq, list_ord, list_eq, option_eq, eq_of_ord, ord_fields,
}
use byssus.Base.Map
use byssus.Base.Map.{Map}
use byssus.Base.Set
use byssus.Name.{Name, GroupId, display, group_ord}
use byssus.Membership.{Rejection}
use byssus.Template.{InterpolateError}
use byssus.Reconcile.Types.{DesiredMount, Observations}
use byssus.Reconcile.Messages.{reason_message, interpolation_message}

pub data Note : Type 0 where
  rejected : GroupId → Rejection → Note
  interpolation_failed : GroupId → Name → Text → InterpolateError → Note
  set_entry_rejected : Name → Rejection → Note
  set_root_deleted : Name → Note
  set_root_unreadable : Name → Text → Note
  membership_deleted : GroupId → Note
  membership_unreadable : GroupId → Text → Note

pub record Observed : Type 0 where
  pub desired : List DesiredMount
  pub observations : Observations
  pub frozen : List GroupId
  pub members : Map GroupId (Map Name (Unit {0}))
  pub scanned_sets : List Name
  pub ignored : Map GroupId (List Text)
  pub notes : List Note

-- A group or set, and an entry of it or nothing.
pub record NoteKey : Type 0 where
  pub group : Text
  pub subject : Text

pub NoteKey-inj : (a b : NoteKey) → a.group ≡ b.group → a.subject ≡ b.subject → a ≡ b
NoteKey-inj a b e f = λ i. record { group = e i; subject = f i }

instance abbrev pub note_key_ord : Ord NoteKey
note_key_ord = ord_fields (λ k. k.group) (λ k. k.subject) NoteKey-inj

-- Text is compared byte by byte.
instance abbrev pub text_ord : Ord Text
text_ord = list_ord

unfoldable pub set_label : Name → Text
set_label set = set.str ++ text "/*"

abbrev pub identify : Text → Text → Text → NoteKey × Text
identify group subject detail = (record { group = group; subject = subject }, detail)

unfoldable pub note_identity : Note → NoteKey × Text
unfolding display set_label reason_message interpolation_message
note_identity (rejected group r) = identify (display group) r.display_name (reason_message r.reason)
note_identity (interpolation_failed group name field e) =
    identify (display group) name.str (field ++ (text " template: " ++ interpolation_message e))
note_identity (membership_deleted group) = identify (display group) [] (text "deleted")
note_identity (membership_unreadable group e) = identify (display group) [] e
note_identity (set_entry_rejected set r) =
    identify (set_label set) r.display_name (reason_message r.reason)
note_identity (set_root_deleted set) = identify (set_label set) [] (text "deleted")
note_identity (set_root_unreadable set e) = identify (set_label set) [] e

pub data NoteEvent : Type 0 where
  raised : Note → NoteEvent
  cleared : Text → Text → NoteEvent

pub record NoteLog : Type 0 where
  pub active : Map NoteKey Text

-- The variables of an update.
pub record Update : Type 0 where
  pub events : List NoteEvent
  pub current : Map NoteKey Text
  pub examined : List Text

unfoldable pub raise_note : Map NoteKey Text → Update → Note → Update
unfolding note_identity
raise_note active u note =
    let (key, detail) = note_identity note in
    record {
      events =
          if Map.get key active == some detail then u.events else u.events ++ (raised note ∷ []);
      current = Map.insert key detail u.current;
      examined = Set.insert key.group u.examined;
    }

unfoldable pub raise_notes : Map NoteKey Text → Update → List Note → Update
unfolding raise_note
raise_notes active u [] = u
raise_notes active u (note ∷ notes) = raise_notes active (raise_note active u note) notes

abbrev pub clear_or_keep : Update → NoteKey → Text → Option Text → Update
clear_or_keep u key detail (some d) = u
clear_or_keep u key detail none =
    if Set.has u.examined key.group
    then record u { events = u.events ++ (cleared key.group key.subject ∷ []) }
    else record u { current = Map.insert key detail u.current }

-- One note that was active before.
unfoldable pub settle : Update → NoteKey × Text → Update
settle u (key, detail) = clear_or_keep u key detail (Map.get key u.current)

unfoldable pub settle_all : Update → Map NoteKey Text → Update
unfolding settle
settle_all u [] = u
settle_all u (e ∷ active) = settle_all (settle u e) active

abbrev pub first_examined : Observed → List Text
first_examined o =
    Set.extend (Set.extend [] (map display (Map.keys o.members))) (map set_label o.scanned_sets)

unfoldable pub update : NoteLog → Observed → List NoteEvent × NoteLog
unfolding raise_notes settle_all
update log o =
    let start : Update = record { events = []; current = []; examined = first_examined o } in
    let u = settle_all (raise_notes log.active start o.notes) log.active in
    (u.events, record { active = u.current })
