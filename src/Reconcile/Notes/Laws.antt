-- ===== src/Reconcile/Notes/Laws.antt =====
-- The log of notes across passes (src/reconcile/mod.rs, `NoteLog::update`).
use byssus.Base.{
  ◌≡◌, ◌≢◌, ◌⊎◌, inl, inr, refl, sym, ap, ◌∙◌, Bool, true, false, Bool-cases, Option, none, some,
  List, [], ◌∷◌, map, All, All-mono, All-Elem, Elem, IsNodup, if◌then◌else◌, ==_refl, option_eq,
  list_eq, nat_eq, Text, arith,
}
use byssus.Base.Map
use byssus.Base.Map.{Map}
use byssus.Base.Set
use byssus.Reconcile.Notes.{
  Note, NoteKey, note_key_ord, text_ord, note_identity, NoteLog, Update, raise_note, raise_notes,
  clear_or_keep, settle, settle_all, update, first_examined, Observed,
}

-- The notes by key, the last one of a key.
abbrev pub by_key : List Note → Map NoteKey Text
by_key notes = Map.extend [] (map note_identity notes)

-- The groups and sets that a pass examined.
abbrev pub examined_groups : Observed → List Text
examined_groups o =
    Set.extend (first_examined o) (map (λ note. (note_identity note).0.group) o.notes)

raise_notes-current :
    (active : Map NoteKey Text) (u : Update) (notes : List Note)
    → (raise_notes active u notes).current ≡ Map.extend u.current (map note_identity notes)
unfolding raise_notes Map.extend
raise_notes-current active u [] = refl
raise_notes-current active u (note ∷ notes) =
    raise_notes-current active (raise_note active u note) notes

raise_notes-examined :
    (active : Map NoteKey Text) (u : Update) (notes : List Note)
    → (raise_notes active u notes).examined
      ≡ Set.extend u.examined (map (λ note. (note_identity note).0.group) notes)
unfolding raise_notes Set.extend
raise_notes-examined active u [] = refl
raise_notes-examined active u (note ∷ notes) =
    raise_notes-examined active (raise_note active u note) notes

-- What stays active of the notes before.
abbrev pub kept : Bool → Option Text → Option Text → Option Text
kept examined now before = elim now [ some d ↦ some d | none ↦ if examined then none else before ]

settle-examined_of :
    (u : Update) (j : NoteKey) (d : Text) (o : Option Text)
    → (clear_or_keep u j d o).examined ≡ u.examined
settle-examined_of u j d (some x) = refl
settle-examined_of u j d none = elim (Bool-cases (Set.has u.examined j.group)) [
  | inl e ↦ rw e refl
  | inr e ↦ rw e refl
]

settle-examined : (u : Update) (j : NoteKey) (d : Text) → (settle u (j, d)).examined ≡ u.examined
unfolding settle
settle-examined u j d = settle-examined_of u j d (Map.get j u.current)

settle-get_of :
    (k : NoteKey) (u : Update) (d : Text) (o : Option Text)
    → Map.get k u.current ≡ o
    → Map.get k (clear_or_keep u k d o).current ≡ kept (Set.has u.examined k.group) o (some d)
settle-get_of k u d (some x) h = h
settle-get_of k u d none h = elim (Bool-cases (Set.has u.examined k.group)) [
  | inl e ↦ rw e h
  | inr e ↦ rw e (Map.get-insert_self k d u.current)
]

settle-get_self :
    (k : NoteKey) (u : Update) (d : Text)
    → Map.get k (settle u (k, d)).current
      ≡ kept (Set.has u.examined k.group) (Map.get k u.current) (some d)
unfolding settle
settle-get_self k u d = settle-get_of k u d (Map.get k u.current) refl

settle-get_ne_of :
    (k j : NoteKey) (u : Update) (d : Text) (o : Option Text)
    → k ≢ j
    → Map.get k (clear_or_keep u j d o).current ≡ Map.get k u.current
settle-get_ne_of k j u d (some x) n = refl
settle-get_ne_of k j u d none n = elim (Bool-cases (Set.has u.examined j.group)) [
  | inl e ↦ rw e refl
  | inr e ↦ rw e (Map.get-insert_ne j k d u.current n)
]

settle-get_ne :
    (k j : NoteKey) (u : Update) (d : Text)
    → k ≢ j
    → Map.get k (settle u (j, d)).current ≡ Map.get k u.current
unfolding settle
settle-get_ne k j u d n = settle-get_ne_of k j u d (Map.get j u.current) n

kept-none : (b : Bool) (o : Option Text) → kept b o none ≡ o
kept-none b (some x) = refl
kept-none true none = refl
kept-none false none = refl

kept-kept :
    (b : Bool) (o p : Option Text) (d : Text) → kept b (kept b o (some d)) p ≡ kept b o (some d)
kept-kept b (some x) p d = refl
kept-kept false none p d = refl
kept-kept true none p d = refl

settle_all-kept :
    (k : NoteKey) (u : Update) (active : Map NoteKey Text)
    → Map.get k (settle_all u active).current
      ≡ kept (Set.has u.examined k.group) (Map.get k u.current) (Map.get k active)
unfolding settle_all Map.get
settle_all-kept k u [] = sym (kept-none _ _)
settle_all-kept k u ((j, d) ∷ active) =
    let rest = settle_all-kept k (settle u (j, d)) active in
    let same = settle-examined u j d in
    elim (Map.key-cases k j) [
      | inl e ↦ rw e (
          settle_all-kept j (settle u (j, d)) active
          ∙ rw (same, settle-get_self j u d)
              (kept-kept (Set.has u.examined j.group) (Map.get j u.current) (Map.get j active) d
                ∙ ap (kept (Set.has u.examined j.group) (Map.get j u.current))
                    (sym (Map.get-cons_self j d active))))
      | inr n ↦
          rest
          ∙ (rw (same, settle-get_ne k j u d n)
              (ap (kept (Set.has u.examined k.group) (Map.get k u.current))
                (sym (Map.get-cons_ne k j d active n))))
    ]

-- After an update, what is active for a key is the detail of the pass's last note with that key; and
-- if there is none, what was active before, unless the pass examined the key's group or set.
pub update-get :
    (log : NoteLog) (o : Observed) (k : NoteKey)
    → Map.get k (update log o).1.active
      ≡ kept
          (Set.has (examined_groups o) k.group)
          (Map.get k (by_key o.notes))
          (Map.get k log.active)
unfolding update
update-get log o k =
    let start : Update = record { events = []; current = []; examined = first_examined o } in
    settle_all-kept k (raise_notes log.active start o.notes) log.active
    ∙ (rw
        (
          raise_notes-current log.active start o.notes,
          raise_notes-examined log.active start o.notes,
        )
        refl)

-- The note is active with this detail.
abbrev IsActive : Map NoteKey Text → NoteKey × Text → Type 0
IsActive active e = Map.get e.0 active ≡ some e.1

raise_note-events :
    (active : Map NoteKey Text) (u : Update) (note : Note)
    → IsActive active (note_identity note)
    → (raise_note active u note).events ≡ u.events
unfolding raise_note
raise_note-events active u note h = rw h (rw (==_refl (some (note_identity note).1)) refl)

raise_notes-events :
    (active : Map NoteKey Text) (u : Update) (notes : List Note)
    → All (IsActive active) (map note_identity notes)
    → (raise_notes active u notes).events ≡ u.events
unfolding raise_notes
raise_notes-events active u [] h = refl
raise_notes-events active u (note ∷ notes) h =
    raise_notes-events active (raise_note active u note) notes h.1
    ∙ raise_note-events active u note h.0

-- An entry that is noted again, or was not examined.
abbrev IsQuiet : Update → NoteKey → Type 0
IsQuiet u k = (Map.get k u.current ≢ none) ⊎ (Set.has u.examined k.group ≡ false)

clear_or_keep-events :
    (u : Update) (k : NoteKey) (d : Text) (o : Option Text)
    → Map.get k u.current ≡ o
    → IsQuiet u k
    → (clear_or_keep u k d o).events ≡ u.events
clear_or_keep-events u k d (some x) e h = refl
clear_or_keep-events u k d none e (inl h) = absurd (h e)
clear_or_keep-events u k d none e (inr h) = rw h refl

kept-some : (b : Bool) (o : Option Text) (d : Text) → o ≢ none → kept b o (some d) ≢ none
kept-some b (some x) d h = h
kept-some b none d h = absurd (h refl)

settle-IsQuiet :
    (u : Update) (j : NoteKey) (d : Text) (k : NoteKey) → IsQuiet u k → IsQuiet (settle u (j, d)) k
settle-IsQuiet u j d k (inr h) = inr (rw (settle-examined u j d) h)
settle-IsQuiet u j d k (inl h) = inl (elim (Map.key-cases k j) [
  | inl e ↦ rw (← e) (rw (settle-get_self k u d) (kept-some _ _ d h))
  | inr n ↦ rw (settle-get_ne k j u d n) h
])

settle_all-events :
    (u : Update) (active : Map NoteKey Text)
    → All (λ e. IsQuiet u e.0) active
    → (settle_all u active).events ≡ u.events
unfolding settle_all settle
settle_all-events u [] h = refl
settle_all-events u ((k, d) ∷ active) h =
    settle_all-events (settle u (k, d)) active
      (All-mono _ _ active (λ e q. settle-IsQuiet u k d e.0 q) h.1)
    ∙ clear_or_keep-events u k d (Map.get k u.current) refl h.0

IsQuiet-kept :
    (u : Update) (k : NoteKey) (o p : Option Text)
    → Map.get k u.current ≡ o
    → kept (Set.has u.examined k.group) o p ≢ none
    → IsQuiet u k
IsQuiet-kept u k (some x) p e h = inl (rw e (λ f. absurd (ground arith)))
IsQuiet-kept u k none p e h = elim (Bool-cases (Set.has u.examined k.group)) [
  | inl f ↦ absurd (h (rw f refl))
  | inr f ↦ inr f
]

module _ (log : NoteLog) (o : Observed) where
  -- The variables of the next update, after the notes.
  abbrev next_raised : Update
  next_raised =
      raise_notes (update log o).1.active
        (record { events = []; current = []; examined = first_examined o }) o.notes

  next-IsQuiet : (e : NoteKey × Text) → Elem e (update log o).1.active → IsQuiet next_raised e.0
  next-IsQuiet e m =
      let start : Update = record { events = []; current = []; examined = first_examined o } in
      let present = Map.get-present e.0 e.1 (update log o).1.active m in
      let now = raise_notes-current (update log o).1.active start o.notes in
      let seen = raise_notes-examined (update log o).1.active start o.notes in
      IsQuiet-kept next_raised e.0 (Map.get e.0 (by_key o.notes)) (Map.get e.0 log.active)
        (ap (Map.get e.0) now)
        (λ absent. present (
          update-get log o e.0
          ∙ (ap
                (λ ex.
                  kept (Set.has ex e.0.group) (Map.get e.0 (by_key o.notes))
                    (Map.get e.0 log.active))
                (sym seen)
              ∙ absent)))

  -- A pass that reports the same again has nothing to tell, if no two of its notes have one key:
  -- nothing is raised a second time, and nothing is cleared.
  pub update-settled :
      IsNodup (Map.firsts (map note_identity o.notes)) → (update (update log o).1 o).0 ≡ []
  unfolding update
  update-settled distinct =
      settle_all-events next_raised (update log o).1.active
        (All-Elem _ (update log o).1.active next-IsQuiet)
      ∙ raise_notes-events (update log o).1.active
          (record { events = []; current = []; examined = first_examined o }) o.notes
          (All-mono (λ e. Map.get e.0 (by_key o.notes) ≡ some e.1) _ (map note_identity o.notes)
            (λ e h. update-get log o e.0 ∙ rw h refl)
            (Map.get-extend (map note_identity o.notes) [] distinct))
