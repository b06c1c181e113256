-- ===== src/State/Codec/Laws.antt =====
-- What a state file that is accepted gives (src/state.rs).
use byssus.Base.{
  ◌≡◌, refl, sym, true, Option, none, some, List, [], ◌∷◌, Result, ok, err, map_err, ◌>>=◌, Text,
  All, arith,
}
use byssus.Base.Map
use byssus.State
use byssus.State.{State, MountRecord, RecordKey, key, key_ord, default}
use byssus.State.Laws.{IsKeyed, insert-IsKeyed}
use byssus.State.Codec.{
  Json, deserializers, malformed, is_clean_relative, new_only, add_record, add_records, declared,
  check_version, decode,
}

-- Both paths of the record lead beneath their roots.
abbrev pub IsClean : MountRecord → Type 0
IsClean r = (is_clean_relative r.source ≡ true) × (is_clean_relative r.target ≡ true)

-- A state that a state file can give: its records stand under their own keys, in order, and their
-- paths lead beneath their roots.
pub record IsSound (s : State) : Type 0 where
  pub keyed : IsKeyed s
  pub clean : All (λ e. IsClean e.1) s.entries

default-IsSound : IsSound default
default-IsSound = record { keyed = record { keyed = tt; sorted = tt }; clean = tt }

bind-ok :
    {E A B : Type 0} (r : Result E A) (f : A → Result E B) (b : B)
    → (r >>= f) ≡ ok b
    → (a : A) × (r ≡ ok a) × (f a ≡ ok b)
bind-ok (ok a) f b h = (a, refl, h)
bind-ok (err e) f b h = absurd (ground arith)

module _ (json : Json) where
  new_only-ok :
      (k : RecordKey) (p : State × Option MountRecord) (s : State)
      → new_only json k p ≡ ok s
      → p.0 ≡ s
  new_only-ok k (t, none) s h = ground arith
  new_only-ok k (t, some previous) s h = absurd (ground arith)

  insert-IsSound :
      (s : State) (r : MountRecord) → IsSound s → IsClean r → IsSound (State.insert s r).0
  unfolding State.insert
  insert-IsSound s r h c = record {
    keyed = insert-IsKeyed s r h.keyed;
    clean = Map.All-insert (λ e. IsClean e.1) (key r) r s.entries c h.clean;
  }

  add_record-IsSound :
      (s : State) (r : MountRecord) (s' : State)
      → IsSound s
      → add_record json s r ≡ ok s'
      → IsSound s'
  unfolding add_record
  add_record-IsSound s r s' h e =
      let source : is_clean_relative r.source ≡ true = ground arith in
      let target : is_clean_relative r.target ≡ true = ground arith in
      let added : new_only json (key r) (State.insert s r) ≡ ok s' = ground arith in
      rw (sym (new_only-ok (key r) (State.insert s r) s' added))
        (insert-IsSound s r h (source, target))

  add_records-IsSound :
      (s : State) (rs : List MountRecord) (s' : State)
      → IsSound s
      → add_records json s rs ≡ ok s'
      → IsSound s'
  unfolding add_records
  add_records-IsSound s [] s' h e = let u : s ≡ s' = ground arith in rw (sym u) h
  add_records-IsSound s (r ∷ rs) s' h e =
      let (t, one, rest) = bind-ok (add_record json s r) (λ t. add_records json t rs) s' e in
      add_records-IsSound t rs s' (add_record-IsSound s r t h one) rest

  decoded-IsSound :
      (v : Result Text json.Value) (s : State)
      → (do
        value ← map_err malformed v
        n ← declared json (json.version value)
        u ← check_version json n
        doc ← map_err malformed (json.from_value (deserializers json) value)
        add_records json default doc.mounts)
        ≡ ok s
      → IsSound s
  decoded-IsSound (err x) s h = absurd (ground arith)
  decoded-IsSound (ok v) s h =
      let (n, a, e) = bind-ok (declared json (json.version v)) _ s h in
      let (u, b, f) = bind-ok (check_version json n) _ s e in
      let (doc, d, g) =
        bind-ok (map_err malformed (json.from_value (deserializers json) v)) _ s f in
      add_records-IsSound default doc.mounts s default-IsSound g

  -- Whatever the JSON library makes of a file: a state that is decoded has its records in order under
  -- their own keys, and all their paths lead beneath their roots.
  pub decode-IsSound : (bytes : Text) (s : State) → decode json bytes ≡ ok s → IsSound s
  unfolding decode
  decode-IsSound bytes s h = decoded-IsSound (json.from_slice bytes) s h
