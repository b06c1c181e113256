-- ===== src/State/Codec/RoundTrip.antt =====
-- Encoding and decoding the state (src/state.rs).
use byssus.Base.{◌≡◌, sym, ap, ◌∙◌, Option, none, some, [], ◌∷◌, ◌++◌, append_nil, ok, All, arith}
use byssus.Base.Map
use byssus.Base.Map.{Map}
use byssus.State
use byssus.State.{State, MountRecord, RecordKey, key, key_ord, default}
use byssus.State.Codec.{
  Json, serializers, deserializers, StateDocument, new_only, add_record, add_records, encode,
  decode, state_version,
}
use byssus.State.Codec.Laws.{IsClean, IsSound}

-- The JSON library reads this document back after it wrote it, with a line feed after it.
pub record IsRead (json : Json) (doc : StateDocument) : Type 0 where
  pub value : json.Value
  pub reads : json.from_slice (json.to_vec_pretty serializers doc ++ (10 ∷ [])) ≡ ok value
  pub has_version : json.version value ≡ some (some doc.version)
  pub has_fields : json.from_value (deserializers json) value ≡ ok doc

-- The document of a state.
abbrev pub document : State → StateDocument
document s = record { version = state_version; mounts = Map.values s.entries }

module _ (json : Json) where
  new_only-last :
      (m : Map RecordKey MountRecord) (r : MountRecord) (n : Map RecordKey MountRecord)
      (o : Option MountRecord)
      → n ≡ Map.last (key r) r m []
      → o ≡ none
      → new_only json (key r) (record { entries = n }, o)
        ≡ ok (record { entries = Map.last (key r) r m [] })
  new_only-last m r n (some previous) e f = absurd (ground arith)
  new_only-last m r n none e f = ap (λ x. ok (record { entries = x })) e

  add_record-last :
      (m rest : Map RecordKey MountRecord) (r : MountRecord)
      → Map.IsSorted (Map.last (key r) r m rest)
      → IsClean r
      → add_record json (record { entries = m }) r
        ≡ ok (record { entries = Map.last (key r) r m [] })
  unfolding add_record State.insert
  add_record-last m rest r h c =
      let (inserted, new) = Map.insert-last (key r) r m rest h in
      rw (c.0)
        (rw (c.1) (new_only-last m r (Map.insert (key r) r m) (Map.get (key r) m) inserted new))

  add_records-values :
      (m rest : Map RecordKey MountRecord)
      → Map.IsSorted (m ++ rest)
      → All (λ e. e.0 ≡ key e.1) rest
      → All (λ e. IsClean e.1) rest
      → add_records json (record { entries = m }) (Map.values rest)
        ≡ ok (record { entries = m ++ rest })
  unfolding add_records Map.values
  add_records-values m [] h k c = ap (λ x. ok (record { entries = x })) (sym (append_nil m))
  add_records-values m ((j, r) ∷ rest) h k c =
      let e : j ≡ key r = k.0 in
      let one : Map RecordKey MountRecord = Map.last (key r) r m [] in
      let sorted : Map.IsSorted (Map.last (key r) r m rest) = rw (sym e) h in
      let joined : one ++ rest ≡ Map.last (key r) r m rest = Map.append-last (key r) r m rest in
      let others = add_records-values one rest (rw joined sorted) k.1 c.1 in
      rw (add_record-last m rest r sorted c.0)
        (rw e (others ∙ ap (λ x. ok (record { entries = x })) joined))

  -- A state whose records stand in order under their own keys, with paths beneath their roots, is
  -- decoded from its encoding, if the JSON library reads what it writes of it.
  pub decode-encode :
      (s : State) → IsRead json (document s) → IsSound s → decode json (encode json s) ≡ ok s
  unfolding decode encode State.records
  decode-encode s j h = rw j.reads (
      rw j.has_version
        (rw j.has_fields (add_records-values [] s.entries h.keyed.sorted h.keyed.keyed h.clean)))
