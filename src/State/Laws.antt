-- ===== src/State/Laws.antt =====
-- The invariant of the state (src/state.rs), and the three operations.
use byssus.Base.{◌≡◌, refl, ap, none, some, [], ◌∷◌, inl, inr, All, All-get, Elem}
use byssus.Base.Map
use byssus.Base.Map.{Map}
use byssus.State
use byssus.State.{State, RecordKey, key_ord, MountRecord, key}

pub record IsKeyed (s : State) : Type 0 where
  pub keyed : All (λ e. e.0 ≡ key e.1) s.entries
  pub sorted : Map.IsSorted s.entries

pub IsKeyed-get :
    (s : State) (k : RecordKey) (r : MountRecord) → IsKeyed s → State.get s k ≡ some r → k ≡ key r
unfolding State.get
IsKeyed-get s k r h e =
    All-get (λ p. p.0 ≡ key p.1) s.entries (k, r) h.keyed (Map.get-Elem k s.entries r e)

Elem-values :
    (m : Map RecordKey MountRecord) (k : RecordKey) (r : MountRecord)
    → Elem (k, r) m
    → Elem r (Map.values m)
unfolding Map.values
Elem-values [] k r h = elim h [ ]
Elem-values ((j, q) ∷ m) k r (inl e) = inl (ap (λ (p : RecordKey × MountRecord). p.1) e)
Elem-values ((j, q) ∷ m) k r (inr h) = inr (Elem-values m k r h)

-- A record that is looked up is one of the records.
pub get-records :
    (s : State) (k : RecordKey) (r : MountRecord)
    → State.get s k ≡ some r
    → Elem r (State.records s)
unfolding State.get State.records
get-records s k r e = Elem-values s.entries k r (Map.get-Elem k s.entries r e)

pub insert-get : (s : State) (r : MountRecord) → State.get (State.insert s r).0 (key r) ≡ some r
unfolding State.get State.insert
insert-get s r = Map.get-insert_self (key r) r s.entries

pub remove-get : (s : State) (k : RecordKey) → State.get (State.remove s k).0 k ≡ none
unfolding State.get State.remove
remove-get s k = Map.get-remove_self k s.entries

pub insert-IsKeyed : (s : State) (r : MountRecord) → IsKeyed s → IsKeyed (State.insert s r).0
unfolding State.insert
insert-IsKeyed s r h = record {
  keyed = Map.All-insert (λ e. e.0 ≡ key e.1) (key r) r s.entries refl h.keyed;
  sorted = Map.insert-IsSorted (key r) r s.entries h.sorted;
}

pub remove-IsKeyed : (s : State) (k : RecordKey) → IsKeyed s → IsKeyed (State.remove s k).0
unfolding State.remove
remove-IsKeyed s k h = record {
  keyed = Map.All-remove (λ e. e.0 ≡ key e.1) k s.entries h.keyed;
  sorted = Map.remove-IsSorted k s.entries h.sorted;
}
