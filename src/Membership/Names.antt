-- ===== src/Membership/Names.antt =====
-- The names that become members (src/membership.rs).
use byssus.Base.{
  if◌then◌else◌, ◌>>=◌, ◌++◌, ◌&&◌, ◌≡◌, inl, inr, ◌∙◌, refl, sym, Bool, true, false, ◌||◌, not,
  is_empty, get_or, dot, List, [], ◌∷◌, Result, ok, err, map_err, Text, text, arith, ◌==◌, nat_eq,
  list_eq,
}
use byssus.Base.Map
use byssus.Name.{Name, NameError, from_bytes, name_eq}
use byssus.Name.Allowed.{IsName, from_bytes_iff}
use byssus.Membership.{
  invalid_name, Kind, RejectReason, Rejection, Membership, accept, classify, add, add_entry,
  add_entries, from_entries, display_bytes,
}
use byssus.Membership.Members.{is_member, is_member-add, accepts, or-cases}

abbrev AllNames : Membership → Type 0
AllNames m = (n : Name) → is_member n m ≡ true → IsName n.str

accepted-IsName :
    (n : Name) (r : Result Rejection Name)
    → ((x : Name) → r ≡ ok x → IsName x.str)
    → accepts n r ≡ true
    → IsName n.str
accepted-IsName n (ok x) h e = rw (sym ((name_eq.beq_iff x n).0 e)) (h x refl)
accepted-IsName n (err x) h e = absurd (ground arith)

add-AllNames :
    (m : Membership) (r : Result Rejection Name)
    → AllNames m
    → ((x : Name) → r ≡ ok x → IsName x.str)
    → AllNames (add m r)
add-AllNames m r h k n e =
    elim (or-cases (is_member n m) (accepts n r) (sym (is_member-add n m r) ∙ e)) [
      | inl a ↦ h n a
      | inr b ↦ accepted-IsName n r k b
    ]

accept-same : (y x : Name) (kind : Kind) → accept y kind ≡ ok x → y ≡ x
accept-same y x kind h = ground arith

accepted-ok :
    (f : RejectReason → Rejection) (y x : Name) (kind : Kind) (r : Result RejectReason Name)
    → accept y kind ≡ r
    → map_err f r ≡ ok x
    → y ≡ x
accepted-ok f y x kind (ok z) e h =
    let u : z ≡ x = ground arith in accept-same y x kind (rw (sym u) e)
accepted-ok f y x kind (err z) e h = absurd (ground arith)

result-IsName :
    (f : RejectReason → Rejection) (file : Text) (kind : Kind) (q : Result NameError Name)
    (x : Name)
    → from_bytes file ≡ q
    → map_err f (do name ← map_err invalid_name q; accept name kind) ≡ ok x
    → IsName x.str
result-IsName f file kind (err z) x e h = absurd (ground arith)
result-IsName f file kind (ok y) x e h =
    let (named, t) = (from_bytes_iff file y).0 e in
    let same : y ≡ x = accepted-ok f y x kind (accept y kind) refl h in rw (sym same) (rw t named)

classify-IsName : (file : Text) (kind : Kind) (x : Name) → classify file kind ≡ ok x → IsName x.str
unfolding classify
classify-IsName file kind x h =
    result-IsName (λ reason. record { display_name = display_bytes file; reason = reason }) file
      kind (from_bytes file) x refl h

entry-AllNames :
    (m : Membership) (file : Text) (kind : Kind) (b d : Bool)
    → AllNames m
    → AllNames (
        if b
        then m
        else if d
        then record m { ignored = m.ignored ++ (display_bytes file ∷ []) }
        else add m (classify file kind))
entry-AllNames m file kind true d h = h
entry-AllNames m file kind false true h = h
entry-AllNames m file kind false false h =
    add-AllNames m (classify file kind) h (classify-IsName file kind)

add_entry-AllNames : (m : Membership) (e : Text × Kind) → AllNames m → AllNames (add_entry m e)
unfolding add_entry
add_entry-AllNames m (file, kind) h =
    entry-AllNames m file kind (file == text "." || file == text "..")
      (not (is_empty file) && get_or file 0 0 == dot) h

add_entries-AllNames :
    (m : Membership) (entries : List (Text × Kind)) → AllNames m → AllNames (add_entries m entries)
unfolding add_entries
add_entries-AllNames m [] h = h
add_entries-AllNames m (e ∷ entries) h =
    add_entries-AllNames (add_entry m e) entries (add_entry-AllNames m e h)

-- Every member of a directory is a name.
pub from_entries-AllNames :
    (entries : List (Text × Kind)) (n : Name)
    → is_member n (from_entries entries) ≡ true
    → IsName n.str
unfolding from_entries Map.get
from_entries-AllNames entries =
    add_entries-AllNames (record { members = []; rejected = []; ignored = [] }) entries
      (λ n h. absurd (ground arith))
