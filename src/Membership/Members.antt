-- ===== src/Membership/Members.antt =====
-- The members of a directory (src/membership.rs).
use byssus.Base.{
  inl, inr, ◌⊎◌, if◌then◌else◌, not, is_empty, get_or, dot, ◌≢◌, map_err, ℕ, ◌≡◌, ◌∙◌, refl, ap,
  sym, Bool, true, false, ◌&&◌, ◌||◌, Option, none, some, List, [], ◌∷◌, any, Result, ok, err, Text,
  text, arith, ◌==◌, nat_eq, list_eq,
}
use byssus.Base.Map
use byssus.Name.{NameError, Name, Name-inj, from_bytes, name_ord, name_eq}
use byssus.Name.Allowed.{IsName, from_bytes_iff}
use byssus.Membership.{
  not_empty, accept, display_bytes, RejectReason, directory, symlink, fifo, socket, char_device,
  block_device, unknown, Rejection, regular, Kind, Membership, classify, add, add_entry,
  add_entries, from_entries,
}

abbrev is_some : {A : Type 0} → Option A → Bool
is_some none = false
is_some (some a) = true

abbrev pub is_member : Name → Membership → Bool
is_member n m = is_some (Map.get n m.members)

abbrev is_empty_file : Kind → Bool
is_empty_file (ok (regular size)) = size == 0
is_empty_file _ = false

-- An empty regular file of this name.
abbrev pub is_file_of : Name → Text × Kind → Bool
is_file_of n (file_name, kind) = file_name == n.str && is_empty_file kind

Bool-ext : (a b : Bool) → (a ≡ true → b ≡ true) → (b ≡ true → a ≡ true) → a ≡ b
Bool-ext true b f g = sym (f refl)
Bool-ext false true f g = absurd (ground (arith, g refl))
Bool-ext false false f g = refl

false-true : false ≢ true
false-true h = ground arith

err_ok : {E A : Type 0} (e : E) (a : A) → err e ≢ ok a
err_ok e a h = ground arith

-- The classification accepts this member.
abbrev pub accepts : Name → Result Rejection Name → Bool
accepts n (ok name) = name == n
accepts n (err e) = false

insert-is_member :
    (n name : Name) (m : Membership) (b : Bool)
    → (name == n) ≡ b
    → is_member n (add m (ok name)) ≡ (is_member n m || b)
insert-is_member n name m true h =
    let e : name ≡ n = (name_eq.beq_iff name n).0 h in
    rw (sym e) (ap is_some (Map.get-insert_self name tt m.members) ∙ ground arith)
insert-is_member n name m false h =
    let other : n ≢ name = λ e. false-true (sym h ∙ (name_eq.beq_iff name n).1 (sym e)) in
    ap is_some (Map.get-insert_ne name n tt m.members other) ∙ ground arith

pub is_member-add :
    (n : Name) (m : Membership) (r : Result Rejection Name)
    → is_member n (add m r) ≡ (is_member n m || accepts n r)
is_member-add n m (ok name) = insert-is_member n name m (name == n) refl
is_member-add n m (err e) = ground arith

name_text : (x n : Name) → (x == n) ≡ (x.str == n.str)
name_text x n =
    Bool-ext (x == n) (x.str == n.str)
      (λ h. (list_eq.beq_iff x.str n.str).1 (ap (λ n. n.str) ((name_eq.beq_iff x n).0 h)))
      (λ h. (name_eq.beq_iff x n).1 (Name-inj x n ((list_eq.beq_iff x.str n.str).0 h)))

and_false : (b : Bool) → false ≡ (b && false)
and_false true = refl
and_false false = refl

and_true : (b : Bool) → b ≡ (b && true)
and_true true = refl
and_true false = refl

or_assoc : (a b c : Bool) → ((a || b) || c) ≡ (a || (b || c))
or_assoc true b c = refl
or_assoc false b c = refl

or_false : (b : Bool) → b ≡ (b || false)
or_false true = refl
or_false false = refl

abbrev rejected : Text → RejectReason → Rejection
rejected file r = record { display_name = display_bytes file; reason = r }

accept_sized :
    (n x : Name) (file : Text) (size : ℕ) (b : Bool)
    → (size == 0) ≡ b
    → accepts n (map_err (rejected file) (if b then ok x else err (not_empty size)))
      ≡ ((x == n) && b)
accept_sized n x file size true e = and_true (x == n)
accept_sized n x file size false e = and_false (x == n)

accept_kind :
    (n x : Name) (file : Text) (kind : Kind)
    → accepts n (map_err (rejected file) (accept x kind)) ≡ ((x == n) && is_empty_file kind)
accept_kind n x file (err e) = and_false (x == n)
accept_kind n x file (ok (regular size)) = accept_sized n x file size (size == 0) refl
accept_kind n x file (ok directory) = and_false (x == n)
accept_kind n x file (ok symlink) = and_false (x == n)
accept_kind n x file (ok fifo) = and_false (x == n)
accept_kind n x file (ok socket) = and_false (x == n)
accept_kind n x file (ok char_device) = and_false (x == n)
accept_kind n x file (ok block_device) = and_false (x == n)
accept_kind n x file (ok unknown) = and_false (x == n)

-- Another text than the name's.
differs : (n : Name) (file : Text) → (file ≢ n.str) → (file == n.str) ≡ false
differs n file h =
    Bool-ext (file == n.str) false (λ e. absurd (h ((list_eq.beq_iff file n.str).0 e)))
      (λ e. absurd (false-true e))

classify_file :
    (n : Name) (file : Text) (kind : Kind) (r : Result NameError Name)
    → IsName n.str
    → from_bytes file ≡ r
    → accepts n (classify file kind) ≡ is_file_of n (file, kind)
unfolding classify
classify_file n file kind (ok x) h e =
    let t : x.str ≡ file = ((from_bytes_iff file x).0 e).1 in
    rw e
      (accept_kind n x file kind ∙ rw (sym t) (ap (λ b. b && is_empty_file kind) (name_text x n)))
classify_file n file kind (err x) h e =
    let other : file ≢ n.str = λ u.
      let v : from_bytes n.str ≡ ok n = (from_bytes_iff n.str n).1 (h, refl) in
      err_ok x n (sym e ∙ (ap from_bytes u ∙ v)) in
    rw e (rw (differs n file other) refl)

hidden_file :
    (n : Name) (file : Text) (kind : Kind)
    → IsName n.str
    → get_or file 0 0 ≡ dot
    → is_file_of n (file, kind) ≡ false
hidden_file n file kind h e =
    rw (differs n file (λ u. h.visible (sym (ap (λ s. get_or s 0 0) u) ∙ e))) refl

dots : (file : Text) → (file == text "." || file == text "..") ≡ true → get_or file 0 0 ≡ dot
dots [] e = absurd (ground arith)
dots (b ∷ file) e = ground arith

is_member-branches :
    (n : Name) (m : Membership) (file : Text) (kind : Kind) (b c : Bool)
    → IsName n.str
    → (file == text "." || file == text "..") ≡ b
    → (not (is_empty file) && get_or file 0 0 == dot) ≡ c
    → is_member n (add_entry m (file, kind)) ≡ (is_member n m || is_file_of n (file, kind))
unfolding add_entry
is_member-branches n m file kind true c h e f =
    rw e (rw (hidden_file n file kind h (dots file e)) (or_false (is_member n m)))
is_member-branches n m file kind false true h e f =
    let g : get_or file 0 0 ≡ dot = ground arith in
    rw (e, f) (rw (hidden_file n file kind h g) (or_false (is_member n m)))
is_member-branches n m file kind false false h e f =
    rw (e, f)
      (is_member-add n m (classify file kind)
        ∙ ap (λ b. is_member n m || b) (classify_file n file kind (from_bytes file) h refl))

is_member-add_entries :
    (n : Name) (m : Membership) (entries : List (Text × Kind))
    → IsName n.str
    → is_member n (add_entries m entries) ≡ (is_member n m || any (is_file_of n) entries)
unfolding add_entries
is_member-add_entries n m [] h = or_false (is_member n m)
is_member-add_entries n m ((file, kind) ∷ entries) h =
    let one = is_member-branches n m file kind _ _ h refl refl in
    let rest = is_member-add_entries n (add_entry m (file, kind)) entries h in
    rest
    ∙ (ap (λ b. b || any (is_file_of n) entries) one
        ∙ or_assoc (is_member n m) (is_file_of n (file, kind)) (any (is_file_of n) entries))

-- A name is a member of a directory exactly if the directory has an empty regular file of that name.
pub is_member-from_entries :
    (n : Name) (entries : List (Text × Kind))
    → IsName n.str
    → is_member n (from_entries entries) ≡ any (is_file_of n) entries
unfolding from_entries Map.get
is_member-from_entries n entries h =
    is_member-add_entries n (record { members = []; rejected = []; ignored = [] }) entries h

pub or-cases : (a b : Bool) → (a || b) ≡ true → (a ≡ true) ⊎ (b ≡ true)
or-cases true b h = inl refl
or-cases false b h = inr h
