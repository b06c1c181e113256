-- ===== src/Membership.antt =====
-- Which directory entries are members (src/membership.rs).
pub mod Members
pub mod Names
mod Tests
use byssus.Base.{
  not, ℕ, ◌+◌, ◌-◌, ◌/◌, ◌%◌, leb, ltb, Bool, true, false, ◌&&◌, ◌||◌, List, [], ◌∷◌, ◌++◌,
  hex_digit, if◌then◌else◌, Result, ok, err, map_err, ◌>>=◌, Text, text, dot, get_or, is_empty,
  ◌==◌, nat_eq, list_eq,
}
use byssus.Base.Map
use byssus.Base.Map.{Map}
use byssus.Name.{Name, NameError, from_bytes, name_ord}

pub data EntryKind : Type 0 where
  regular : ℕ → EntryKind
  directory : EntryKind
  symlink : EntryKind
  fifo : EntryKind
  socket : EntryKind
  char_device : EntryKind
  block_device : EntryKind
  unknown : EntryKind

pub data RejectReason : Type 0 where
  invalid_name : NameError → RejectReason
  not_regular_file : EntryKind → RejectReason
  not_directory : EntryKind → RejectReason
  not_empty : ℕ → RejectReason
  inaccessible : Text → RejectReason

pub record Rejection : Type 0 where
  pub display_name : Text
  pub reason : RejectReason

abbrev escape_byte : ℕ → Text
escape_byte b =
    if b == 9
    then text "\\t"
    else if b == 13
    then text "\\r"
    else if b == 10
    then text "\\n"
    else if b == b'\'' || (b == b'"' || b == b'\\')
    then b'\\' ∷ b ∷ []
    else if leb 32 b && leb b 126
    then b ∷ []
    else b'\\' ∷ b'x' ∷ hex_digit (b / 16) ∷ hex_digit (b % 16) ∷ []

-- `display_bytes` of src/name.rs: `escape_ascii`
unfoldable pub display_bytes : Text → Text
display_bytes [] = []
display_bytes (b ∷ s) = escape_byte b ++ display_bytes s

-- What a look at the entry gave.
abbrev pub Kind : Type 0
Kind = Result Text EntryKind

abbrev pub accept : Name → Kind → Result RejectReason Name
accept name (err e) = err (inaccessible e)
accept name (ok (regular size)) = if size == 0 then ok name else err (not_empty size)
accept name (ok kind) = err (not_regular_file kind)

-- The name is validated first, also of entries that cannot be inspected.
unfoldable pub classify : Text → Kind → Result Rejection Name
unfolding from_bytes display_bytes
classify file_name kind =
    map_err (λ reason. record { display_name = display_bytes file_name; reason = reason })
      (do name ← map_err invalid_name (from_bytes file_name); accept name kind)

pub record Membership : Type 0 where
  -- a `BTreeSet`
  pub members : Map Name (Unit {0})
  pub rejected : List Rejection
  pub ignored : List Text

abbrev pub add : Membership → Result Rejection Name → Membership
add m (ok name) = record m { members = Map.insert name tt m.members }
add m (err rejection) = record m { rejected = m.rejected ++ (rejection ∷ []) }

-- One entry.
unfoldable pub add_entry : Membership → Text × Kind → Membership
unfolding classify
add_entry m (file_name, kind) =
    if file_name == text "." || file_name == text ".."
    then m
    else if not (is_empty file_name) && get_or file_name 0 0 == dot
    then record m { ignored = m.ignored ++ (display_bytes file_name ∷ []) }
    else add m (classify file_name kind)

unfoldable pub add_entries : Membership → List (Text × Kind) → Membership
unfolding add_entry
add_entries m [] = m
add_entries m (e ∷ entries) = add_entries (add_entry m e) entries

unfoldable pub from_entries : List (Text × Kind) → Membership
unfolding add_entries
from_entries entries = add_entries (record { members = []; rejected = []; ignored = [] }) entries
