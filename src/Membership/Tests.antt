-- ===== src/Membership/Tests.antt =====
-- Directories at concrete inputs.
use byssus.Base.{true, ◌∙◌, ◌≡◌, refl, [], ◌∷◌, List, Text, text, ok, any}
use byssus.Base.Map
use byssus.Name.{Name, is_allowed_byte}
use byssus.Name.Allowed.{IsName, from_bytes_iff}
use byssus.Membership.{
  regular, directory, Kind, Membership, from_entries, add_entries, add_entry, classify,
  display_bytes, not_empty,
}
use byssus.Membership.Names.{from_entries-AllNames}
use byssus.Membership.Members.{is_member, is_file_of, is_member-from_entries}
use byssus.Name.{from_bytes}

abbrev entries : List (Text × Kind)
entries =
    (text ".", ok directory)
    ∷ (text "zlib", ok (regular 0))
    ∷ (text ".git", ok directory)
    ∷ (text "curl", ok (regular 12))
    ∷ []

abbrev zlib : Name
zlib = record { str = text "zlib" }

scan : List (Text × Kind) → Membership
unfolding from_entries add_entries add_entry classify display_bytes is_allowed_byte Map.insert
scan = from_entries

scan-entries : scan entries ≡ record {
  members = (zlib, tt) ∷ [];
  rejected = record { display_name = text "curl"; reason = not_empty 12 } ∷ [];
  ignored = text ".git" ∷ [];
}
unfolding scan
scan-entries = refl

zlib-accepted : from_bytes (text "zlib") ≡ ok zlib
unfolding from_bytes is_allowed_byte
zlib-accepted = refl

zlib-IsName : IsName zlib.str
zlib-IsName = ((from_bytes_iff (text "zlib") zlib).0 zlib-accepted).0

is_member-from_entries_example :
    is_member zlib (from_entries entries) ≡ any (is_file_of zlib) entries
is_member-from_entries_example = is_member-from_entries zlib entries zlib-IsName

zlib-member : is_member zlib (from_entries entries) ≡ true
zlib-member = is_member-from_entries zlib entries zlib-IsName ∙ refl

from_entries-AllNames_example : IsName zlib.str
from_entries-AllNames_example = from_entries-AllNames entries zlib zlib-member
