-- ===== src/Name/Tests.antt =====
-- Names and identifiers at concrete inputs.
use byssus.Base.{◌≡◌, ◌↔◌, refl, [], ◌∷◌, Result, ok, err, Text, text, split}
use byssus.Name.{
  Name, NameError, GroupId, is_allowed_byte, from_bytes, parse, display, in_set, leading_dot,
  invalid_byte,
}
use byssus.Name.Allowed.{IsName, from_bytes_iff}
use byssus.Name.Groups.{IsGroup, parse-display, display-parse}

abbrev named : Text → Name
named s = record { str = s }

abbrev nested : GroupId
nested = in_set (named (text "teams")) (named (text "web") ∷ named (text "blue") ∷ [])

read : Text → Result NameError GroupId
unfolding parse from_bytes is_allowed_byte split
read = parse

read-nested : read (text "teams/web/blue") ≡ ok nested
unfolding read
read-nested = refl

read-hidden : read (text ".teams/web") ≡ err leading_dot
unfolding read
read-hidden = refl

read-deep : read (text "a/b/c/d") ≡ err (invalid_byte 47 5)
unfolding read
read-deep = refl

from_bytes_iff_example :
    (from_bytes (text "web") ≡ ok (named (text "web")))
    ↔ (IsName (text "web") × (text "web" ≡ text "web"))
from_bytes_iff_example = from_bytes_iff (text "web") (named (text "web"))

display-parse_example : IsGroup nested × (display nested ≡ text "teams/web/blue")
unfolding read
display-parse_example = display-parse (text "teams/web/blue") nested refl

nested-IsGroup : IsGroup nested
unfolding read
nested-IsGroup = (display-parse (text "teams/web/blue") nested refl).0

parse-display_example : parse (display nested) ≡ ok nested
parse-display_example = parse-display nested nested-IsGroup
