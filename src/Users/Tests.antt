-- ===== src/Users/Tests.antt =====
-- Users in concrete files (src/users.rs).
use byssus.Base.{
  ℕ, ◌≡◌, refl, Option, none, some, List, [], ◌∷◌, if◌then◌else◌, Result, ok, err, Yields, ◌==◌,
  list_eq, nat_eq, Text, text,
}
use byssus.Privileges.Plan.{ServiceUser}
use byssus.Users.{lines, find_user, supplementary_groups, ResolveError, not_found, io, resolve_from}
use byssus.Users.Exact.{AreGroups, supplementary_groups-AreGroups}
use byssus.Users.Resolved.{IsResolved, resolve_from-IsResolved}

abbrev passwd_text : Text
passwd_text = text "root:x:0:0:root:/root\nbyssus:x:991:992::/\nbroken:x:notanumber:1::/\n"

abbrev group_text : Text
group_text =
    text
      "root:x:0:\nb:x:992:byssus\nacl:x:501:alice,byssus\nother:x:9:byssus2\ndupe:x:501:byssus\nlow:x:3:byssus\r\n"

find : Text → Option (ℕ × ℕ)
unfolding find_user
find name = find_user passwd_text name

find_byssus : find (text "byssus") ≡ some (991, 992)
unfolding find
find_byssus = refl

find_broken : find (text "broken") ≡ none
unfolding find
find_broken = refl

find_prefix : find (text "byssu") ≡ none
unfolding find
find_prefix = refl

groups_of : Text → List ℕ
unfolding supplementary_groups
groups_of name = supplementary_groups group_text name

groups_byssus : groups_of (text "byssus") ≡ 3 ∷ 501 ∷ 992 ∷ []
unfolding groups_of
groups_byssus = refl

lines_ends : lines (text "a\r\nb\r") ≡ text "a" ∷ text "b\r" ∷ []
unfolding lines
lines_ends = refl

abbrev read_to_string : Text → Result Text Text
read_to_string path =
    if path == text "passwd"
    then ok passwd_text
    else if path == text "group"
    then ok group_text
    else err (text "no such file")

resolve : Text → Text → Result (ResolveError Text) ServiceUser
unfolding resolve_from
resolve name group = resolve_from read_to_string name (text "passwd") group

resolved :
    resolve (text "byssus") (text "group")
    ≡ ok record { name = text "byssus"; uid = 991; gid = 992; groups = 3 ∷ 501 ∷ [] }
unfolding resolve
resolved = refl

unknown : resolve (text "ghost") (text "group") ≡ err (not_found (text "ghost") (text "passwd"))
unfolding resolve
unknown = refl

unreadable : resolve (text "byssus") (text "none") ≡ err (io (text "none") (text "no such file"))
unfolding resolve
unreadable = refl

supplementary_groups-AreGroups_example :
    AreGroups (text "byssus") group_text (supplementary_groups group_text (text "byssus"))
supplementary_groups-AreGroups_example = supplementary_groups-AreGroups group_text (text "byssus")

resolve_from-IsResolved_example :
    Yields
      (IsResolved read_to_string (text "byssus") (text "passwd") (text "group"))
      (resolve_from read_to_string (text "byssus") (text "passwd") (text "group"))
resolve_from-IsResolved_example =
    resolve_from-IsResolved read_to_string (text "byssus") (text "passwd") (text "group")
