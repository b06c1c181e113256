-- ===== src/Users.antt =====
-- The service user in the texts of `/etc/passwd` and `/etc/group` (src/users.rs).
pub mod Member
pub mod Exact
pub mod Resolved
mod Tests
use mathlib.Core.Option
use byssus.Base.{
  ℕ, Bool, true, false, not, Option, none, some, List, [], ◌∷◌, ◌++◌, any, keep, is_empty,
  if◌then◌else◌, Result, ok, err, ◌>>=◌, ◌==◌, nat_eq, list_eq, Text, split, parse_uint, by_number,
  sort_by, dedup,
}
use byssus.Privileges.Plan.{ServiceUser}

abbrev strip_return : Text → Text
strip_return [] = []
strip_return (b ∷ []) = if b == b'\r' then [] else b ∷ []
strip_return (b ∷ c ∷ s) = b ∷ strip_return (c ∷ s)

-- A piece but the last ends with a newline, and may end with a return before it.
abbrev terminated : List Text → List Text
terminated [] = []
terminated (p ∷ []) = if is_empty p then [] else p ∷ []
terminated (p ∷ q ∷ ps) = strip_return p ∷ terminated (q ∷ ps)

-- `str::lines`
unfoldable pub lines : Text → List Text
unfolding split
lines s = terminated (split b'\n' s)

abbrev both : Option ℕ → Option ℕ → Option (ℕ × ℕ)
both (some uid) (some gid) = some (uid, gid)
both _ _ = none

abbrev entry_of : Text → List Text → Option (ℕ × ℕ)
entry_of name (user ∷ password ∷ uid ∷ gid ∷ fields) =
    if user == name then both (parse_uint 32 uid) (parse_uint 32 gid) else none
entry_of name _ = none

-- What a line of the password file says of the user.
unfoldable pub user_entry : Text → Text → Option (ℕ × ℕ)
unfolding parse_uint split
user_entry name line = entry_of name (split b':' line)

abbrev pub or_else {ℓ} : {A : Type ℓ} → Option A → Option A → Option A
or_else none o = o
or_else (some a) o = some a

abbrev pub find_entry : Text → List Text → Option (ℕ × ℕ)
find_entry name [] = none
find_entry name (line ∷ ls) = or_else (user_entry name line) (find_entry name ls)

unfoldable pub find_user : Text → Text → Option (ℕ × ℕ)
unfolding lines user_entry
find_user passwd name = find_entry name (lines passwd)

abbrev if_member : Bool → Option ℕ → Option ℕ
if_member true gid = gid
if_member false gid = none

abbrev gid_of : Text → List Text → Option ℕ
gid_of name (group_name ∷ password ∷ gid ∷ members ∷ fields) =
    if_member (any (λ m. m == name) (split b',' members)) (parse_uint 32 gid)
gid_of name _ = none

-- The group of a line of the group file, if the user is a member.
unfoldable pub group_entry : Text → Text → Option ℕ
unfolding parse_uint split
group_entry name line = gid_of name (split b':' line)

abbrev pub cons_some : Option ℕ → List ℕ → List ℕ
cons_some none gids = gids
cons_some (some gid) gids = gid ∷ gids

abbrev pub group_entries : Text → List Text → List ℕ
group_entries name [] = []
group_entries name (line ∷ ls) = cons_some (group_entry name line) (group_entries name ls)

unfoldable pub supplementary_groups : Text → Text → List ℕ
unfolding lines group_entry sort_by dedup
supplementary_groups group name =
    dedup (sort_by (by_number (λ g. g)) (group_entries name (lines group)))

abbrev pub user_of : Text → ℕ × ℕ → List ℕ → ServiceUser
user_of name (uid, gid) groups = record {
  name = name;
  uid = uid;
  gid = gid;
  groups = keep (λ g. not (g == gid)) groups;
}

-- Files are read by the standard library, whose errors are its own.
pub data ResolveError (Io : Type 0) : Type 0 where
  not_found : Text → Text → ResolveError Io
  io : Text → Io → ResolveError Io

module _ {Io : Type 0} where
  abbrev pub found_or : ResolveError Io → Option (ℕ × ℕ) → Result (ResolveError Io) (ℕ × ℕ)
  found_or e none = err e
  found_or e (some ids) = ok ids

  abbrev pub located : Text → Result Io Text → Result (ResolveError Io) Text
  located path (ok s) = ok s
  located path (err e) = err (io path e)

  unfoldable pub resolve_from :
      (Text → Result Io Text) → Text → Text → Text → Result (ResolveError Io) ServiceUser
  unfolding find_user supplementary_groups
  resolve_from read_to_string name passwd group = do
    passwd_text ← located passwd (read_to_string passwd)
    ids ← found_or (not_found name passwd) (find_user passwd_text name)
    group_text ← located group (read_to_string group)
    ok (user_of name ids (supplementary_groups group_text name))
