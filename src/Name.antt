-- ===== src/Name.antt =====
-- Member and group names (src/name.rs): the allowlist that untrusted file names pass, and the
-- identifiers of groups.
pub mod Allowed
pub mod Groups
mod Tests
use byssus.Base.{
  ℕ, ◌+◌, ◌≡◌, Bool, true, false, ◌&&◌, ◌||◌, not, Option, none, some, List, [], ◌∷◌, ◌++◌, map,
  if◌then◌else◌, ltb, leb, Result, ok, err, ◌>>=◌, Text, slash, dot, split, join, length, position,
  get_or, is_empty, Eq, Ord, ◌==◌, nat_eq, list_eq, option_eq, nat_ord, list_ord, option_ord,
  eq_of_ord, ord_field, ord_fields,
}

-- The Linux `NAME_MAX`.
abbrev pub max_name_len : ℕ
max_name_len = 255

pub record Name : Type 0 where
  pub str : Text

pub data NameError : Type 0 where
  empty : NameError
  too_long : ℕ → NameError
  leading_dot : NameError
  invalid_byte : ℕ → ℕ → NameError

unfoldable pub is_allowed_byte : ℕ → Bool
is_allowed_byte b =
    (leb b'A' b && leb b b'Z')
    || (leb b'a' b && leb b b'z')
    || (leb b'0' b && leb b b'9')
    || (b == dot || b == b'_' || b == b'-')

unfoldable pub from_bytes : Text → Result NameError Name
unfolding is_allowed_byte
from_bytes bytes =
    if is_empty bytes
    then err empty
    else if ltb max_name_len (length bytes)
    then err (too_long (length bytes))
    else if get_or bytes 0 0 == dot
    then err leading_dot
    else elim (position (λ b. not (is_allowed_byte b)) bytes) [
      | some offset ↦ err (invalid_byte (get_or bytes offset 0) offset)
      | none ↦ ok (record { str = bytes })
    ]

pub Name-inj : (a b : Name) → a.str ≡ b.str → a ≡ b
Name-inj a b e = λ i. record { str = e i }

instance abbrev pub name_ord : Ord Name
name_ord = ord_field (λ n. n.str) Name-inj

instance abbrev pub name_eq : Eq Name
name_eq = eq_of_ord name_ord

-- The most directory levels a group set can have.
abbrev pub max_set_depth : ℕ
max_set_depth = 2

pub record GroupId : Type 0 where
  pub set : Option Name
  pub path : List Name

pub GroupId-inj : (a b : GroupId) → a.set ≡ b.set → a.path ≡ b.path → a ≡ b
GroupId-inj a b e f = λ i. record { set = e i; path = f i }

instance abbrev pub group_ord : Ord GroupId
group_ord = ord_fields (λ g. g.set) (λ g. g.path) GroupId-inj

instance abbrev pub group_eq : Eq GroupId
group_eq = eq_of_ord group_ord

abbrev pub statically : Name → GroupId
statically group = record { set = none; path = group ∷ [] }

-- The source asserts that the path has one or two levels, and panics otherwise; here the value is
-- built all the same. `parse` tests the number before, and the scan of a set goes down by the depth
-- of the set, which is 1 or 2 in a configuration that is accepted.
abbrev pub in_set : Name → List Name → GroupId
in_set set path = record { set = some set; path = path }

-- `collect::<Result<_, _>>`: the first error ends it.
abbrev pub collect_names : List Text → Result NameError (List Name)
collect_names [] = ok []
collect_names (p ∷ ps) = do n ← from_bytes p; ns ← collect_names ps; ok (n ∷ ns)

-- `rfind(b).unwrap_or(0)`
abbrev pub rfind_from : ℕ → Text → ℕ → ℕ → ℕ
rfind_from b [] i last = last
rfind_from b (c ∷ s) i last = rfind_from b s (i + 1) (if c == b then i else last)

abbrev pub of_parts : Text → Name → List Name → Result NameError GroupId
of_parts s first [] = ok (statically first)
of_parts s first (n ∷ rest) =
    if leb (length (n ∷ rest)) max_set_depth
    then ok (in_set first (n ∷ rest))
    else err (invalid_byte slash (rfind_from slash s 0 0))

abbrev pub parse_parts : Text → List Text → Result NameError GroupId
parse_parts s [] = do first ← from_bytes []; of_parts s first []
parse_parts s (p ∷ parts) = do
  first ← from_bytes p
  rest ← collect_names parts
  of_parts s first rest

unfoldable pub parse : Text → Result NameError GroupId
unfolding split
parse s = parse_parts s (split slash s)

abbrev pub strs : List Name → List Text
strs ns = map (λ n. n.str) ns

-- `Display`
unfoldable pub display : GroupId → Text
unfolding join
display g = elim g.set [
  | some set ↦ set.str ++ (slash ∷ join slash (strs g.path))
  | none ↦ join slash (strs g.path)
]

-- `slice::starts_with`
abbrev pub is_prefix : List Name → List Name → Bool
is_prefix [] path = true
is_prefix (p ∷ ps) [] = false
is_prefix (p ∷ ps) (n ∷ path) = p == n && is_prefix ps path

unfoldable pub starts_with : GroupId → GroupId → Bool
starts_with g prefix = g.set == prefix.set && is_prefix prefix.path g.path
