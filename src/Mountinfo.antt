-- ===== src/Mountinfo.antt =====
-- The mount table of `/proc/<pid>/mountinfo` (src/mountinfo.rs).
pub mod Escapes
pub mod Numbers
pub mod Lines
pub mod Table
mod Tests
use byssus.Base.{
  parse_uint, ℕ, ◌+◌, ◌-◌, ◌*◌, ◌^◌, zero, suc, ltb, leb, Bool, true, false, not, ◌&&◌, ◌||◌,
  Option, none, some, List, [], ◌∷◌, ◌++◌, map, length, any, is_empty, get_or, find, position,
  if◌then◌else◌, Result, ok, err, ◌>>=◌, ◌==◌, nat_eq, list_eq, Text, text, split, strip_prefix,
}

pub data Propagation : Type 0 where
  private_mount : Propagation
  shared : ℕ → Propagation
  slave : ℕ → Propagation
  shared_and_slave : ℕ → ℕ → Propagation
  unbindable : Propagation

-- `PathBuf`, `OsString` and `String` are their bytes.
pub record MountInfo : Type 0 where
  pub mount_id : ℕ
  pub parent_id : ℕ
  pub major : ℕ
  pub minor : ℕ
  pub root : Text
  pub mount_point : Text
  pub mount_options : Text
  pub propagation : Propagation
  pub optional_fields : List Text
  pub fs_type : Text
  pub source : Text
  pub super_options : Text

-- The numbers that a line has.
pub data Number : Type 0 where
  mount_number : Number
  parent_number : Number
  device_major : Number
  device_minor : Number
  shared_peer_group : Number
  master_peer_group : Number

-- The data of the reasons.
pub data Reason : Type 0 where
  missing_separator : Reason
  few_fields : ℕ → Reason
  fields_after : ℕ → Reason
  invalid_number : Number → Text → Reason
  invalid_device : Text → Reason
  invalid_escape : Text → Reason
  escape_out_of_range : Text → Reason

-- An error in a line, by the number of the line from 1.
pub record ParseError : Type 0 where
  pub line : ℕ
  pub reason : Reason

abbrev pub has_mount_option : MountInfo → Text → Bool
has_mount_option m option = any (λ o. o == option) (split b',' m.mount_options)

abbrev pub ok_or {ℓ κ} : {A : Type ℓ} {E : Type κ} → E → Option A → Result E A
ok_or e none = err e
ok_or e (some a) = ok a

-- Bytes that are not UTF-8 are no digits, so they are refused as well.
abbrev pub parse_num : ℕ → Text → Number → Result Reason ℕ
parse_num bits field what = ok_or (invalid_number what field) (parse_uint bits field)

-- The variables of the loop.
pub record Fields : Type 0 where
  pub shared_by : Option ℕ
  pub master : Option ℕ
  pub is_unbindable : Bool

abbrev classify_plain : Text → Fields → Result Reason Fields
classify_plain field v =
    if field == text "unbindable" then ok (record v { is_unbindable = true }) else ok v

abbrev classify_master : Text → Option Text → Fields → Result Reason Fields
classify_master field none v = classify_plain field v
classify_master field (some s) v = do
  n ← parse_num 64 s master_peer_group
  ok (record v { master = some n })

abbrev pub classify_field : Text → Option Text → Fields → Result Reason Fields
classify_field field none v = classify_master field (strip_prefix (text "master:") field) v
classify_field field (some s) v = do
  n ← parse_num 64 s shared_peer_group
  ok (record v { shared_by = some n })

unfoldable pub classify_fields : List Text → Fields → Result Reason Fields
unfolding parse_uint
classify_fields [] v = ok v
classify_fields (field ∷ fields) v = do
  w ← classify_field field (strip_prefix (text "shared:") field) v
  classify_fields fields w

abbrev pub propagation_of : Option ℕ → Option ℕ → Bool → Propagation
propagation_of _ _ true = unbindable
propagation_of (some peer_group) (some m) false = shared_and_slave peer_group m
propagation_of (some peer_group) none false = shared peer_group
propagation_of none (some m) false = slave m
propagation_of none none false = private_mount

unfoldable pub classify_propagation : List Text → Result Reason Propagation
unfolding classify_fields
classify_propagation optional = do
  v ← classify_fields optional (record { shared_by = none; master = none; is_unbindable = false })
  ok (propagation_of v.shared_by v.master v.is_unbindable)

abbrev is_octal : ℕ → Bool
is_octal b = leb b'0' b && leb b b'7'

abbrev pub backslash : ℕ
backslash = 92

-- The byte that three digits stand for.
abbrev pub octal : Text → Text → Result Reason ℕ
octal field (a ∷ b ∷ c ∷ s) =
    if is_octal a && (is_octal b && is_octal c)
    then (let value = ((a - b'0') * 8 + (b - b'0')) * 8 + (c - b'0') in
        if ltb 255 value then err (escape_out_of_range field) else ok value)
    else err (invalid_escape field)
octal field _ = err (invalid_escape field)

abbrev pub decoded : Text → ℕ → Text → Result Reason ℕ
decoded field b rest = if b == backslash then octal field rest else ok b

-- The loop, at the byte that is `skip` bytes on.
unfoldable pub unescape_from : Text → ℕ → Text → Result Reason Text
unescape_from field skip [] = ok []
unescape_from field (suc skip) (b ∷ s) = unescape_from field skip s
unescape_from field zero (b ∷ s) = do
  v ← decoded field b s
  rest ← unescape_from field (if b == backslash then 3 else 0) s
  ok (v ∷ rest)

unfoldable pub unescape : Text → Result Reason Text
unfolding unescape_from
unescape bytes = unescape_from bytes 0 bytes

-- `str::split_once`
unfoldable pub split_once : ℕ → Text → Option (Text × Text)
split_once sep [] = none
split_once sep (b ∷ s) =
    let rest = split_once sep s in
    if b == sep then some ([], s) else elim rest [ none ↦ none | some (p, q) ↦ some (b ∷ p, q) ]

abbrev pub slice : List Text → ℕ → ℕ → List Text
slice fields zero zero = []
slice [] _ _ = []
slice (f ∷ fields) (suc from) n = slice fields from n
slice (f ∷ fields) zero (suc n) = f ∷ slice fields zero n

-- Decoding of bytes that may not be UTF-8 is the library's.
module _ (lossy : Text → Text) where
  abbrev parse_device : Option (Text × Text) → Text → Result Reason (ℕ × ℕ)
  parse_device none device = err (invalid_device device)
  parse_device (some (major, minor)) device = do
    x ← parse_num 32 major device_major
    y ← parse_num 32 minor device_minor
    ok (x, y)

  abbrev pub at : List Text → ℕ → Text
  at fields i = get_or fields i []

  -- The indices are in bounds: there are `separator + 4` fields, and `separator` is at least 6.
  unfoldable pub parse_fields : List Text → ℕ → Result Reason MountInfo
  unfolding parse_uint classify_propagation unescape split_once
  parse_fields fields separator = do
    mount_id ← parse_num 64 (at fields 0) mount_number
    parent_id ← parse_num 64 (at fields 1) parent_number
    device ← parse_device (split_once b':' (lossy (at fields 2))) (lossy (at fields 2))
    propagation ← classify_propagation (map lossy (slice fields 6 (separator - 6)))
    root ← unescape (at fields 3)
    mount_point ← unescape (at fields 4)
    source ← unescape (at fields (separator + 2))
    ok (record {
      mount_id = mount_id;
      parent_id = parent_id;
      major = device.0;
      minor = device.1;
      root = root;
      mount_point = mount_point;
      mount_options = lossy (at fields 5);
      propagation = propagation;
      optional_fields = map lossy (slice fields 6 (separator - 6));
      fs_type = lossy (at fields (separator + 1));
      source = source;
      super_options = lossy (at fields (separator + 3));
    })

  abbrev pub after_separator : List Text → Option ℕ → Result Reason MountInfo
  after_separator fields none = err missing_separator
  after_separator fields (some separator) =
      if ltb separator 6
      then err (few_fields separator)
      else if length fields == separator + 4
      then parse_fields fields separator
      else err (fields_after (length fields - separator - 1))

  unfoldable pub parse_line : Text → Result Reason MountInfo
  unfolding split parse_fields
  parse_line line =
      let fields = split b' ' line in after_separator fields (position (λ f. f == text "-") fields)

  abbrev pub at_line : ℕ → Result Reason MountInfo → Result ParseError MountInfo
  at_line n (ok m) = ok m
  at_line n (err reason) = err (record { line = n; reason = reason })

  -- The lines from this number on; the empty ones are passed over.
  unfoldable pub parse_lines : ℕ → List Text → Result ParseError (List MountInfo)
  unfolding parse_line
  parse_lines n [] = ok []
  parse_lines n (line ∷ lines) =
      let rest = parse_lines (n + 1) lines in
      if is_empty line
      then rest
      else (do entry ← at_line n (parse_line line); entries ← rest; ok (entry ∷ entries))

  -- `MountTable::parse`
  unfoldable pub parse_table : Text → Result ParseError (List MountInfo)
  unfolding parse_lines
  parse_table content = parse_lines 1 (split b'\n' content)

abbrev pub by_id : List MountInfo → ℕ → Option MountInfo
by_id mounts id = find (λ m. m.mount_id == id) mounts
