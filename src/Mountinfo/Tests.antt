-- ===== src/Mountinfo/Tests.antt =====
-- The mount table at concrete lines (src/mountinfo.rs).
use byssus.Base.{
  parse_uint, ℕ, ◌≡◌, refl, Bool, true, false, none, some, [], ◌∷◌, Result, ok, err, Text, text,
  split, join, all, ltb, not, ◌==◌, nat_eq, ◌&&◌, Free, arith,
}
use byssus.Mountinfo.{
  MountInfo, Reason, slave, shared_and_slave, unbindable, missing_separator, few_fields,
  fields_after, invalid_number, invalid_device, invalid_escape, escape_out_of_range, mount_number,
  shared_peer_group, has_mount_option, classify_propagation, unescape, parse_line, parse_table,
}
use byssus.Mountinfo.Escapes.{escape, unescape-escape}
use byssus.Mountinfo.Lines.{IsAscii, IsEntry, IsWord, line_of, parse_line-line_of}
use byssus.Mountinfo.Table.{Outcome, parse_table-Outcome}

abbrev as_it_is : Text → Text
as_it_is s = s

abbrev spaced : MountInfo
spaced = record {
  mount_id = 40;
  parent_id = 22;
  major = 259;
  minor = 2;
  root = text "/a b";
  mount_point = text "/v";
  mount_options = text "ro,noexec";
  propagation = shared_and_slave 5 3;
  optional_fields = text "shared:5" ∷ text "master:3" ∷ [];
  fs_type = text "ext4";
  source = text "a\\b";
  super_options = text "rw";
}

written :
    line_of spaced ≡ text "40 22 259:2 /a\\040b /v ro,noexec shared:5 master:3 - ext4 a\\134b rw"
unfolding join escape
written = refl

read : Text → Result Reason MountInfo
unfolding parse_line
read = parse_line as_it_is

read_few : read (text "22 1 259:2 / / - ext4 /dev/x rw") ≡ err (few_fields 5)
unfolding read
read_few = refl

read_none : read (text "22 1 259:2 / / rw shared:1 ext4 /dev/x rw") ≡ err missing_separator
unfolding read
read_none = refl

read_after : read (text "22 1 259:2 / / rw - ext4 /dev/x") ≡ err (fields_after 2)
unfolding read
read_after = refl

read_id :
    read (text "x 1 259:2 / / rw - ext4 /dev/x rw") ≡ err (invalid_number mount_number (text "x"))
unfolding read
read_id = refl

read_device : read (text "22 1 2592 / / rw - ext4 /dev/x rw") ≡ err (invalid_device (text "2592"))
unfolding read
read_device = refl

read_peer :
    read (text "22 1 259:2 / / rw shared:x - ext4 /dev/x rw")
    ≡ err (invalid_number shared_peer_group (text "x"))
unfolding read
read_peer = refl

read_escape :
    read (text "22 1 259:2 /\\9 / rw - ext4 /dev/x rw") ≡ err (invalid_escape (text "/\\9"))
unfolding read
read_escape = refl

unescape_range : unescape (text "\\400") ≡ err (escape_out_of_range (text "\\400"))
unfolding unescape
unescape_range = refl

unescape_high : unescape (text "\\377") ≡ ok (255 ∷ [])
unfolding unescape
unescape_high = refl

classify_master :
    classify_propagation (text "master:7" ∷ text "propagate_from:2" ∷ []) ≡ ok (slave 7)
unfolding classify_propagation
classify_master = refl

classify_unbindable :
    classify_propagation (text "shared:1" ∷ text "unbindable" ∷ []) ≡ ok unbindable
unfolding classify_propagation
classify_unbindable = refl

too_large : parse_uint 32 (text "4294967296") ≡ none
unfolding parse_uint
too_large = refl

with_plus : parse_uint 32 (text "+7") ≡ some 7
unfolding parse_uint
with_plus = refl

option_ro : has_mount_option spaced (text "ro") ≡ true
unfolding split
option_ro = refl

option_no : has_mount_option spaced (text "no") ≡ false
unfolding split
option_no = refl

abbrev is_word_byte : ℕ → Bool
is_word_byte b = ltb b 128 && not (b == b' ')

ascii_lem : (s : Text) → all is_word_byte s ≡ true → IsAscii s
ascii_lem [] h = tt
ascii_lem (b ∷ s) h =
    let f : all is_word_byte s ≡ true = ground arith in (ground arith, ascii_lem s f)

no_space_lem : (s : Text) → all is_word_byte s ≡ true → Free b' ' s
no_space_lem [] h = tt
no_space_lem (b ∷ s) h =
    let f : all is_word_byte s ≡ true = ground arith in (ground arith, no_space_lem s f)

word_lem : (s : Text) → all is_word_byte s ≡ true → IsWord s
word_lem s h = record { no_space = no_space_lem s h; ascii = ascii_lem s h }

spaced-IsEntry : IsEntry spaced
unfolding classify_propagation
spaced-IsEntry = record {
  mount_id = ground arith;
  parent_id = ground arith;
  major = ground arith;
  minor = ground arith;
  root = refl;
  mount_point = refl;
  mount_options = (word_lem (text "ro,noexec") refl, refl);
  optional_fields =
      ((word_lem (text "shared:5") refl, refl), ((word_lem (text "master:3") refl, refl), tt));
  fs_type = word_lem (text "ext4") refl;
  super_options = word_lem (text "rw") refl;
  propagation = refl;
}

unescape-escape_example : unescape (escape (text "a b\\c")) ≡ ok (text "a b\\c")
unescape-escape_example = unescape-escape (text "a b\\c")

parse_line-line_of_example : parse_line as_it_is (line_of spaced) ≡ ok spaced
parse_line-line_of_example = parse_line-line_of as_it_is (λ s h. refl) spaced spaced-IsEntry

parse_table-Outcome_example :
    Outcome as_it_is 1 (split b'\n' (text "\n22 1")) (parse_table as_it_is (text "\n22 1"))
parse_table-Outcome_example = parse_table-Outcome as_it_is (text "\n22 1")
