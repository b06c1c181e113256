-- ===== src/Mountinfo/Lines.antt =====
-- A line of the mount table as the kernel writes it, read back (src/mountinfo.rs, `parse_line`).
use mathlib.Core.Path.{subst}
use byssus.Base.{
  ℕ, ◌+◌, ◌-◌, ◌^◌, ◌<◌, zero, suc, ◌≡◌, refl, sym, ap, ◌∙◌, inl, inr, ltb, true, false, Bool-cases,
  some, List, [], ◌∷◌, ◌++◌, map, length, length-append, position, get_or, Result, ok, err, ◌==◌,
  nat_eq, list_eq, ==→≡, All, All-append, All-mono, Text, text, Free, join, split-join, decimal,
  arith,
}
use byssus.Mountinfo.{
  MountInfo, Reason, slice, split_once, classify_propagation, unescape, parse_fields, at,
  parse_line,
}
use byssus.Mountinfo.Escapes.{escape, unescape-escape, escape-Free}
use byssus.Mountinfo.Numbers.{AreDigits, decimal-AreDigits, decimal-Free, parse_uint-decimal}

abbrev pub device_text : MountInfo → Text
device_text m = decimal m.major ++ (b':' ∷ decimal m.minor)

abbrev leading : MountInfo → List Text
leading m =
    decimal m.mount_id
    ∷ decimal m.parent_id
    ∷ device_text m
    ∷ escape m.root
    ∷ escape m.mount_point
    ∷ m.mount_options
    ∷ []

abbrev trailing : MountInfo → List Text
trailing m = text "-" ∷ m.fs_type ∷ escape m.source ∷ m.super_options ∷ []

-- The fields of a line.
abbrev fields_of : MountInfo → List Text
fields_of m = leading m ++ (m.optional_fields ++ trailing m)

-- The line that the kernel writes.
abbrev pub line_of : MountInfo → Text
line_of m = join b' ' (fields_of m)

abbrev IsField : Text → Type 0
IsField s = Free b' ' s

-- A field before the separator is not taken for it.
abbrev IsLeading : Text → Type 0
IsLeading s = (s == text "-") ≡ false

split_once-append :
    (sep : ℕ) (p s : Text) → Free sep p → split_once sep (p ++ (sep ∷ s)) ≡ some (p, s)
unfolding split_once
split_once-append sep [] s h = let e : (sep == sep) ≡ true = ground arith in rw e refl
split_once-append sep (b ∷ p) s h = rw (split_once-append sep p s h.1, h.0) refl

position-append :
    (xs ys : List Text)
    → All IsLeading xs
    → position (λ f. f == text "-") (xs ++ (text "-" ∷ ys)) ≡ some (length xs)
position-append [] ys h = refl
position-append (x ∷ xs) ys h = rw (h.0, position-append xs ys h.1) refl

get_or-append :
    (xs ys : List Text) (i k : ℕ) → k ≡ length xs + i → get_or (xs ++ ys) k [] ≡ get_or ys i []
get_or-append [] ys i k e = let f : k ≡ i = omega (arith, e) in ap (λ n. get_or ys n []) f
get_or-append (x ∷ xs) ys i zero e = absurd (omega (arith, e))
get_or-append (x ∷ xs) ys i (suc k) e = get_or-append xs ys i k (omega (arith, e))

slice-length : (xs ys : List Text) → slice (xs ++ ys) 0 (length xs) ≡ xs
slice-length [] ys = refl
slice-length (x ∷ xs) ys = λ i. x ∷ slice-length xs ys i

digits-IsLeading : (s : Text) → AreDigits s → IsLeading s
digits-IsLeading [] h = refl
digits-IsLeading (b ∷ s) h = let e : (b == b'-') ≡ false = ground (arith, h.0) in rw e refl

abbrev ok_of : Result Reason Text → Text
ok_of (ok s) = s
ok_of (err e) = []

device-IsLeading : (p q : Text) → AreDigits p → IsLeading (p ++ (b':' ∷ q))
device-IsLeading [] q h = refl
device-IsLeading (b ∷ p) q h = let e : (b == b'-') ≡ false = ground (arith, h.0) in rw e refl

escape-IsLeading : (s : Text) → IsLeading s → IsLeading (escape s)
unfolding unescape
escape-IsLeading s h = elim (Bool-cases (escape s == text "-")) [
  | inl e ↦
      let f : ok (text "-") ≡ ok s =
        subst (λ t. unescape t ≡ ok s) (==→≡ (escape s) (text "-") e) (unescape-escape s) in
      let same : text "-" ≡ s = ap ok_of f in
      let g : (text "-" == text "-") ≡ false = subst IsLeading (sym same) h in absurd (ground arith)
  | inr e ↦ e
]

abbrev pub IsAscii : Text → Type 0
IsAscii = All (λ b. b < 128)

digits-IsAscii : (s : Text) → AreDigits s → IsAscii s
digits-IsAscii s h = All-mono _ (λ b. b < 128) s (λ b d. ground (arith, d)) h

-- A field without escapes: ASCII without spaces.
pub record IsWord (s : Text) : Type 0 where
  pub no_space : Free b' ' s
  pub ascii : IsAscii s

-- An entry that the kernel may list: its numbers fit, no field before the separator is `-`, the
-- options and the type are words, and its propagation is that of its optional fields.
pub record IsEntry (m : MountInfo) : Type 0 where
  pub mount_id : m.mount_id < 2 ^ 64
  pub parent_id : m.parent_id < 2 ^ 64
  pub major : m.major < 2 ^ 32
  pub minor : m.minor < 2 ^ 32
  pub root : IsLeading m.root
  pub mount_point : IsLeading m.mount_point
  pub mount_options : IsWord m.mount_options × IsLeading m.mount_options
  pub optional_fields : All (λ s. IsWord s × IsLeading s) m.optional_fields
  pub fs_type : IsWord m.fs_type
  pub super_options : IsWord m.super_options
  pub propagation : classify_propagation m.optional_fields ≡ ok m.propagation

fields_of-Free : (m : MountInfo) → IsEntry m → All (Free b' ') (fields_of m)
fields_of-Free m h = (
  decimal-Free b' ' m.mount_id refl,
  (
    decimal-Free b' ' m.parent_id refl,
    (
      All-append (λ b. (b == b' ') ≡ false) (decimal m.major) (b':' ∷ decimal m.minor)
          (decimal-Free b' ' m.major refl) (refl, decimal-Free b' ' m.minor refl),
      (
        escape-Free m.root,
        (
          escape-Free m.mount_point,
          (
            h.mount_options.0.no_space,
            All-append (Free b' ') m.optional_fields (trailing m)
                (All-mono _ (Free b' ') m.optional_fields (λ s w. w.0.no_space) h.optional_fields)
                (
                  (refl, tt),
                  (h.fs_type.no_space, (escape-Free m.source, (h.super_options.no_space, tt))),
                ),
          ),
        ),
      ),
    ),
  ),
)

before-IsLeading : (m : MountInfo) → IsEntry m → All IsLeading (leading m ++ m.optional_fields)
before-IsLeading m h = (
  digits-IsLeading (decimal m.mount_id) (decimal-AreDigits m.mount_id),
  (
    digits-IsLeading (decimal m.parent_id) (decimal-AreDigits m.parent_id),
    (
      device-IsLeading (decimal m.major) (decimal m.minor) (decimal-AreDigits m.major),
      (
        escape-IsLeading m.root h.root,
        (
          escape-IsLeading m.mount_point h.mount_point,
          (
            h.mount_options.1,
            All-mono _ IsLeading m.optional_fields (λ s w. w.1) h.optional_fields,
          ),
        ),
      ),
    ),
  ),
)

module _ (lossy : Text → Text) (lossy_ascii : (s : Text) → IsAscii s → lossy s ≡ s) (m : MountInfo)
    (h : IsEntry m) where
  device-lossy : lossy (device_text m) ≡ device_text m
  device-lossy = lossy_ascii (device_text m) (
      All-append (λ b. b < 128) (decimal m.major) (b':' ∷ decimal m.minor)
        (digits-IsAscii (decimal m.major) (decimal-AreDigits m.major))
        (ground arith, digits-IsAscii (decimal m.minor) (decimal-AreDigits m.minor)))

  optional-lossy : (ss : List Text) → All (λ s. IsWord s × IsLeading s) ss → map lossy ss ≡ ss
  optional-lossy [] w = refl
  optional-lossy (s ∷ ss) w = λ i. lossy_ascii s w.0.0.ascii i ∷ optional-lossy ss w.1 i

  abbrev separator : ℕ
  separator = length (leading m ++ m.optional_fields)

  -- A field after the separator.
  trailing_field : (k : ℕ) → at lossy (fields_of m) (separator + k) ≡ get_or (trailing m) k []
  trailing_field k =
      get_or-append (leading m ++ m.optional_fields) (trailing m) k (separator + k) refl

  optional-slice : map lossy (slice (fields_of m) 6 (separator - 6)) ≡ m.optional_fields
  optional-slice =
      let count : separator - 6 ≡ length m.optional_fields = omega arith in
      ap (λ n. map lossy (slice (fields_of m) 6 n)) count
      ∙ (ap (map lossy) (slice-length m.optional_fields (trailing m))
          ∙ optional-lossy m.optional_fields h.optional_fields)

  parse_fields-fields_of : parse_fields lossy (fields_of m) separator ≡ ok m
  unfolding parse_fields
  parse_fields-fields_of =
      rw
        (
          parse_uint-decimal 64 m.mount_id h.mount_id,
          parse_uint-decimal 64 m.parent_id h.parent_id,
          device-lossy,
          split_once-append b':' (decimal m.major) (decimal m.minor)
              (decimal-Free b':' m.major refl),
          parse_uint-decimal 32 m.major h.major,
          parse_uint-decimal 32 m.minor h.minor,
          optional-slice,
          h.propagation,
          unescape-escape m.root,
          unescape-escape m.mount_point,
          trailing_field 1,
          trailing_field 2,
          trailing_field 3,
          unescape-escape m.source,
          lossy_ascii m.mount_options h.mount_options.0.ascii,
          lossy_ascii m.fs_type h.fs_type.ascii,
          lossy_ascii m.super_options h.super_options.ascii,
        )
        refl

  -- An entry whose numbers fit, and whose options and type are plain words, is read back from the line
  -- that the kernel writes for it, whatever bytes its root, mount point and source have.
  pub parse_line-line_of : parse_line lossy (line_of m) ≡ ok m
  unfolding parse_line
  parse_line-line_of =
      let e : ltb separator 6 ≡ false = ground arith in
      let c : (length (fields_of m) == separator + 4) ≡ true =
        ground (arith, length-append m.optional_fields (trailing m)) in
      rw
        (
          split-join b' ' (decimal m.mount_id) _ (fields_of-Free m h),
          position-append (leading m ++ m.optional_fields)
              (m.fs_type ∷ escape m.source ∷ m.super_options ∷ []) (before-IsLeading m h),
          e,
          c,
        )
        parse_fields-fields_of
