-- ===== src/Mountinfo/Escapes.antt =====
-- The kernel's escapes, and that they are undone (src/mountinfo.rs, `unescape`).
use byssus.Base.{
  ℕ, Free, ◌+◌, ◌/◌, ◌%◌, ◌<◌, ◌≡◌, refl, inl, inr, Bool, false, ◌||◌, Bool-cases, [], ◌∷◌, ◌++◌,
  if◌then◌else◌, ok, ◌==◌, nat_eq, Text, arith,
}
use byssus.Mountinfo.{backslash, octal, unescape_from, unescape}

-- What the kernel escapes: space, tab, newline and backslash.
abbrev is_escaped : ℕ → Bool
is_escaped b = b == b' ' || (b == b'\t' || (b == b'\n' || b == backslash))

abbrev escape_byte : ℕ → Text
escape_byte b =
    if is_escaped b
    then backslash ∷ (b'0' + b / 64) ∷ (b'0' + b / 8 % 8) ∷ (b'0' + b % 8) ∷ []
    else b ∷ []

unfoldable pub escape : Text → Text
escape [] = []
escape (b ∷ s) = escape_byte b ++ escape s

octal-digits :
    (field : Text) (b : ℕ) (s : Text)
    → b < 256
    → octal field ((b'0' + b / 64) ∷ (b'0' + b / 8 % 8) ∷ (b'0' + b % 8) ∷ s) ≡ ok b
octal-digits field b s h = ground arith

unescape_from-escape : (field s : Text) → unescape_from field 0 (escape s) ≡ ok s
unfolding unescape_from escape
unescape_from-escape field [] = refl
unescape_from-escape field (b ∷ s) = elim (Bool-cases (is_escaped b)) [
  | inl e ↦
      rw (e, octal-digits field b (escape s) (ground arith), unescape_from-escape field s) refl
  | inr e ↦
      let plain : (b == backslash) ≡ false = ground arith in
      rw (e, plain, unescape_from-escape field s) refl
]

-- Whatever bytes a field has, `unescape` gives them back from the field as the kernel writes it, with
-- space, tab, newline and backslash as three octal digits after a backslash.
pub unescape-escape : (s : Text) → unescape (escape s) ≡ ok s
unfolding unescape
unescape-escape s = unescape_from-escape (escape s) s

-- An escaped field has no space.
pub escape-Free : (s : Text) → Free b' ' (escape s)
unfolding escape
escape-Free [] = tt
escape-Free (b ∷ s) = elim (Bool-cases (is_escaped b)) [
  | inl e ↦ rw e (refl, (ground arith, (ground arith, (ground arith, escape-Free s))))
  | inr e ↦ rw e (ground arith, escape-Free s)
]
