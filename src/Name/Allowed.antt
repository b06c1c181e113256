-- ===== src/Name/Allowed.antt =====
-- Which byte strings are names (src/name.rs).
use byssus.Base.{
  ◌≤◌, ◌<◌, ◌≡◌, ◌≢◌, ◌↔◌, refl, ap, sym, true, none, [], ◌∷◌, length, All, not, position, get_or,
  ok, Text, dot, arith,
}
use byssus.Name.{Name-inj, Name, max_name_len, is_allowed_byte, from_bytes}

-- A byte string that names a file of its own directory: 1 to 255 allowed bytes, the first of which
-- is no dot.
pub record IsName (s : Text) : Type 0 where
  pub not_empty : 0 < length s
  pub short : length s ≤ max_name_len
  pub visible : get_or s 0 0 ≢ dot
  pub allowed : All (λ b. is_allowed_byte b ≡ true) s

position-All :
    (s : Text)
    → position (λ b. not (is_allowed_byte b)) s ≡ none
    → All (λ b. is_allowed_byte b ≡ true) s
position-All [] h = tt
position-All (b ∷ s) h = ground (arith, position-All s)

All-position :
    (s : Text)
    → All (λ b. is_allowed_byte b ≡ true) s
    → position (λ b. not (is_allowed_byte b)) s ≡ none
All-position [] h = refl
All-position (b ∷ s) h = rw (h.0) (rw (All-position s h.1) refl)

from_bytes-IsName : (s : Text) (n : Name) → from_bytes s ≡ ok n → IsName s × (n.str ≡ s)
unfolding from_bytes
from_bytes-IsName [] n h = absurd (ground arith)
from_bytes-IsName (b ∷ s) n h =
    let all = position-All (b ∷ s) in
    let e : n ≡ record { str = b ∷ s } = ground arith in
    (
      record {
        not_empty = ground arith;
        short = ground arith;
        visible = ground arith;
        allowed = ground (arith, all);
      },
      ap (λ n. n.str) e,
    )

IsName-from_bytes : (s : Text) → IsName s → from_bytes s ≡ ok (record { str = s })
unfolding from_bytes
IsName-from_bytes [] h = absurd (omega (arith, h.not_empty))
IsName-from_bytes (b ∷ s) h =
    let none_other = All-position (b ∷ s) h.allowed in
    let short = h.short in let visible = h.visible in ground arith

-- `from_bytes` accepts exactly the byte strings with 1 to 255 bytes, each of them allowed and the
-- first no dot, and the name that it gives is the string.
pub from_bytes_iff : (s : Text) (n : Name) → (from_bytes s ≡ ok n) ↔ (IsName s × (n.str ≡ s))
from_bytes_iff s n = (
  from_bytes-IsName s n,
  λ h. rw (IsName-from_bytes s h.0) (ap ok (Name-inj (record { str = s }) n (sym h.1))),
)
