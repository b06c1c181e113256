-- ===== src/Base/Numerals.antt =====
-- `Display` of numbers, and `str::parse` at unsigned integers.
use Prim.Native.Nat.{ℕ, ◌+◌, ◌-◌, ◌*◌, ◌/◌, ◌%◌, ◌^◌}
use mathlib.Core.Option.{Option, none, some}
use byssus.Base.Order.{◌==◌, nat_eq}
use byssus.Base.Lists.{is_empty}
use mathlib.Core.Bool.{Bool, true, false, ◌&&◌}
use mathlib.Core.List.{[], ◌∷◌}
use byssus.Base.Tests.{ltb, leb, if◌then◌else◌}
use byssus.Base.Bytes.{Text}

abbrev pub digits : ℕ → ℕ → Text → Text
digits ℕ.zero n acc = acc
digits (ℕ.suc fuel) n acc = elim (ltb n 10) [
  | true ↦ (b'0' + n) ∷ acc
  | false ↦ digits fuel (n / 10) ((b'0' + n % 10) ∷ acc)
]

-- `Display` of an unsigned integer
abbrev pub decimal : ℕ → Text
decimal n = digits (ℕ.suc n) n []

abbrev pub hex_digit : ℕ → ℕ
hex_digit n = if ltb n 10 then b'0' + n else b'a' + (n - 10)

abbrev pub is_digit : ℕ → Bool
is_digit b = leb b'0' b && leb b b'9'

-- The value of digits, after `n`.
unfoldable pub digits_from : ℕ → Text → Option ℕ
digits_from n [] = some n
digits_from n (b ∷ s) = if is_digit b then digits_from (n * 10 + (b - b'0')) s else none

abbrev pub bounded : ℕ → Option ℕ → Option ℕ
bounded bits none = none
bounded bits (some n) = if ltb n (2 ^ bits) then some n else none

abbrev pub drop_plus : Text → Text
drop_plus [] = []
drop_plus (b ∷ s) = if b == b'+' then s else b ∷ s

-- `str::parse` at an unsigned integer of `bits` bits: digits, after one `+` that may stand there.
unfoldable pub parse_uint : ℕ → Text → Option ℕ
unfolding digits_from
parse_uint bits s =
    let digits = drop_plus s in
    if is_empty digits then none else bounded bits (digits_from 0 digits)
