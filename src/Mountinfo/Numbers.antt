-- ===== src/Mountinfo/Numbers.antt =====
-- Numbers as they are written, read back (src/mountinfo.rs, `parse_num`).
use byssus.Base.{
  is_digit, digits_from, drop_plus, parse_uint, ℕ, ◌+◌, ◌-◌, ◌*◌, ◌/◌, ◌%◌, ◌^◌, ◌<◌, zero, suc,
  ◌≡◌, refl, ap, ◌∙◌, inl, inr, ltb, true, false, Bool-cases, some, [], ◌∷◌, is_empty, ◌==◌, nat_eq,
  All, All-mono, Text, Free, digits, decimal, arith,
}

abbrev pub AreDigits : Text → Type 0
AreDigits = All (λ b. is_digit b ≡ true)

digits-AreDigits : (fuel n : ℕ) (acc : Text) → AreDigits acc → AreDigits (digits fuel n acc)
digits-AreDigits zero n acc h = h
digits-AreDigits (suc fuel) n acc h = elim (Bool-cases (ltb n 10)) [
  | inl e ↦ rw (e, digits) (ground arith, h)
  | inr e ↦
      rw (e, digits) (digits-AreDigits fuel (n / 10) ((b'0' + n % 10) ∷ acc) (ground arith, h))
]

digits_from-digits :
    (fuel n : ℕ) (acc : Text) → n < fuel → digits_from 0 (digits fuel n acc) ≡ digits_from n acc
unfolding digits_from
digits_from-digits zero n acc h = absurd (ground arith)
digits_from-digits (suc fuel) n acc h = elim (Bool-cases (ltb n 10)) [
  | inl e ↦
      rw (e, digits)
        (let d : is_digit (b'0' + n) ≡ true = ground arith in
          let v : 0 * 10 + (b'0' + n - b'0') ≡ n = omega arith in
          rw (d) (ap (λ k. digits_from k acc) v))
  | inr e ↦
      let d : is_digit (b'0' + n % 10) ≡ true = ground arith in
      let v : n / 10 * 10 + (b'0' + n % 10 - b'0') ≡ n = omega arith in
      let rest = digits_from-digits fuel (n / 10) ((b'0' + n % 10) ∷ acc) (ground arith) in
      rw (e, digits) (rest ∙ rw d (ap (λ k. digits_from k acc) v))
]

abbrev IsFull : Text → Type 0
IsFull s = is_empty s ≡ false

digits-IsFull : (fuel n : ℕ) (acc : Text) → IsFull acc → IsFull (digits fuel n acc)
digits-IsFull zero n acc h = h
digits-IsFull (suc fuel) n acc h = elim (Bool-cases (ltb n 10)) [
  | inl e ↦ rw (e, digits) refl
  | inr e ↦ rw (e, digits) (digits-IsFull fuel (n / 10) ((b'0' + n % 10) ∷ acc) refl)
]

digits_step-IsFull : (fuel n : ℕ) (acc : Text) → IsFull (digits (suc fuel) n acc)
digits_step-IsFull fuel n acc = elim (Bool-cases (ltb n 10)) [
  | inl e ↦ rw (e, digits) refl
  | inr e ↦ rw (e, digits) (digits-IsFull fuel (n / 10) ((b'0' + n % 10) ∷ acc) refl)
]

decimal-IsFull : (n : ℕ) → IsFull (decimal n)
decimal-IsFull n = digits_step-IsFull n n []

pub decimal-AreDigits : (n : ℕ) → AreDigits (decimal n)
decimal-AreDigits n = digits-AreDigits (suc n) n [] tt

drop_plus-digits : (s : Text) → AreDigits s → drop_plus s ≡ s
drop_plus-digits [] h = refl
drop_plus-digits (b ∷ s) h = let e : (b == b'+') ≡ false = ground (arith, h.0) in rw e refl

-- A number that fits is read as it is written.
pub parse_uint-decimal : (bits n : ℕ) → n < 2 ^ bits → parse_uint bits (decimal n) ≡ some n
unfolding parse_uint
parse_uint-decimal bits n h =
    let e : digits_from 0 (decimal n) ≡ some n = digits_from-digits (suc n) n [] (ground arith) in
    let fits : ltb n (2 ^ bits) ≡ true = ground arith in
    rw (drop_plus-digits (decimal n) (decimal-AreDigits n), decimal-IsFull n, e, fits) refl

different : (sep b : ℕ) → is_digit sep ≡ false → is_digit b ≡ true → (b == sep) ≡ false
different sep b h d = ground arith

-- The digits of a number lack every byte that is no digit.
pub decimal-Free : (sep n : ℕ) → is_digit sep ≡ false → Free sep (decimal n)
decimal-Free sep n h =
    All-mono (λ b. is_digit b ≡ true) (λ b. (b == sep) ≡ false) (decimal n)
      (λ b d. different sep b h d) (decimal-AreDigits n)
