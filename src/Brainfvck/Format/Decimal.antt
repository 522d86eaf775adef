-- ===== src/Brainfvck/Format/Decimal.antt =====
-- `std::to_string` and `std::format` of a number, as src/Brainfvck.cpp writes it, against
-- `std::from_chars`.
use custom_isa_8bit_vm.Base.{
  ltb, ◌==◌, lt→ltb, le→leb, Bool-cases, Bytes, ℕ, zero, suc, ◌+◌, ◌-◌, ◌*◌, ◌/◌, ◌%◌, ◌^◌, ◌≤◌,
  ◌<◌, ◌≡◌, refl, ap, ◌∙◌, inl, inr, true, false, some, [], ◌∷◌, arith,
}
use custom_isa_8bit_vm.Base.{ℤ, pos, negsuc}
use custom_isa_8bit_vm.Assembler.Text.{
  is_digit, front, take_digits, digits_value, prefix_number, from_chars, negative,
}
use custom_isa_8bit_vm.Brainfvck.Format.{decimal, decimal_from, format_int}

decimal_from-value :
    (fuel n : ℕ) (acc : Bytes)
    → n < fuel
    → digits_value 0 (decimal_from fuel n acc) ≡ digits_value n acc
unfolding decimal_from digits_value
decimal_from-value zero n acc h = ground arith
decimal_from-value (suc fuel) n acc h = elim (Bool-cases (ltb n 10)) [
  | inl e ↦
      let one : 0 * 10 + (b'0' + n - b'0') ≡ n = omega arith in
      rw e (ap (λ k. digits_value k acc) one)
  | inr e ↦
      let big : 10 ≤ n = ground arith in
      let back : n / 10 * 10 + (b'0' + n % 10 - b'0') ≡ n = omega arith in
      rw e (
        decimal_from-value fuel (n / 10) ((b'0' + n % 10) ∷ acc) (omega arith)
        ∙ ap (λ k. digits_value k acc) back)
]

decimal_from-take_digits :
    (fuel n : ℕ) (acc : Bytes)
    → take_digits acc ≡ acc
    → take_digits (decimal_from fuel n acc) ≡ decimal_from fuel n acc
unfolding decimal_from take_digits
decimal_from-take_digits zero n acc h = h
decimal_from-take_digits (suc fuel) n acc h = elim (Bool-cases (ltb n 10)) [
  | inl e ↦ let digit : is_digit (b'0' + n) ≡ true = ground arith in rw (e, digit, h) refl
  | inr e ↦
      let digit : is_digit (b'0' + n % 10) ≡ true = ground arith in
      rw e (decimal_from-take_digits fuel (n / 10) ((b'0' + n % 10) ∷ acc) (rw (digit, h) refl))
]

pub decimal_from-front :
    (fuel n : ℕ) (acc : Bytes) → n < fuel → is_digit (front (decimal_from fuel n acc)) ≡ true
unfolding decimal_from
decimal_from-front zero n acc h = ground arith
decimal_from-front (suc fuel) n acc h = elim (Bool-cases (ltb n 10)) [
  | inl e ↦ let digit : is_digit (b'0' + n) ≡ true = ground arith in rw e digit
  | inr e ↦
      let big : 10 ≤ n = ground arith in
      rw e (decimal_from-front fuel (n / 10) ((b'0' + n % 10) ∷ acc) (omega arith))
]

prefix_number-take_digits :
    (s : Bytes)
    → take_digits s ≡ s
    → is_digit (front s) ≡ true
    → prefix_number s ≡ some (digits_value 0 s)
unfolding prefix_number
prefix_number-take_digits [] e d = ground arith
prefix_number-take_digits (c ∷ s) e d = rw (e, prefix_number) refl

pub prefix_number-decimal : (n : ℕ) → prefix_number (decimal n) ≡ some n
unfolding decimal digits_value take_digits
prefix_number-decimal n =
    prefix_number-take_digits (decimal n) (decimal_from-take_digits (suc n) n [] refl)
      (decimal_from-front (suc n) n [] (omega arith))
    ∙ ap some (decimal_from-value (suc n) n [] (omega arith))

-- What an `int` of 32 bits holds.
abbrev pub IsInt : ℤ → Type 0
IsInt (pos n) = n < 2 ^ 31
IsInt (negsuc n) = n < 2 ^ 31

digit_no_minus : (c : ℕ) → is_digit c ≡ true → (c == b'-') ≡ false
digit_no_minus c d = ground arith

negative-suc : (n : ℕ) → negative (suc n) ≡ negsuc n
negative-suc n = ground arith

-- A formatted `int` of 32 bits reads back as the same number.
pub from_chars-format_int : (z : ℤ) → IsInt z → from_chars (format_int z) ≡ some z
unfolding from_chars format_int decimal
from_chars-format_int (pos n) h =
    let no_minus =
      digit_no_minus (front (decimal n)) (decimal_from-front (suc n) n [] (omega arith)) in
    rw (no_minus, prefix_number-decimal n, lt→ltb n (2 ^ 31) h) refl
from_chars-format_int (negsuc n) h =
    rw (prefix_number-decimal (suc n), le→leb (suc n) (2 ^ 31) (omega arith))
      (ap some (negative-suc n))
