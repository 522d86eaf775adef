-- ===== src/Assembler/Passes/Operand.antt =====
-- The type and the size of an operand in the two passes of src/Assembler.cpp.
use custom_isa_8bit_vm.Base.{
  ◌==◌, if◌then◌else◌, Bool-cases, Bytes, equal_iff, equal, ℕ, ◌≡◌, refl, ◌∙◌, inl, inr, true,
  false, ◌&&◌, ◌||◌, none, some, [], ◌∷◌, arith,
}
use custom_isa_8bit_vm.Base.{ℤ}
use custom_isa_8bit_vm.Exception.{ok}
use custom_isa_8bit_vm.Isa.{RegisterMap, find_register}
use custom_isa_8bit_vm.Vm.State.{number}
use custom_isa_8bit_vm.Assembler.Text.{
  is_digit, is_alpha, front, back, contains, inside, from_chars, prefix_number, take_digits,
}
use custom_isa_8bit_vm.Assembler.Encode.{
  Labels, find_label, number_type, bracket_type, text_type, type_of_arg,
}
use custom_isa_8bit_vm.Assembler.Layout.{layout_type}
use custom_isa_8bit_vm.Assembler.Passes.Source.{
  is_letter, Named, Operand, small_number, bracketed, named,
}

not_key :
    (name s : Bytes)
    → is_letter (front name) ≡ true
    → is_letter (front s) ≡ false
    → equal name s ≡ false
not_key name s h e = elim (Bool-cases (equal name s)) [
  | inl same ↦ cc ((equal_iff name s).0 same)
  | inr differs ↦ differs
]

-- A text that does not begin with a letter is no key.
find_label-Named :
    (labels : Labels) (s : Bytes)
    → Named labels
    → is_letter (front s) ≡ false
    → find_label labels s ≡ none
unfolding find_label
find_label-Named [] s h e = refl
find_label-Named ((name, a) ∷ rest) s h e =
    rw (not_key name s h.0 e) (find_label-Named rest s h.1 e)

find_register-Named :
    (registers : RegisterMap) (s : Bytes)
    → Named registers
    → is_letter (front s) ≡ false
    → find_register registers s ≡ none
unfolding find_register
find_register-Named [] s h e = refl
find_register-Named ((name, a) ∷ rest) s h e =
    rw (not_key name s h.0 e) (find_register-Named rest s h.1 e)

prefix_number-none : (s : Bytes) → is_digit (front s) ≡ false → prefix_number s ≡ none
unfolding prefix_number take_digits
prefix_number-none [] e = refl
prefix_number-none (c ∷ s) e = ground arith

from_chars-none :
    (s : Bytes) → is_digit (front s) ≡ false → (front s == b'-') ≡ false → from_chars s ≡ none
unfolding from_chars
from_chars-none s e f = rw (f, prefix_number-none s e)

contains-back : (c d : ℕ) (s : Bytes) → back (d ∷ s) ≡ c → contains c (d ∷ s) ≡ true
unfolding back contains
contains-back c d [] e = ground arith
contains-back c d (x ∷ s) e = ground (arith, contains-back c x s e)

not_letter :
    (c : ℕ) → (is_digit c || c == b'-') ≡ true → (is_letter c ≡ false) × ((c == b'[') ≡ false)
not_letter c e = (ground arith, ground arith)

pub letter : (c : ℕ) → is_letter c ≡ true → (is_digit c ≡ false) × ((c == b'-') ≡ false)
letter c e = (ground arith, ground arith)

pub type_of_arg-none :
    (rs : RegisterMap) (s : Bytes)
    → is_digit (front s) ≡ false
    → (front s == b'-') ≡ false
    → type_of_arg rs s ≡ text_type rs s
unfolding type_of_arg
type_of_arg-none rs s d e = rw (from_chars-none s d e, type_of_arg) refl

pub type_of_arg-some :
    (rs : RegisterMap) (s : Bytes) (z : ℤ)
    → from_chars s ≡ some z
    → type_of_arg rs s ≡ number_type z
unfolding type_of_arg
type_of_arg-some rs s z e = rw (e, type_of_arg) refl

module _ (rs : RegisterMap) (labels : Labels) (named_registers : Named rs)
    (named_labels : Named labels) where
  pub layout_type-no_name :
      (c : ℕ) (s : Bytes)
      → is_letter c ≡ false
      → layout_type rs labels (c ∷ s) ≡ (
          if c == b'[' && back (c ∷ s) == b']'
          then ok (bracket_type rs (inside (c ∷ s)))
          else ok number)
  unfolding layout_type
  layout_type-no_name c s e =
      let not_alpha : is_alpha c ≡ false = ground arith in
      let not_under : (c == b'_') ≡ false = ground arith in
      rw
        (
          find_register-Named rs (c ∷ s) named_registers e,
          find_label-Named labels (c ∷ s) named_labels e,
          not_alpha,
          not_under,
        )
        refl

  layout_type-small_number :
      (s : Bytes) (z : ℤ)
      → (is_digit (front s) || front s == b'-') ≡ true
      → from_chars s ≡ some z
      → number_type z ≡ number
      → layout_type rs labels s ≡ ok (type_of_arg rs s)
  layout_type-small_number [] z d e f = ground arith
  layout_type-small_number (c ∷ s) z d e f =
      let (no_letter, no_bracket) = not_letter c d in
      layout_type-no_name c s no_letter ∙ rw (no_bracket, type_of_arg-some rs (c ∷ s) z e, f) refl

  layout_type-bracketed :
      (s : Bytes) → front s ≡ b'[' → back s ≡ b']' → layout_type rs labels s ≡ ok (type_of_arg rs s)
  unfolding text_type contains
  layout_type-bracketed [] d e = ground arith
  layout_type-bracketed (c ∷ s) d e =
      let no_letter : is_letter c ≡ false = rw d refl in
      layout_type-no_name c s no_letter
      ∙ rw (type_of_arg-none rs (c ∷ s) (rw d refl) (rw d refl), e, contains-back b']' c s e, d)
          refl

  layout_type-named :
      (s : Bytes)
      → is_letter (front s) ≡ true
      → contains b'[' s ≡ false
      → layout_type rs labels s ≡ ok (type_of_arg rs s)
  unfolding layout_type text_type
  layout_type-named s d e =
      let (no_digit, no_minus) = letter (front s) d in
      let by_name : (is_alpha (front s) || front s == b'_') ≡ true = d in
      rw (type_of_arg-none rs s no_digit no_minus, e, no_digit, no_minus) (ground arith)

  pub layout_type-Operand :
      (s : Bytes) → Operand s → layout_type rs labels s ≡ ok (type_of_arg rs s)
  layout_type-Operand s (small_number z d e f) = layout_type-small_number s z d e f
  layout_type-Operand s (bracketed d e) = layout_type-bracketed s d e
  layout_type-Operand s (named d e) = layout_type-named s d e
