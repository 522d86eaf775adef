-- ===== src/Assembler/Passes/Wide.antt =====
-- A number above 255 in the two passes of src/Assembler.cpp.
use custom_isa_8bit_vm.Base.{
  ltb, ◌==◌, if◌then◌else◌, lt→ltb, length, Bytes, ℕ, ◌^◌, ◌<◌, ◌≡◌, refl, ◌∙◌, Bool, true, false,
  Option, none, some, [], ◌∷◌, arith,
}
use custom_isa_8bit_vm.Exception.{ok, err}
use custom_isa_8bit_vm.Isa.{RegisterMap}
use custom_isa_8bit_vm.Exception.{out_of_range}
use custom_isa_8bit_vm.Vm.State.{number, number_16, byte_of_type}
use custom_isa_8bit_vm.Assembler.Text.{is_digit, front, from_chars}
use custom_isa_8bit_vm.Assembler.Encode.{
  Labels, type_of_arg, value_bytes, encode_args, shift_right_8,
}
use custom_isa_8bit_vm.Assembler.Layout.{layout_type, drop_comma, args_size}
use custom_isa_8bit_vm.Assembler.Passes.Source.{is_letter, Named}
use custom_isa_8bit_vm.Assembler.Passes.Operand.{type_of_arg-some}
use custom_isa_8bit_vm.Base.{pos, to_byte}
use custom_isa_8bit_vm.Assembler.Text.{stoi, prefix_number, unsigned}
use custom_isa_8bit_vm.Assembler.Passes.Operand.{layout_type-no_name}

in_range :
    (k n : ℕ) (b : Bool)
    → (if b then some (pos k) else none) ≡ some (pos n)
    → (if b then ok (pos k) else err out_of_range) ≡ ok (pos n)
in_range k n true e = cc
in_range k n false e = cc

letter_free : (c : ℕ) → is_digit c ≡ true → ((c == b'-') ≡ false) × ((c == b'+') ≡ false)
letter_free c d = (ground arith, ground arith)

pub from_chars-stoi :
    (s : Bytes) (n : ℕ)
    → is_digit (front s) ≡ true
    → from_chars s ≡ some (pos n)
    → stoi s ≡ ok (pos n)
unfolding from_chars stoi
from_chars-stoi s n d e = by_prefix (prefix_number s) refl
  where
    no_minus : (front s == b'-') ≡ false
    no_minus = (letter_free (front s) d).0

    whole : unsigned s ≡ s
    whole = rw ((letter_free (front s) d).0, (letter_free (front s) d).1) refl

    by_prefix : (found : Option ℕ) → prefix_number s ≡ found → stoi s ≡ ok (pos n)
    by_prefix none f = let e' = rw (no_minus, f, from_chars) at e in cc
    by_prefix (some k) f =
        let e' = rw (no_minus, f, from_chars) at e in
        rw (whole, f, no_minus, stoi) (in_range k n (ltb k (2 ^ 31)) e')

module _ (rs : RegisterMap) (named_registers : Named rs) (labels known : Labels)
    (named_labels : Named known) where
  pub layout_type-digit :
      (s : Bytes) → is_digit (front s) ≡ true → layout_type rs known s ≡ ok number
  layout_type-digit [] d = ground arith
  layout_type-digit (c ∷ s) d =
      let no_letter : is_letter c ≡ false = ground arith in
      let no_bracket : (c == b'[') ≡ false = ground arith in
      layout_type-no_name rs known named_registers named_labels c s no_letter ∙ rw no_bracket refl

  -- For an operand that is a number above 255, where the registers and the labels that the first pass
  -- knows have names that begin with a letter or an underscore: the first pass counts two bytes, and
  -- the second pass writes three, whatever labels it knows.
  pub wide_number-longer :
      (arg : Bytes) (n : ℕ)
      → is_digit (front (drop_comma arg)) ≡ true
      → from_chars (drop_comma arg) ≡ some (pos n)
      → 255 < n
      → (args_size rs known (arg ∷ []) ≡ ok 2)
        × (bytes : Bytes) × (encode_args rs labels (drop_comma arg ∷ []) ≡ ok bytes)
        × (length bytes ≡ 3)
  unfolding args_size encode_args value_bytes
  wide_number-longer arg n d e h =
      let s = drop_comma arg in
      let wide : type_of_arg rs s ≡ number_16 =
        type_of_arg-some rs s (pos n) e ∙ rw (lt→ltb 255 n h) refl in
      (
        rw (layout_type-digit s d) refl,
        byte_of_type number_16 ∷ to_byte (shift_right_8 (pos n)) ∷ to_byte (pos n) ∷ [],
        rw (wide, from_chars-stoi s n d e, value_bytes) refl,
        refl,
      )
