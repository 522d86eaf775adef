-- ===== src/Program/Listing/LoopText.antt =====
-- The lines around a loop, PRINT and INPUT in the two passes of src/Assembler.cpp, from their text.
use custom_isa_8bit_vm.Base.{
  ◌==◌, ltb, Bool-cases, inl, inr, length, Bytes, equal, ℕ, zero, suc, ◌+◌, ◌/◌, ◌%◌, ◌^◌, ◌<◌, ◌≡◌,
  refl, Bool, true, false, ◌||◌, some, [], ◌∷◌, arith,
}
use custom_isa_8bit_vm.Exception.{ok}
use custom_isa_8bit_vm.Isa.{register_map, find_register}
use custom_isa_8bit_vm.Vm.State.{address, byte_of_type}
use custom_isa_8bit_vm.Assembler.Text.{contains, from_chars}
use custom_isa_8bit_vm.Assembler.Encode.{
  Labels, find_label, is_some, type_of_arg, text_type, value_bytes, encode_args,
}
use custom_isa_8bit_vm.Assembler.Layout.{layout_type, args_size}
use custom_isa_8bit_vm.Brainfvck.Format.{decimal, decimal_from}
use custom_isa_8bit_vm.Brainfvck.Translate.{start_label, close_label}
use custom_isa_8bit_vm.Program.Listing.Word.{
  is_word, is_word-start_label, is_word-close_label, drop_comma-word,
}

no_bracket :
    (fuel n : ℕ) (acc : Bytes)
    → contains b'[' acc ≡ false
    → contains b'[' (decimal_from fuel n acc) ≡ false
unfolding decimal_from contains
no_bracket zero n acc h = h
no_bracket (suc fuel) n acc h = elim (Bool-cases (ltb n 10)) [
  | inl e ↦ let digit : ((b'0' + n) == b'[') ≡ false = ground arith in rw (e, digit) h
  | inr e ↦
      let digit : ((b'0' + n % 10) == b'[') ≡ false = ground arith in
      rw e (no_bracket fuel (n / 10) ((b'0' + n % 10) ∷ acc) (rw digit h))
]

-- The two labels of a loop.
pub data LoopLabel : Bytes → Type 0 where
  opens : (id : ℕ) → LoopLabel (start_label id)
  closes : (id : ℕ) → LoopLabel (close_label id)

pub label_word : (s : Bytes) → LoopLabel s → is_word s ≡ true
label_word s (opens id) = is_word-start_label id
label_word s (closes id) = is_word-close_label id

pub label_some : (s : Bytes) → LoopLabel s → 0 < length s
unfolding start_label close_label
label_some s (opens id) = omega arith
label_some s (closes id) = omega arith

or_true : (b : Bool) → (b || true) ≡ true
or_true true = refl
or_true false = refl

label_layout_type :
    (s : Bytes) (labels : Labels) → LoopLabel s → layout_type register_map labels s ≡ ok address
unfolding layout_type start_label close_label find_register register_map equal
label_layout_type s labels (opens id) =
    rw (or_true (is_some (find_label labels (start_label id)))) refl
label_layout_type s labels (closes id) =
    rw (or_true (is_some (find_label labels (close_label id)))) refl

label_type : (s : Bytes) → LoopLabel s → type_of_arg register_map s ≡ address
unfolding type_of_arg text_type start_label close_label find_register register_map equal from_chars
    contains decimal
label_type s (opens id) = rw (no_bracket (suc id) id [] refl) refl
label_type s (closes id) = rw (no_bracket (suc id) id [] refl) refl

-- The operand of a jump.
pub args_size-label :
    (s : Bytes) (labels : Labels) → LoopLabel s → args_size register_map labels (s ∷ []) ≡ ok 3
unfolding args_size
args_size-label s labels l =
    rw (drop_comma-word s (label_word s l), label_layout_type s labels l) refl

pub encode_args-label :
    (s : Bytes) (labels : Labels) (a : ℕ)
    → LoopLabel s
    → find_label labels s ≡ some a
    → a < 2 ^ 16
    → encode_args register_map labels (s ∷ []) ≡ ok (2 ∷ (a / 256 % 256) ∷ (a % 256) ∷ [])
unfolding encode_args value_bytes byte_of_type
encode_args-label s labels a l e h =
    let small : a % 2 ^ 16 ≡ a = omega (arith, h) in rw (label_type s l, e, small) refl
