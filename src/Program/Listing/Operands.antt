-- ===== src/Program/Listing/Operands.antt =====
-- The operands of the lines for the tape in the first pass of src/Assembler.cpp.
use custom_isa_8bit_vm.Base.{
  Bytes, codes, equal, ℕ, suc, ◌+◌, ◌≡◌, refl, ap, ◌∙◌, [], ◌∷◌, pos, arith,
}
use custom_isa_8bit_vm.Exception.{ok}
use custom_isa_8bit_vm.Isa.{register_map, find_register}
use custom_isa_8bit_vm.Vm.State.{ArgType, number, register, indirect_reg}
use custom_isa_8bit_vm.Assembler.Text.{back, inside, pop_back}
use custom_isa_8bit_vm.Assembler.Encode.{Labels, bracket_type}
use custom_isa_8bit_vm.Assembler.Layout.{layout_type, drop_comma, arg_size, args_size}
use custom_isa_8bit_vm.Assembler.Passes.Source.{Named}
use custom_isa_8bit_vm.Assembler.Passes.Operand.{layout_type-no_name}
use custom_isa_8bit_vm.Assembler.Passes.Wide.{layout_type-digit}
use custom_isa_8bit_vm.Brainfvck.Format.{format_int, decimal}
use custom_isa_8bit_vm.Brainfvck.Format.Decimal.{decimal_from-front}
use custom_isa_8bit_vm.Program.TapeLines.{
  TapeLine, up, down, raise, lower, times_b, times_c, keep_b, clear, keep_c, add_b, sub_b, add_c,
}
use custom_isa_8bit_vm.Program.Listing.Word.{is_word-decimal, drop_comma-word}

-- The first operand with its comma, and the second one.
abbrev pub first_raw : TapeLine → Bytes
first_raw (up n) = codes "A,"
first_raw (down n) = codes "A,"
first_raw (times_b n) = codes "B,"
first_raw (times_c n) = codes "C,"
first_raw keep_b = codes "B,"
first_raw keep_c = codes "C,"
first_raw _ = codes "[A],"

abbrev pub second : TapeLine → Bytes
second (up n) = format_int (pos n)
second (down n) = format_int (pos n)
second (raise n) = format_int (pos n)
second (lower n) = format_int (pos n)
second (times_b n) = format_int (pos n)
second (times_c n) = format_int (pos n)
second keep_b = codes "[A]"
second clear = codes "0"
second keep_c = codes "B"
second add_b = codes "B"
second sub_b = codes "B"
second add_c = codes "C"

pub args_size-two :
    (labels : Labels) (x y : Bytes) (t u : ArgType)
    → layout_type register_map labels (drop_comma x) ≡ ok t
    → layout_type register_map labels (drop_comma y) ≡ ok u
    → args_size register_map labels (x ∷ y ∷ []) ≡ ok (arg_size t + (arg_size u + 0))
unfolding args_size
args_size-two labels x y t u e f = rw (e, f) refl

pub args_size-one :
    (labels : Labels) (x : Bytes) (t : ArgType)
    → layout_type register_map labels (drop_comma x) ≡ ok t
    → args_size register_map labels (x ∷ []) ≡ ok (arg_size t + 0)
unfolding args_size
args_size-one labels x t e = rw e refl

pub registers-Named : Named register_map
unfolding register_map
registers-Named = (refl, (refl, (refl, (refl, tt))))

module _ (labels : Labels) (h : Named labels) where
  pub pointed_type : layout_type register_map labels (codes "[A]") ≡ ok indirect_reg
  unfolding register_map find_register equal back inside pop_back bracket_type
  pointed_type =
      layout_type-no_name register_map labels registers-Named h b'[' (codes "A]") refl ∙ refl

  pub decimal_type : (n : ℕ) → layout_type register_map labels (drop_comma (decimal n)) ≡ ok number
  unfolding decimal register_map
  decimal_type n =
      ap (layout_type register_map labels) (drop_comma-word (decimal n) (is_word-decimal n))
      ∙ layout_type-digit register_map registers-Named labels labels h (decimal n)
          (decimal_from-front (suc n) n [] (omega arith))

  -- The two operands of every line have four bytes.
  pub args_size-second :
      (l : TapeLine) → args_size register_map labels (first_raw l ∷ second l ∷ []) ≡ ok 4
  unfolding format_int layout_type register_map find_register equal back pop_back
  args_size-second (up n) = args_size-two labels _ _ register number refl (decimal_type n)
  args_size-second (down n) = args_size-two labels _ _ register number refl (decimal_type n)
  args_size-second (raise n) =
      args_size-two labels _ _ indirect_reg number pointed_type (decimal_type n)
  args_size-second (lower n) =
      args_size-two labels _ _ indirect_reg number pointed_type (decimal_type n)
  args_size-second (times_b n) = args_size-two labels _ _ register number refl (decimal_type n)
  args_size-second (times_c n) = args_size-two labels _ _ register number refl (decimal_type n)
  args_size-second keep_b = args_size-two labels _ _ register indirect_reg refl pointed_type
  args_size-second clear =
      args_size-two labels _ _ indirect_reg number pointed_type (decimal_type 0)
  args_size-second keep_c = args_size-two labels _ _ register register refl refl
  args_size-second add_b = args_size-two labels _ _ indirect_reg register pointed_type refl
  args_size-second sub_b = args_size-two labels _ _ indirect_reg register pointed_type refl
  args_size-second add_c = args_size-two labels _ _ indirect_reg register pointed_type refl
