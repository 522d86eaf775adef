-- ===== src/Program/Listing/LoopLines.antt =====
-- The lines around a loop, PRINT and INPUT as wholes in the two passes of src/Assembler.cpp.
use custom_isa_8bit_vm.Base.{
  Bytes, codes, equal, ℕ, ◌^◌, ◌<◌, ◌≡◌, refl, true, some, List, [], ◌∷◌, ◌++◌, arith,
}
use custom_isa_8bit_vm.Exception.{ok}
use custom_isa_8bit_vm.Isa.{instruction_table, register_map, find_opcode, find_register}
use custom_isa_8bit_vm.Vm.State.{number, indirect_reg, byte_of_type}
use custom_isa_8bit_vm.Assembler.Text.{
  before, words, words_from, back, pop_back, contains, from_chars, inside, stoi,
}
use custom_isa_8bit_vm.Assembler.Encode.{
  Labels, find_label, text_type, value_bytes, encode_args, instruction_to_opcode,
}
use custom_isa_8bit_vm.Assembler.Layout.{Layout, layout_words}
use custom_isa_8bit_vm.Assembler.Emit.{commas_to_spaces, emit_line}
use custom_isa_8bit_vm.Assembler.Passes.Source.{Named}
use custom_isa_8bit_vm.Brainfvck.Format.{decimal}
use custom_isa_8bit_vm.Program.Tree.{compare_code, jump_code}
use custom_isa_8bit_vm.Program.Listing.Instruction.{Instruction, grown}
use custom_isa_8bit_vm.Program.Listing.Operands.{
  args_size-two, args_size-one, pointed_type, decimal_type,
}
use custom_isa_8bit_vm.Program.Listing.TapeText.{counted_line, written_line}
use custom_isa_8bit_vm.Program.Listing.LoopText.{
  LoopLabel, label_word, label_some, args_size-label, encode_args-label,
}

data Command : Type 0 where
  jump jump_back compare show enter : Command

-- What stands in front of the last operand.
abbrev front : Command → Bytes
front jump = codes "JE "
front jump_back = codes "JNE "
front compare = codes "CMP [A], "
front show = codes "PRINT "
front enter = codes "INPUT "

abbrev mnemonic : Command → Bytes
mnemonic jump = codes "JE"
mnemonic jump_back = codes "JNE"
mnemonic compare = codes "CMP"
mnemonic show = codes "PRINT"
mnemonic enter = codes "INPUT"

abbrev operand_in_front : Command → List Bytes
operand_in_front compare = codes "[A]" ∷ []
operand_in_front _ = []

abbrev raw_in_front : Command → List Bytes
raw_in_front compare = codes "[A]," ∷ []
raw_in_front _ = []

command_line :
    (c : Command) → Instruction (front c) (mnemonic c) (raw_in_front c) (operand_in_front c)
unfolding words words_from back equal contains commas_to_spaces
command_line jump = record {
  no_comment = refl;
  raw_words = λ v. refl;
  split_words = λ v. refl;
  no_colon = refl;
  no_skip = refl;
}
command_line _ = record {
  no_comment = refl;
  raw_words = λ v. refl;
  split_words = λ v. refl;
  no_colon = refl;
  no_skip = refl;
}

-- What the first pass makes of the commands.
abbrev Counts : Bytes → ℕ → Layout → Type 0
Counts s n k =
    layout_words instruction_table register_map (words (before b';' s)) k ≡ ok (grown n k)

pub jump-Counts : (s : Bytes) (k : Layout) → LoopLabel s → Counts (codes "JE " ++ s) 4 k
unfolding find_opcode instruction_table equal
jump-Counts s k l =
    counted_line (codes "JE ") s (codes "JE") [] [] (command_line jump) (label_word s l)
      (label_some s l) k 3 0x41 (args_size-label s k.labels l) refl

pub jump_back-Counts : (s : Bytes) (k : Layout) → LoopLabel s → Counts (codes "JNE " ++ s) 4 k
unfolding find_opcode instruction_table equal
jump_back-Counts s k l =
    counted_line (codes "JNE ") s (codes "JNE") [] [] (command_line jump_back) (label_word s l)
      (label_some s l) k 3 0x51 (args_size-label s k.labels l) refl

module _ (k : Layout) (n : Named k.labels) where
  pub compare-Counts : Counts (codes "CMP [A], 0") 5 k
  unfolding find_opcode instruction_table equal back pop_back decimal
  compare-Counts =
      counted_line (codes "CMP [A], ") (codes "0") (codes "CMP") (codes "[A]," ∷ [])
        (codes "[A]" ∷ []) (command_line compare) refl (omega arith) k 4 0xB2
        (args_size-two k.labels (codes "[A],") (codes "0") indirect_reg number
          (pointed_type k.labels n) (decimal_type k.labels n 0))
        refl

  pub show-Counts : Counts (codes "PRINT [A]") 3 k
  unfolding find_opcode instruction_table equal back
  show-Counts =
      counted_line (codes "PRINT ") (codes "[A]") (codes "PRINT") [] [] (command_line show) refl
        (omega arith) k 2 0x01
        (args_size-one k.labels (codes "[A]") indirect_reg (pointed_type k.labels n)) refl

  pub enter-Counts : Counts (codes "INPUT [A]") 3 k
  unfolding find_opcode instruction_table equal back
  enter-Counts =
      counted_line (codes "INPUT ") (codes "[A]") (codes "INPUT") [] [] (command_line enter) refl
        (omega arith) k 2 0x21
        (args_size-one k.labels (codes "[A]") indirect_reg (pointed_type k.labels n)) refl

-- What the second pass writes for them.
abbrev Writes : Labels → ℕ → Bytes → Bytes → Type 0
Writes labels row s code =
    emit_line instruction_table register_map labels row (before b';' s) ≡ ok (code, true)

module _ (labels : Labels) (row : ℕ) where
  module _ (s : Bytes) (a : ℕ) (l : LoopLabel s) (e : find_label labels s ≡ some a)
      (h : a < 2 ^ 16) where
    pub jump-Writes : Writes labels row (codes "JE " ++ s) (jump_code 0x41 a)
    unfolding find_opcode instruction_table equal instruction_to_opcode
    jump-Writes =
        written_line (codes "JE ") s (codes "JE") [] [] (command_line jump) (label_word s l)
          (label_some s l) labels row (jump_code 0x41 a)
          (rw (encode_args-label s labels a l e h) refl)

    pub jump_back-Writes : Writes labels row (codes "JNE " ++ s) (jump_code 0x51 a)
    unfolding find_opcode instruction_table equal instruction_to_opcode
    jump_back-Writes =
        written_line (codes "JNE ") s (codes "JNE") [] [] (command_line jump_back) (label_word s l)
          (label_some s l) labels row (jump_code 0x51 a)
          (rw (encode_args-label s labels a l e h) refl)

  pub compare-Writes : Writes labels row (codes "CMP [A], 0") compare_code
  unfolding find_opcode instruction_table equal instruction_to_opcode encode_args register_map
      value_bytes find_register from_chars contains text_type byte_of_type inside stoi
  compare-Writes =
      written_line (codes "CMP [A], ") (codes "0") (codes "CMP") (codes "[A]," ∷ [])
        (codes "[A]" ∷ []) (command_line compare) refl (omega arith) labels row compare_code refl

  pub show-Writes : Writes labels row (codes "PRINT [A]") (0x01 ∷ 3 ∷ 1 ∷ [])
  unfolding find_opcode instruction_table equal instruction_to_opcode encode_args register_map
      value_bytes find_register from_chars contains text_type byte_of_type inside
  show-Writes =
      written_line (codes "PRINT ") (codes "[A]") (codes "PRINT") [] [] (command_line show) refl
        (omega arith) labels row (0x01 ∷ 3 ∷ 1 ∷ []) refl

  pub enter-Writes : Writes labels row (codes "INPUT [A]") (0x21 ∷ 3 ∷ 1 ∷ [])
  unfolding find_opcode instruction_table equal instruction_to_opcode encode_args register_map
      value_bytes find_register from_chars contains text_type byte_of_type inside
  enter-Writes =
      written_line (codes "INPUT ") (codes "[A]") (codes "INPUT") [] [] (command_line enter) refl
        (omega arith) labels row (0x21 ∷ 3 ∷ 1 ∷ []) refl
