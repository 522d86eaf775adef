-- ===== src/Tests/AssemblerWitnesses.antt =====
-- The theorems on the two passes of the assembler, applied.
use custom_isa_8bit_vm.Base.{length, Bytes, codes, equal, ◌≡◌, refl, [], ◌∷◌, arith}
use custom_isa_8bit_vm.Base.{pos}
use custom_isa_8bit_vm.Exception.{ok}
use custom_isa_8bit_vm.Isa.{register_map, find_register, instruction_table, find_opcode}
use custom_isa_8bit_vm.Vm.State.{byte_of_type}
use custom_isa_8bit_vm.Assembler.Text.{
  lines, lines_from, before, words, words_from, back, pop_back, contains, from_chars, stoi,
  prefix_number, take_digits, digits_value,
}
use custom_isa_8bit_vm.Assembler.Encode.{find_label, encode_args, instruction_to_opcode}
use custom_isa_8bit_vm.Assembler.Layout.{args_size}
use custom_isa_8bit_vm.Assembler.Emit.{asm_to_opcodes, commas_to_spaces, last_word}
use custom_isa_8bit_vm.Assembler.Passes.Source.{Line, instruction, named, small_number}
use custom_isa_8bit_vm.Assembler.Passes.Address.{Placed, asm_to_opcodes-Placed}
use custom_isa_8bit_vm.Assembler.Passes.Wide.{wide_number-longer}

abbrev jump_back : Bytes
jump_back = codes "MOV A, 7\nagain: ; here\nJMP again\n"

mov-Line : Line (codes "MOV A, 7")
unfolding words words_from commas_to_spaces back last_word equal pop_back contains from_chars
    prefix_number take_digits digits_value
mov-Line =
    instruction (codes "MOV") (codes "A," ∷ codes "7" ∷ []) refl refl refl refl refl refl
      (named refl refl, (small_number (pos 7) refl refl refl, tt))

asm_to_opcodes-Placed_example :
    Placed instruction_table register_map
      (codes "again")
      (codes "MOV A, 7" ∷ [])
      (codes "again: ; here" ∷ codes "JMP again" ∷ [])
      (0 ∷ 2 ∷ 0x12 ∷ 1 ∷ 1 ∷ 0 ∷ 7 ∷ 0x31 ∷ 2 ∷ 0 ∷ 7 ∷ [])
unfolding asm_to_opcodes lines lines_from register_map instruction_table words words_from before
    back pop_back equal find_register find_label find_opcode instruction_to_opcode from_chars
    contains stoi byte_of_type
asm_to_opcodes-Placed_example =
    asm_to_opcodes-Placed instruction_table register_map jump_back (codes "MOV A, 7" ∷ [])
      (codes "again: ; here") (codes "again") (codes "JMP again" ∷ [])
      {out = 0 ∷ 2 ∷ 0x12 ∷ 1 ∷ 1 ∷ 0 ∷ 7 ∷ 0x31 ∷ 2 ∷ 0 ∷ 7 ∷ []}
      (refl, (refl, (refl, (refl, tt)))) refl (mov-Line, tt) refl (refl, tt) refl

wide_number-longer_example :
    (args_size register_map [] (codes "300," ∷ []) ≡ ok 2)
    × (bytes : Bytes) × (encode_args register_map [] (codes "300" ∷ []) ≡ ok bytes)
    × (length bytes ≡ 3)
unfolding register_map back pop_back from_chars prefix_number take_digits digits_value
wide_number-longer_example =
    wide_number-longer register_map (refl, (refl, (refl, (refl, tt)))) [] [] tt (codes "300,") 300
      refl refl (omega arith)
