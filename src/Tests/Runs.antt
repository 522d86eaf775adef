-- ===== src/Tests/Runs.antt =====
-- A concrete run of the assembler.
use custom_isa_8bit_vm.Vm.State.{byte_of_type}
use custom_isa_8bit_vm.Base.{Bytes, codes, ◌≡◌, refl, [], ◌∷◌}
use custom_isa_8bit_vm.Exception.{Result, ok}
use custom_isa_8bit_vm.Isa.{instruction_table, register_map, find_opcode, find_register}
use custom_isa_8bit_vm.Assembler.Text.{
  before, words, back, pop_back, contains, inside, from_chars, stoi, stoull,
}
use custom_isa_8bit_vm.Assembler.Encode.{find_label, instruction_to_opcode}
use custom_isa_8bit_vm.Assembler.Emit.{asm_to_opcodes}

unfoldable assemble : Bytes → Result Bytes
unfolding asm_to_opcodes instruction_to_opcode words before back pop_back contains inside from_chars
    stoi stoull find_label find_opcode find_register
assemble = asm_to_opcodes instruction_table register_map

abbrev count_down : Bytes
count_down =
    codes "start:\n MOV A, 3 ; three\nloop:\n ADD B, 2\n SUB A, 1\n CMP A, 0\n JNE loop\n HALT\n"

-- The image of the program: entry address, then the code.
assemble-count_down :
    assemble count_down
    ≡ ok (
        0 ∷ 2 ∷ 18 ∷ 1 ∷ 1 ∷ 0 ∷ 3 ∷ 50 ∷ 1 ∷ 2 ∷ 0 ∷ 2 ∷ 82 ∷ 1 ∷ 1 ∷ 0 ∷ 1 ∷ 178 ∷ 1 ∷ 1 ∷ 0 ∷ 0
        ∷ 81 ∷ 2 ∷ 0 ∷ 7 ∷ 255 ∷ [])
unfolding assemble register_map instruction_table byte_of_type
assemble-count_down = refl
