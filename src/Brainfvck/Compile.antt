-- ===== src/Brainfvck/Compile.antt =====
-- `Brainfvck::compile` as a whole, on the bytes of its input file.
use custom_isa_8bit_vm.Base.{Bytes, Bool}
use custom_isa_8bit_vm.Exception.{Result, ◌>>=◌}
use custom_isa_8bit_vm.Brainfvck.Translate.{translate}
use custom_isa_8bit_vm.Brainfvck.RunLength.{apply_optimizations}
use custom_isa_8bit_vm.Brainfvck.LoopReplace.{apply_loop_optimizations}
use custom_isa_8bit_vm.Assembler.Emit.{asm_to_bin, end_lines}
use custom_isa_8bit_vm.Isa.{InstructionTable, RegisterMap}

-- With the assembler's tables, and whether the output file opens; the bytes of that file.
unfoldable pub compile : InstructionTable → RegisterMap → Bool → Bytes → Result Bytes
unfolding translate apply_optimizations apply_loop_optimizations end_lines asm_to_bin
compile table registers opens source = do
  code ← translate source
  asm_to_bin table registers opens (end_lines (apply_loop_optimizations (apply_optimizations code)))
