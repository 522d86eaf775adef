-- ===== src/Program.antt =====
-- custom-isa-8bit-vm/src/main.cpp: compile, load, run, and print the registers.
pub mod Cells
pub mod Registers
pub mod TapeLines
pub mod Encoded
pub mod Tape
pub mod Ready
pub mod Block
pub mod Tree
pub mod Listing
pub mod Syntax
pub mod Whole
use custom_isa_8bit_vm.Base.{Bool, false, Bytes, ℕ, ℤ, List}
use custom_isa_8bit_vm.Exception.{Result, ok}
use custom_isa_8bit_vm.Exception
use custom_isa_8bit_vm.Isa.{RegisterMap, instruction_table, register_map}
use custom_isa_8bit_vm.Vm.State.{M, ◌>>=◌, ◌>>◌, Outcome, returned}
use custom_isa_8bit_vm.Vm.Host.{Host}
use custom_isa_8bit_vm.Vm.Exec.{register_snapshot}
use custom_isa_8bit_vm.Loader.{new_machine, run_program}
use custom_isa_8bit_vm.Brainfvck.Compile.{compile}

-- The virtual machine on the binary, without a window: what `main` prints at the end. `elements` are
-- those of the register map in the order of a walk over it, which `unordered_map` leaves open.
unfoldable pub run_binary : Host → RegisterMap → ℕ → Bytes → M (List (Bytes × ℕ))
unfolding run_program register_snapshot
run_binary host elements fuel bytecode = do
  run_program host false fuel bytecode
  λ m. returned (register_snapshot elements m) m

-- `main`, with what it finds outside: the host, the order of the map's elements, whether the binary
-- can be written, the text of the program and the numbers on the standard input. The binary is read back as it was written.
unfoldable pub main :
    Host → RegisterMap → ℕ → Bool → Bytes → List ℤ → Result (Outcome (List (Bytes × ℕ)))
unfolding compile run_binary new_machine
main host elements fuel opens source input =
    Exception.◌>>=◌ (compile instruction_table register_map opens source)
      (λ bytecode. ok (run_binary host elements fuel bytecode (new_machine input)))
