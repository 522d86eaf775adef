-- ===== src/Vm/Exec/Decode.antt =====
-- A byte that is no label of the switch of `exec` in src/VM.cpp.
use custom_isa_8bit_vm.Base.{ℕ, ◌+◌, ◌<◌, ◌≡◌, refl, ◌∙◌, ◌≢◌, none, List, [], ◌∷◌, arith}
use custom_isa_8bit_vm.Vm.State.{Machine, thrown}
use custom_isa_8bit_vm.Process.{to_addr}
use custom_isa_8bit_vm.Exception.{invalid_opcode}
use custom_isa_8bit_vm.Config.{ram_size}
use custom_isa_8bit_vm.Vm.Effects.{read_then}
use custom_isa_8bit_vm.Vm.Host.{Host}
use custom_isa_8bit_vm.Vm.Exec.{Instruction, opcodes, find_instruction, decode, dispatch, step}

-- No label of the switch.
abbrev pub NoOpcode : List (ℕ × Instruction) → ℕ → Type 0
NoOpcode [] opcode = Unit
NoOpcode ((code, i) ∷ rest) opcode = (code ≢ opcode) × NoOpcode rest opcode

find_instruction-none :
    (table : List (ℕ × Instruction)) (opcode : ℕ)
    → NoOpcode table opcode
    → find_instruction table opcode ≡ none
unfolding find_instruction
find_instruction-none [] opcode h = refl
find_instruction-none ((code, i) ∷ rest) opcode h =
    ground (arith, find_instruction-none rest opcode h.1)

-- A round at a byte of the RAM that is no opcode throws with the row and the byte, the program
-- counter behind it and the rest as it was.
pub step-invalid_opcode :
    (host : Host) (row : ℕ) (m : Machine)
    → m.process.pc < ram_size
    → NoOpcode opcodes (m.ram m.process.pc)
    → step host row m
      ≡ thrown
          (invalid_opcode row (m.ram m.process.pc))
          (record m { process = record m.process { pc = m.process.pc + 1 } })
unfolding step decode dispatch
step-invalid_opcode host row m l h =
    let pc : to_addr (m.process.pc + 1) ≡ m.process.pc + 1 = omega arith in
    read_then m.process.pc _ m l ∙ rw (find_instruction-none opcodes (m.ram m.process.pc) h, pc)
