-- ===== src/Isa.antt =====
-- The instruction table of custom-isa-8bit-vm/src/main.cpp, with include/InstructionSignature.hpp,
-- and the register map.
use custom_isa_8bit_vm.Base.{
  ℕ, ◌&&◌, List, [], ◌∷◌, Option, none, some, ◌==◌, if◌then◌else◌, Bytes, codes, equal,
}

pub record InstructionSignature : Type 0 where
  pub name : Bytes
  pub n_args : ℕ

abbrev signature : Bytes → ℕ → InstructionSignature
signature name n_args = record { name = name; n_args = n_args }

-- A `std::map` to opcodes; the keys of `main` are distinct.
abbrev pub InstructionTable : Type 0
InstructionTable = List (InstructionSignature × ℕ)

unfoldable pub instruction_table : InstructionTable
instruction_table =
    (signature (codes "NOP") 0, 0x00)
    ∷ (signature (codes "MOV") 2, 0x12)
    ∷ (signature (codes "PRINT") 1, 0x01)
    ∷ (signature (codes "PRINTFLUSH") 0, 0x10)
    ∷ (signature (codes "ADD") 2, 0x32)
    ∷ (signature (codes "SUB") 2, 0x52)
    ∷ (signature (codes "MUL") 2, 0x72)
    ∷ (signature (codes "DIV") 2, 0x92)
    ∷ (signature (codes "INPUT") 1, 0x21)
    ∷ (signature (codes "JMP") 1, 0x31)
    ∷ (signature (codes "CMP") 2, 0xB2)
    ∷ (signature (codes "JE") 1, 0x41)
    ∷ (signature (codes "JNE") 1, 0x51)
    ∷ (signature (codes "JG") 1, 0x61)
    ∷ (signature (codes "JNG") 1, 0x71)
    ∷ (signature (codes "SPUSH") 1, 0x81)
    ∷ (signature (codes "SPOP") 1, 0x91)
    ∷ (signature (codes "HALLOC") 2, 0xC2)
    ∷ (signature (codes "HFREE") 1, 0xA1)
    ∷ (signature (codes "CALL") 1, 0xB1)
    ∷ (signature (codes "RET") 0, 0x20)
    ∷ (signature (codes "FBSET") 2, 0xD2)
    ∷ (signature (codes "FBSYNC") 0, 0x30)
    ∷ (signature (codes "HALT") 0, 0xFF)
    ∷ []

-- `find` by name and number of arguments.
unfoldable pub find_opcode : InstructionTable → Bytes → ℕ → Option ℕ
unfolding equal
find_opcode [] name n_args = none
find_opcode ((sig, opcode) ∷ rest) name n_args =
    if equal sig.name name && sig.n_args == n_args
    then some opcode
    else find_opcode rest name n_args

abbrev pub RegisterMap : Type 0
RegisterMap = List (Bytes × ℕ)

unfoldable pub register_map : RegisterMap
register_map = (codes "A", 1) ∷ (codes "B", 2) ∷ (codes "C", 3) ∷ (codes "D", 4) ∷ []

unfoldable pub find_register : RegisterMap → Bytes → Option ℕ
unfolding equal
find_register [] name = none
find_register ((reg, code) ∷ rest) name =
    if equal reg name then some code else find_register rest name
