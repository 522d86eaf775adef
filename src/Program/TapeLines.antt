-- ===== src/Program/TapeLines.antt =====
-- The lines by which src/Brainfvck.cpp changes the tape, with their code.
use custom_isa_8bit_vm.Base.{take, Bytes, codes, ℕ, ◌<◌, List, [], ◌∷◌, ◌++◌}
use custom_isa_8bit_vm.Base.{pos}
use custom_isa_8bit_vm.Vm.Alu.{add_byte, sub_byte, mul_byte}
use custom_isa_8bit_vm.Vm.Exec.Compute.{operand_bytes, Computes, moves, adds, subtracts, multiplies}
use custom_isa_8bit_vm.Vm.Exec.Places.{Place, in_register, at_register, Source, from, literal}
use custom_isa_8bit_vm.Brainfvck.Format.{format_int}

-- The lines that change the tape or the registers B and C.
pub data TapeLine : Type 0 where
  up down raise lower times_b times_c : ℕ → TapeLine
  keep_b clear keep_c add_b sub_b add_c : TapeLine

abbrev pub text : TapeLine → Bytes
text (up n) = codes "ADD A, " ++ format_int (pos n)
text (down n) = codes "SUB A, " ++ format_int (pos n)
text (raise n) = codes "ADD [A], " ++ format_int (pos n)
text (lower n) = codes "SUB [A], " ++ format_int (pos n)
text (times_b n) = codes "MUL B, " ++ format_int (pos n)
text (times_c n) = codes "MUL C, " ++ format_int (pos n)
text keep_b = codes "MOV B, [A]"
text clear = codes "MOV [A], 0"
text keep_c = codes "MOV C, B"
text add_b = codes "ADD [A], B"
text sub_b = codes "SUB [A], B"
text add_c = codes "ADD [A], C"

abbrev pub place : TapeLine → Place
place (up n) = in_register 1
place (down n) = in_register 1
place (times_b n) = in_register 2
place (times_c n) = in_register 3
place keep_b = in_register 2
place keep_c = in_register 3
place _ = at_register 1

abbrev pub source : TapeLine → Source
source (up n) = literal n
source (down n) = literal n
source (raise n) = literal n
source (lower n) = literal n
source (times_b n) = literal n
source (times_c n) = literal n
source keep_b = from (at_register 1)
source clear = literal 0
source keep_c = from (in_register 2)
source add_b = from (in_register 2)
source sub_b = from (in_register 2)
source add_c = from (in_register 3)

abbrev pub opcode : TapeLine → ℕ
opcode (up n) = 0x32
opcode (down n) = 0x52
opcode (raise n) = 0x32
opcode (lower n) = 0x52
opcode (times_b n) = 0x72
opcode (times_c n) = 0x72
opcode keep_b = 0x12
opcode clear = 0x12
opcode keep_c = 0x12
opcode add_b = 0x32
opcode sub_b = 0x52
opcode add_c = 0x32

abbrev pub operation : TapeLine → ℕ → ℕ → ℕ
operation (up n) = add_byte
operation (down n) = sub_byte
operation (raise n) = add_byte
operation (lower n) = sub_byte
operation (times_b n) = mul_byte
operation (times_c n) = mul_byte
operation keep_b = λ a b. b
operation clear = λ a b. b
operation keep_c = λ a b. b
operation add_b = add_byte
operation sub_b = sub_byte
operation add_c = add_byte

pub operation-Computes : (l : TapeLine) → Computes (opcode l) (operation l)
operation-Computes (up n) = adds
operation-Computes (down n) = subtracts
operation-Computes (raise n) = adds
operation-Computes (lower n) = subtracts
operation-Computes (times_b n) = multiplies
operation-Computes (times_c n) = multiplies
operation-Computes keep_b = moves
operation-Computes clear = moves
operation-Computes keep_c = moves
operation-Computes add_b = adds
operation-Computes sub_b = subtracts
operation-Computes add_c = adds

-- The operand, where it is a number, is a byte.
abbrev pub IsByteLine : TapeLine → Type 0
IsByteLine (up n) = n < 256
IsByteLine (down n) = n < 256
IsByteLine (raise n) = n < 256
IsByteLine (lower n) = n < 256
IsByteLine (times_b n) = n < 256
IsByteLine (times_c n) = n < 256
IsByteLine _ = Unit

-- The operands of a line, as the assembler has them.
abbrev pub operands : TapeLine → List Bytes
operands (up n) = codes "A" ∷ format_int (pos n) ∷ []
operands (down n) = codes "A" ∷ format_int (pos n) ∷ []
operands (raise n) = codes "[A]" ∷ format_int (pos n) ∷ []
operands (lower n) = codes "[A]" ∷ format_int (pos n) ∷ []
operands (times_b n) = codes "B" ∷ format_int (pos n) ∷ []
operands (times_c n) = codes "C" ∷ format_int (pos n) ∷ []
operands keep_b = codes "B" ∷ codes "[A]" ∷ []
operands clear = codes "[A]" ∷ codes "0" ∷ []
operands keep_c = codes "C" ∷ codes "B" ∷ []
operands add_b = codes "[A]" ∷ codes "B" ∷ []
operands sub_b = codes "[A]" ∷ codes "B" ∷ []
operands add_c = codes "[A]" ∷ codes "C" ∷ []

abbrev pub name : TapeLine → Bytes
name l = take 3 (text l)

-- The code: the opcode and the operands.
abbrev pub code_of : TapeLine → Bytes
code_of l = opcode l ∷ operand_bytes (place l) (source l)
