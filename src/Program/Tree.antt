-- ===== src/Program/Tree.antt =====
-- A Brainfvck program between src/Brainfvck.cpp and src/VM.cpp: the lines that change the tape, PRINT,
-- INPUT and the loops, with their code and what they mean.
pub mod Reached
pub mod Lines
pub mod Commands
pub mod Jumps
pub mod Loops
pub mod Parts
pub mod Runs
pub mod Late
pub mod Endless
use custom_isa_8bit_vm.Base.{
  ◌==◌, Bytes, ℕ, zero, suc, ◌+◌, ◌/◌, ◌%◌, Bool, true, false, Option, none, some, List, [], ◌∷◌,
  ◌++◌,
}
use custom_isa_8bit_vm.Base.{ℤ, to_byte}
use custom_isa_8bit_vm.Vm.State.{Output, printed, Machine}
use custom_isa_8bit_vm.Brainfvck.LoopShape.{body_line}
use custom_isa_8bit_vm.Brainfvck.LoopReplace.Memory.{
  Memory, line_effect, other_effect, set_cell, here,
}
use custom_isa_8bit_vm.Program.TapeLines.{TapeLine, text, IsByteLine, code_of}
use custom_isa_8bit_vm.Program.Tape.{tape, effect_of}

-- A program; a loop has the number of its labels, its body, and what stands behind it.
pub data Tree : Type 0 where
  done : Tree
  line : TapeLine → Tree → Tree
  show enter : Tree → Tree
  while : ℕ → Tree → Tree → Tree

-- The tape, what is left on the standard input, and what has been printed.
pub record World : Type 0 where
  pub memory : Memory
  pub input : List ℤ
  pub output : List Output

abbrev pub shown : World → World
shown w = record w { output = w.output ++ printed (here w.memory) ∷ [] }

-- Without a number on the input the cell becomes 0.
abbrev pub entered : List ℤ → World → World
entered [] w = record w { memory = set_cell 0 w.memory }
entered (x ∷ xs) w = record w { memory = set_cell (to_byte x) w.memory; input = xs }

abbrev pub changed : TapeLine → World → World
changed l w = record w { memory = effect_of l w.memory }

-- The meaning: a loop runs its body as long as the cell under the pointer is not 0. `none` is a lack
-- of fuel, which every line and every round uses up.
unfoldable pub meaning : ℕ → Tree → World → Option World
meaning zero t w = none
meaning (suc fuel) done w = some w
meaning (suc fuel) (line l rest) w = meaning fuel rest (changed l w)
meaning (suc fuel) (show rest) w = meaning fuel rest (shown w)
meaning (suc fuel) (enter rest) w = meaning fuel rest (entered w.input w)
meaning (suc fuel) (while id body rest) w = elim (here w.memory == 0) [
  | true ↦ meaning fuel rest w
  | false ↦ elim (meaning fuel body w) [
    | none ↦ none
    | some w' ↦ meaning fuel (while id body rest) w'
  ]
]

-- The number of bytes of the code.
unfoldable pub size : Tree → ℕ
size done = 0
size (line l rest) = 5 + size rest
size (show rest) = 3 + size rest
size (enter rest) = 3 + size rest
size (while id body rest) = 9 + (size body + (9 + size rest))

-- `CMP [A], 0`, and a jump to a label.
abbrev pub compare_code : Bytes
compare_code = 0xB2 ∷ 3 ∷ 1 ∷ 0 ∷ 0 ∷ []

abbrev pub jump_code : ℕ → ℕ → Bytes
jump_code opcode target = opcode ∷ 2 ∷ (target / 256 % 256) ∷ (target % 256) ∷ []

-- The code of a program at an address in its region: both labels of a loop stand in front of a
-- comparison.
unfoldable pub code : ℕ → Tree → Bytes
unfolding size
code a done = []
code a (line l rest) = code_of l ++ code (a + 5) rest
code a (show rest) = 0x01 ∷ 3 ∷ 1 ∷ code (a + 3) rest
code a (enter rest) = 0x21 ∷ 3 ∷ 1 ∷ code (a + 3) rest
code a (while id body rest) =
    (compare_code ++ jump_code 0x41 (a + 9 + size body))
    ++ (code (a + 9) body
        ++ ((compare_code ++ jump_code 0x51 a) ++ code (a + 9 + size body + 9) rest))

abbrev pub AllBytes : Tree → Type 0
AllBytes done = Unit
AllBytes (line l rest) = IsByteLine l × AllBytes rest
AllBytes (show rest) = AllBytes rest
AllBytes (enter rest) = AllBytes rest
AllBytes (while id body rest) = AllBytes body × AllBytes rest

-- The tape of a machine, its input and its output.
abbrev pub world : Machine → World
world m = record { memory = tape m; input = m.input; output = m.output }
