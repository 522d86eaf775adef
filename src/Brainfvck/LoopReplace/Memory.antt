-- ===== src/Brainfvck/LoopReplace/Memory.antt =====
-- The tape of a Brainfvck program in the machine, and what the lines around its loops do to it.
use custom_isa_8bit_vm.Base.{
  ◌==◌, if◌then◌else◌, Bytes, codes, equal, ℕ, zero, suc, ◌+◌, ◌-◌, ◌*◌, ◌%◌, ◌<◌, ◌≡◌, refl,
  Option, none, some, List, [], ◌∷◌, ◌++◌,
}
use custom_isa_8bit_vm.Base.{ℤ, to_byte}
use custom_isa_8bit_vm.Vm.State.{update}
use custom_isa_8bit_vm.Brainfvck.LoopShape.{
  BodyLine, moves, changes, stops, body_line, parse_instr_arg,
}

-- The registers A, B and C, and the cells that an 8-bit pointer reaches.
pub record Memory : Type 0 where
  pub pointer : ℕ
  pub b : ℕ
  pub c : ℕ
  pub cells : ℕ → ℕ

abbrev pub IsBytes : Memory → Type 0
IsBytes m = (m.pointer < 256) × ((x : ℕ) → m.cells x < 256)

-- The cell under the pointer.
abbrev pub set_cell : ℕ → Memory → Memory
set_cell v m = record m { cells = update m.cells m.pointer (v % 256) }

abbrev pub here : Memory → ℕ
here m = m.cells m.pointer

abbrev pub move : ℤ → Memory → Memory
move n m = record m { pointer = (m.pointer + to_byte n) % 256 }

abbrev pub change : ℤ → Memory → Memory
change n m = set_cell (here m + to_byte n) m

-- `MUL B, n` and `MUL C, n`.
abbrev pub multiply : Option ℤ → Option ℤ → Memory → Memory
multiply (some n) k m = record m { b = m.b * to_byte n % 256 }
multiply none (some n) m = record m { c = m.c * to_byte n % 256 }
multiply none none m = m

-- The lines that are neither moves nor changes by a number.
unfoldable pub other_effect : Bytes → Memory → Memory
unfolding equal parse_instr_arg
other_effect line m =
    if equal line (codes "MOV B, [A]")
    then record m { b = here m }
    else if equal line (codes "MOV [A], 0")
    then set_cell 0 m
    else if equal line (codes "MOV C, B")
    then record m { c = m.b }
    else if equal line (codes "ADD [A], B")
    then set_cell (here m + m.b) m
    else if equal line (codes "SUB [A], B")
    then set_cell (here m + 256 - m.b) m
    else if equal line (codes "ADD [A], C")
    then set_cell (here m + m.c) m
    else multiply (parse_instr_arg line (codes "MUL B, ")) (parse_instr_arg line (codes "MUL C, "))
        m

abbrev pub line_effect : Bytes → BodyLine → Memory → Memory
line_effect line (moves n) = move n
line_effect line (changes n) = change n
line_effect line stops = other_effect line

unfoldable pub run_texts : List Bytes → Memory → Memory
unfolding body_line other_effect
run_texts [] m = m
run_texts (line ∷ rest) m = run_texts rest (line_effect line (body_line line) m)

-- A loop with the body: it ends when the cell under the pointer is 0. The fuel bounds the rounds.
unfoldable pub loop : ℕ → List Bytes → Memory → Option Memory
unfolding run_texts
loop zero body m = none
loop (suc fuel) body m =
    let again = loop fuel body (run_texts body m) in if here m == 0 then some m else again

pub run_texts-append :
    (xs ys : List Bytes) (m : Memory) → run_texts (xs ++ ys) m ≡ run_texts ys (run_texts xs m)
unfolding run_texts
run_texts-append [] ys m = refl
run_texts-append (x ∷ xs) ys m = run_texts-append xs ys (line_effect x (body_line x) m)
