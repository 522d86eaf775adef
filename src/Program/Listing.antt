-- ===== src/Program/Listing.antt =====
-- The assembly that src/Brainfvck.cpp writes for a program, and the binary that src/Assembler.cpp is
-- to make of it.
pub mod Word
pub mod Instruction
pub mod Operands
pub mod TapeText
pub mod LoopText
pub mod LoopLines
pub mod LabelLine
pub mod Known
pub mod FirstPass
pub mod Addresses
pub mod SecondPass
pub mod Newlines
pub mod Assembled
use custom_isa_8bit_vm.Base.{replicate, Bytes, codes, ℕ, ◌+◌, List, [], ◌∷◌, ◌++◌}
use custom_isa_8bit_vm.Brainfvck.Translate.{start_label, close_label}
use custom_isa_8bit_vm.Program.TapeLines.{text}
use custom_isa_8bit_vm.Program.Tree.{Tree, done, line, show, enter, while, code}

unfoldable pub tree_lines : Tree → List Bytes
unfolding start_label close_label
tree_lines done = []
tree_lines (line l rest) = text l ∷ tree_lines rest
tree_lines (show rest) = codes "PRINT [A]" ∷ tree_lines rest
tree_lines (enter rest) = codes "INPUT [A]" ∷ tree_lines rest
tree_lines (while id body rest) =
    (start_label id ++ codes ":")
    ∷ codes "CMP [A], 0"
    ∷ (codes "JE " ++ close_label id)
    ∷ (tree_lines body
        ++ (close_label id ++ codes ":")
          ∷ codes "CMP [A], 0"
          ∷ (codes "JNE " ++ start_label id)
          ∷ tree_lines rest)

-- The whole text: the lines of the prologue, the program, and HALT.
unfoldable pub listing : Tree → List Bytes
unfolding tree_lines
listing t =
    codes ".skip 30000" ∷ codes "start:" ∷ codes "MOV A, 2" ∷ (tree_lines t ++ codes "HALT" ∷ [])

-- The entry address 30002, the bytes of `.skip`, `MOV A, 2`, the program and HALT.
abbrev pub origin : ℕ
origin = 30007

unfoldable pub skipped : ℕ → Bytes
skipped n = replicate n 0

abbrev pub start_code : Bytes
start_code = 0x12 ∷ 1 ∷ 1 ∷ 0 ∷ 2 ∷ []

unfoldable pub binary : Tree → Bytes
unfolding skipped
binary t = 0x75 ∷ 0x32 ∷ (skipped 30000 ++ (start_code ++ (code origin t ++ 0xFF ∷ [])))
