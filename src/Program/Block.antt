-- ===== src/Program/Block.antt =====
-- Several lines that change the tape, one behind the other, in the loop of `exec` of src/VM.cpp.
use custom_isa_8bit_vm.Base.{
  length, Bytes, ℕ, suc, ◌+◌, ◌<◌, ◌≡◌, refl, ap, ◌∙◌, fun_ext, List, [], ◌∷◌, ◌++◌, map, arith,
}
use custom_isa_8bit_vm.Exception.{Result, ok, ◌>>=◌}
use custom_isa_8bit_vm.Isa.{instruction_table, register_map}
use custom_isa_8bit_vm.Process.{Process}
use custom_isa_8bit_vm.Vm.State.{Machine}
use custom_isa_8bit_vm.Vm.Effects.{bind_lem}
use custom_isa_8bit_vm.Vm.Operand.Fetch.{advanced}
use custom_isa_8bit_vm.Vm.Host.{Host}
use custom_isa_8bit_vm.Vm.Exec.{step, loop}
use custom_isa_8bit_vm.Vm.Exec.Halts.{loop-continues}
use custom_isa_8bit_vm.Vm.Exec.Places.{cell_of, contents, read_source}
use custom_isa_8bit_vm.Assembler.Encode.{Labels, instruction_to_opcode}
use custom_isa_8bit_vm.Brainfvck.LoopShape.{body_line}
use custom_isa_8bit_vm.Brainfvck.LoopReplace.Memory.{Memory, line_effect, run_texts}
use custom_isa_8bit_vm.Program.TapeLines.{
  TapeLine, text, place, source, operation, IsByteLine, operands, name, code_of,
}
use custom_isa_8bit_vm.Program.Encoded.{instruction_to_opcode-code_of}
use custom_isa_8bit_vm.Program.Tape.{tape, SameMemory, stepped, step-stepped, stepped-line_effect}
use custom_isa_8bit_vm.Program.Ready.{
  IsReady, Holds-front, with_cell-process, stepped-IsReady, continues-IsReady,
}

-- The code of the lines, as it stands in the binary.
abbrev pub block_code : List TapeLine → Bytes
block_code [] = []
block_code (l ∷ ls) = code_of l ++ block_code ls

abbrev pub AllByteLines : List TapeLine → Type 0
AllByteLines [] = Unit
AllByteLines (l ∷ ls) = IsByteLine l × AllByteLines ls

pub SameMemory-path : {s t : Memory} → SameMemory s t → s ≡ t
SameMemory-path {s} {t} h i = record {
  pointer = h.0 i;
  b = h.1.0 i;
  c = h.1.1.0 i;
  cells = fun_ext h.1.1.1 i;
}

-- The lines through the assembler.
unfoldable pub assembled : ℕ → Labels → List TapeLine → Result Bytes
assembled line labels [] = ok []
assembled line labels (l ∷ ls) = do
  code ← instruction_to_opcode instruction_table register_map line (name l) (operands l) labels
  rest ← assembled (line + 1) labels ls
  ok (code ++ rest)

assembled-block_code :
    (line : ℕ) (labels : Labels) (ls : List TapeLine)
    → AllByteLines ls
    → assembled line labels ls ≡ ok (block_code ls)
unfolding assembled
assembled-block_code line labels [] h = refl
assembled-block_code line labels (l ∷ ls) h =
    rw
      (
        instruction_to_opcode-code_of line labels l h.0,
        assembled-block_code (line + 1) labels ls h.1,
      )
      refl

-- What the loop of `exec` comes to behind the lines.
pub record Ran (host : Host) (ls : List TapeLine) (fuel row : ℕ) (m : Machine) : Type 0 where
  pub after : Machine
  pub goes_on : loop host (length ls + fuel) row m ≡ loop host fuel (row + length ls) after
  pub pc_is : after.process.pc ≡ m.process.pc + length (block_code ls)
  pub code_is : (line : ℕ) (labels : Labels) → assembled line labels ls ≡ ok (block_code ls)
  pub tape_is : tape after ≡ run_texts (map text ls) (tape m)

pub stepped-tape :
    (l : TapeLine) (m : Machine)
    → IsByteLine l
    → ((i : ℕ) → m.registers i < 256)
    → ((a : ℕ) → m.ram a < 256)
    → tape (stepped l m) ≡ line_effect (text l) (body_line (text l)) (tape m)
stepped-tape l m b r f = SameMemory-path (stepped-line_effect l m b r f)

-- For lines that change the tape, with operands below 256: the assembler makes the code of their
-- names and operands. Where it stands at the program counter of a running machine of bytes, behind
-- the 256 cells from the start of the region on and within its code and the RAM: the loop of `exec`
-- goes on behind the code after as many rounds as there are lines, and the pointer (register A), the
-- registers B and C and the cells are then what the lines make of them by their text.
pub loop-Ran :
    (host : Host) (ls : List TapeLine) (fuel row : ℕ) (m : Machine)
    → AllByteLines ls
    → IsReady (block_code ls) m
    → Ran host ls fuel row m
unfolding run_texts
loop-Ran host [] fuel row m b h =
    let nothing : 0 + fuel ≡ fuel = omega arith in
    let same_row : row ≡ row + 0 = omega arith in
    record {
      after = m;
      goes_on = ap (λ k. loop host k row m) nothing ∙ ap (λ k. loop host fuel k m) same_row;
      code_is = λ line labels. assembled-block_code line labels [] tt;
      pc_is = omega arith;
      tape_is = refl;
    }
loop-Ran host (l ∷ ls) fuel row m b h =
    let rest = block_code ls in
    let m1 = stepped l m in
    let next = loop-Ran host ls fuel (row + 1) m1 b.1 (stepped-IsReady l rest m h) in
    let moved : m1.process.pc ≡ m.process.pc + 5 =
      ap (λ (p : Process). p.pc)
        (with_cell-process (cell_of (place l) m)
          (operation l (contents (cell_of (place l) m) m) (read_source (source l) m))
          (advanced m 5)) in
    let taken =
      step-stepped host row l m b.0 (Holds-front m.ram m.process.pc (code_of l) rest h.holds)
        (omega (arith, h.in_ram)) (omega (arith, h.in_ram, h.behind, h.register_bytes 0)) in
    let count : suc (length ls) + fuel ≡ suc (length ls + fuel) = omega arith in
    let rows : row + 1 + length ls ≡ row + suc (length ls) = omega arith in
    record {
      after = next.after;
      goes_on =
          ap (λ k. loop host k row m) count
          ∙ loop-continues host (length ls + fuel) row m
              (continues-IsReady (code_of l ++ rest) m (omega arith) h)
          ∙ bind_lem (step host row) _ m taken
          ∙ next.goes_on
          ∙ ap (λ k. loop host fuel k next.after) rows;
      pc_is = next.pc_is ∙ omega (arith, moved);
      code_is = λ line labels. assembled-block_code line labels (l ∷ ls) b;
      tape_is =
          next.tape_is
          ∙ ap (run_texts (map text ls)) (stepped-tape l m b.0 h.register_bytes h.ram_bytes);
    }
