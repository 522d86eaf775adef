-- ===== src/Program/Whole/Source.antt =====
-- A Brainfvck text through src/Brainfvck.cpp without its optimisations, src/Assembler.cpp and
-- src/VM.cpp.
use custom_isa_8bit_vm.Base.{
  Bytes, ℕ, ℤ, ◌+◌, ◌≤◌, ◌<◌, ◌≡◌, refl, sym, ap, ◌∙◌, true, some, List, arith,
}
use mathlib.Core.Path.{subst}
use custom_isa_8bit_vm.Exception.{ok}
use custom_isa_8bit_vm.Isa.{instruction_table, register_map}
use custom_isa_8bit_vm.MemoryManager.View.{program_ram}
use custom_isa_8bit_vm.Vm.Host.{Host}
use custom_isa_8bit_vm.Assembler.Emit.{asm_to_bin, end_lines}
use custom_isa_8bit_vm.Brainfvck.Translate.{translate}
use custom_isa_8bit_vm.Program.Tree.{Tree, AllBytes, size, World, meaning}
use custom_isa_8bit_vm.Program.Listing.{origin, listing, binary}
use custom_isa_8bit_vm.Program.Listing.Known.{Ordered}
use custom_isa_8bit_vm.Program.Listing.Assembled.{asm_to_opcodes-listing}
use custom_isa_8bit_vm.Program.Syntax.{program_of}
use custom_isa_8bit_vm.Program.Syntax.Translated.{translate-Translates}
use custom_isa_8bit_vm.Program.Whole.{start_world}
use custom_isa_8bit_vm.Program.Whole.Loaded.{zero_cells}
use custom_isa_8bit_vm.Program.Whole.Finished.{Finished, run_binary-Finished}

-- The binary of a program, what `main` makes of it, and the tape at the start.
pub record RunsAs (host : Host) (t : Tree) (ls : List Bytes) (input : List ℤ) (w : World)
    : Type 0 where
  pub assembled : asm_to_bin instruction_table register_map true (end_lines ls) ≡ ok (binary t)
  pub finished : Finished host t input w
  pub zeros : (x : ℕ) → 2 ≤ x → x < 256 → (start_world t input).memory.cells x ≡ 0

some-injective {ℓ} : {A : Type ℓ} {a b : A} → some a ≡ some b → a ≡ b
some-injective e = cc

-- Where the translation of a text succeeds, and its binary, the heap and the stack have room in the
-- RAM: the assembler makes the binary of the program that the text says; and where that program, on a
-- tape whose cells from 2 on are 0 and with the pointer at cell 2, comes to an end, so does `main` on
-- the binary without a window, with any fuel from some number on, whatever the host, and with the
-- tape, the input that is left and the output as the program says.
pub translate-RunsAs :
    (host : Host) (source : Bytes) (ls : List Bytes) (t : Tree) (input : List ℤ) (fuel : ℕ)
    (w : World)
    → translate source ≡ ok ls
    → program_of source ≡ some t
    → origin + size t + 1 + 2000 ≤ program_ram
    → meaning fuel t (start_world t input) ≡ some w
    → RunsAs host t ls input w
unfolding asm_to_bin start_world
translate-RunsAs host source ls t input fuel w e p room m =
    let s = translate-Translates source e in
    let same : s.program ≡ t = some-injective (sym s.says ∙ p) in
    let bytes = subst AllBytes same s.bytes in
    let ordered = subst (Ordered 0) same s.ordered in
    let lines_are : ls ≡ listing t = s.lines_are ∙ ap listing same in
    record {
      assembled = rw (lines_are, asm_to_opcodes-listing t bytes ordered (omega (arith, room))) refl;
      finished = run_binary-Finished host t input bytes room fuel w m;
      zeros = zero_cells t input bytes room;
    }
