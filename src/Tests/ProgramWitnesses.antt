-- ===== src/Tests/ProgramWitnesses.antt =====
-- The theorems on the whole program, applied.
use custom_isa_8bit_vm.Base.{Bytes, true, codes, pos, [], ◌∷◌, refl, arith}
use mathlib.Core.List.{Perm}
use mathlib.Core.List.Perm
use custom_isa_8bit_vm.Program.{main}
use custom_isa_8bit_vm.Program.Registers.{Prints, main-IsSnapshot}
use custom_isa_8bit_vm.Tests.Machines.{quiet}
use custom_isa_8bit_vm.Base.{◌==◌, false, ℕ, zero, suc, none, some, ◌≡◌, ◌-ℤ◌}
use custom_isa_8bit_vm.Brainfvck.LoopReplace.Memory.{here}
use custom_isa_8bit_vm.Exception.{ok}
use custom_isa_8bit_vm.Isa.{RegisterMap, instruction_table, register_map}
use custom_isa_8bit_vm.Assembler.Text.{lines}
use custom_isa_8bit_vm.Assembler.Emit.{asm_to_opcodes, end_lines}
use custom_isa_8bit_vm.Brainfvck.Format.{format_int, decimal}
use custom_isa_8bit_vm.Brainfvck.Translate.{translate, start_label, close_label}
use custom_isa_8bit_vm.Program.TapeLines.{lower}
use custom_isa_8bit_vm.Program.{run_binary}
use custom_isa_8bit_vm.Loader.{new_machine}
use custom_isa_8bit_vm.Vm.State.{timeout}
use custom_isa_8bit_vm.Program.Whole.Endless.{run_binary-Endless}
use custom_isa_8bit_vm.Program.Tree.{
  Tree, done, line, enter, while, World, meaning, changed, entered, size,
}
use custom_isa_8bit_vm.Program.Listing.{listing, tree_lines, binary}
use custom_isa_8bit_vm.Program.Listing.Known.{bound, Ordered}
use custom_isa_8bit_vm.Program.Listing.Assembled.{asm_to_opcodes-listing}
use custom_isa_8bit_vm.Program.Syntax.{program_of}
use custom_isa_8bit_vm.Program.Syntax.Translated.{Translates, translate-Translates}
use custom_isa_8bit_vm.Program.Whole.{start_world}
use custom_isa_8bit_vm.Program.Whole.Finished.{Finished, run_binary-Finished}
use custom_isa_8bit_vm.Program.Whole.Source.{RunsAs, translate-RunsAs}

-- The order in which g++ prints the registers.
abbrev printed_order : RegisterMap
printed_order = (codes "B", 2) ∷ (codes "D", 4) ∷ (codes "C", 3) ∷ (codes "A", 1) ∷ []

printed_order-Perm : Perm printed_order register_map
unfolding register_map
printed_order-Perm =
    let a : Bytes × ℕ = (codes "A", 1) in
    let b : Bytes × ℕ = (codes "B", 2) in
    let c : Bytes × ℕ = (codes "C", 3) in
    let d : Bytes × ℕ = (codes "D", 4) in
    Perm.trans (Perm.cons b (Perm.cons d (Perm.swap a c []))) (
      Perm.trans (Perm.cons b (Perm.swap a d (c ∷ [])))
        (Perm.trans (Perm.swap a b (d ∷ c ∷ [])) (Perm.cons a (Perm.cons b (Perm.swap c d [])))))

main-IsSnapshot_example : Prints (main quiet printed_order 30 true (codes ",+[-].") (pos 7 ∷ []))
main-IsSnapshot_example =
    main-IsSnapshot quiet printed_order printed_order-Perm 30 true (codes ",+[-].") (pos 7 ∷ [])

-- `,[-]`: a number is read and counted down.
abbrev countdown : Tree
countdown = enter (while 0 (line (lower 1) done) done)

abbrev countdown_start : World
countdown_start = start_world countdown (pos 2 ∷ [])

abbrev countdown_end : World
countdown_end = changed (lower 1) (changed (lower 1) (entered (pos 2 ∷ []) countdown_start))

countdown_means : meaning 9 countdown countdown_start ≡ some countdown_end
unfolding meaning start_world ◌-ℤ◌
countdown_means = refl

asm_to_opcodes-listing_example :
    asm_to_opcodes instruction_table register_map (end_lines (listing countdown))
    ≡ ok (binary countdown)
unfolding Ordered bound size
asm_to_opcodes-listing_example =
    asm_to_opcodes-listing countdown (omega arith, tt) (omega arith, (tt, tt)) (omega arith)

translate-Translates_example : Translates (codes ",[-]") (listing countdown)
unfolding translate lines listing tree_lines format_int decimal start_label close_label
translate-Translates_example = translate-Translates (codes ",[-]") refl

run_binary-Finished_example : Finished quiet countdown (pos 2 ∷ []) countdown_end
unfolding size
run_binary-Finished_example =
    run_binary-Finished quiet countdown (pos 2 ∷ []) (omega arith, tt) (omega arith) 9 countdown_end
      countdown_means

translate-RunsAs_example : RunsAs quiet countdown (listing countdown) (pos 2 ∷ []) countdown_end
unfolding size translate lines listing tree_lines format_int decimal start_label close_label
    program_of
translate-RunsAs_example =
    translate-RunsAs quiet (codes ",[-]") (listing countdown) countdown (pos 2 ∷ []) 9 countdown_end
      refl refl (omega arith) countdown_means

-- `,[]`: a loop that never ends.
abbrev forever : Tree
forever = enter (while 0 done done)

spins :
    (fuel : ℕ) (w : World)
    → (here w.memory == 0) ≡ false
    → meaning fuel (while 0 done done) w ≡ none
unfolding meaning
spins zero w e = refl
spins (suc zero) w e = rw (e, meaning) refl
spins (suc (suc fuel)) w e = rw (e, meaning) (spins (suc fuel) w e)

forever_lacks : meaning 50 forever (start_world forever (pos 7 ∷ [])) ≡ none
unfolding meaning start_world
forever_lacks = spins 49 (entered (pos 7 ∷ []) (start_world forever (pos 7 ∷ []))) refl

run_binary-Endless_example :
    run_binary quiet printed_order 50 (binary forever) (new_machine (pos 7 ∷ [])) ≡ timeout
unfolding size
run_binary-Endless_example =
    run_binary-Endless quiet forever (pos 7 ∷ []) (tt, tt) (omega arith) printed_order 50
      forever_lacks
