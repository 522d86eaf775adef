-- ===== src/Tests/CompilerWitnesses.antt =====
-- The theorems on the assembler and the Brainfvck compiler, applied.
use custom_isa_8bit_vm.Base.{equal, codes, ◌+◌, ◌≡◌, refl, [], ◌∷◌, map, some, arith}
use custom_isa_8bit_vm.Base.{pos}
use custom_isa_8bit_vm.Isa.{register_map, find_register}
use custom_isa_8bit_vm.Vm.State.{byte_of_type, update}
use custom_isa_8bit_vm.Tests.Machines.{machine, zeros}
use custom_isa_8bit_vm.Assembler.Text.{lines, back, pop_back, contains, from_chars, stoi}
use custom_isa_8bit_vm.Assembler.Encode.{find_label, type_of_arg, encode_args}
use custom_isa_8bit_vm.Assembler.Encode.Fetch.{Fetched, encode_args-Fetched}
use custom_isa_8bit_vm.Brainfvck.Format.{format_int}
use custom_isa_8bit_vm.Brainfvck.Translate.{translate}
use custom_isa_8bit_vm.Brainfvck.Translate.Brackets.{verdict, balanced, translate-balanced}
use custom_isa_8bit_vm.Brainfvck.LoopShape.{ParsedLoop, parse_par_id, try_parse_loop}
use custom_isa_8bit_vm.Brainfvck.LoopShape.Sound.{loop_lines, try_parse_loop-lines}
use custom_isa_8bit_vm.Brainfvck.LoopReplace.{replace_loops}
use custom_isa_8bit_vm.Brainfvck.LoopReplace.Fuel.{replace_loops-more_fuel}

encode_args-Fetched_example :
    Fetched
      (map (type_of_arg register_map) (codes "B" ∷ codes "7" ∷ []))
      4
      (machine (update (update (update zeros 2 1) 3 2) 5 7) 2020)
unfolding encode_args register_map byte_of_type find_label find_register from_chars contains stoi
encode_args-Fetched_example =
    encode_args-Fetched register_map [] (codes "B" ∷ codes "7" ∷ []) {bytes = 1 ∷ 2 ∷ 0 ∷ 7 ∷ []}
      (machine (update (update (update zeros 2 1) 3 2) 5 7) 2020) refl (omega arith) (omega arith)

translate-balanced_example : verdict (translate (codes "+[-]]")) ≡ balanced (lines (codes "+[-]]"))
translate-balanced_example = translate-balanced (codes "+[-]]")

abbrev clear_loop : ParsedLoop
clear_loop = record { id = pos 0; body = codes "SUB [A], 1" ∷ []; after = codes "HALT" ∷ [] }

try_parse_loop-lines_example :
    (parse_par_id (codes "start_par_0:") (codes "start_par_") ≡ some (pos 0))
    × (loop_lines clear_loop ≡ loop_lines clear_loop)
unfolding try_parse_loop parse_par_id back from_chars pop_back equal format_int
try_parse_loop-lines_example =
    try_parse_loop-lines (codes "start_par_0:") (loop_lines clear_loop) clear_loop refl

replace_loops-more_fuel_example :
    replace_loops (2 + 5) (codes "NOP" ∷ codes "HALT" ∷ [])
    ≡ replace_loops 2 (codes "NOP" ∷ codes "HALT" ∷ [])
replace_loops-more_fuel_example =
    replace_loops-more_fuel 2 5 (codes "NOP" ∷ codes "HALT" ∷ []) (omega arith)
