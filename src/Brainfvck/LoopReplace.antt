-- ===== src/Brainfvck/LoopReplace.antt =====
-- The parts of `Brainfvck::apply_loop_optimizations` that write the code of a recognised loop.
pub mod Fuel
pub mod Memory
pub mod Delta
pub mod Body
pub mod Written
pub mod Emitted
pub mod Found
pub mod Meaning
use custom_isa_8bit_vm.Base.{
  if◌then◌else◌, length, Bytes, codes, equal, ℕ, zero, suc, Bool, true, false, not, Option, none,
  some, List, [], ◌∷◌, ◌++◌,
}
use custom_isa_8bit_vm.Base.{ℤ, pos, negsuc, ltb_ℤ, eq_ℤ, ◌-ℤ◌}
use custom_isa_8bit_vm.Brainfvck.Format.{format_int}
use custom_isa_8bit_vm.Brainfvck.LoopShape.{
  CellMod, ParsedLoop, try_parse_loop, try_analyze_mult_body, negated,
}

-- `std::ranges::sort` by the offset; no two entries share one.
unfoldable pub insert_mod : CellMod → List CellMod → List CellMod
insert_mod m [] = m ∷ []
insert_mod m (n ∷ mods) = if ltb_ℤ n.offset m.offset then n ∷ insert_mod m mods else m ∷ n ∷ mods

unfoldable pub sort_mods : List CellMod → List CellMod
unfolding insert_mod
sort_mods [] = []
sort_mods (m ∷ mods) = insert_mod m (sort_mods mods)

-- Move the pointer by `d`: no line for 0.
unfoldable pub move_lines : ℤ → List Bytes
unfolding format_int
move_lines d =
    if ltb_ℤ (pos 0) d
    then (codes "ADD A, " ++ format_int d) ∷ []
    else if ltb_ℤ d (pos 0)
    then (codes "SUB A, " ++ format_int (negated d)) ∷ []
    else []

-- Add the value's multiple of B to the cell; the last entry may spoil B.
unfoldable pub add_lines : ℤ → Bool → List Bytes
unfolding format_int
add_lines value last =
    if eq_ℤ value (pos 1)
    then codes "ADD [A], B" ∷ []
    else if eq_ℤ value (negsuc 0)
    then codes "SUB [A], B" ∷ []
    else if last
    then (codes "MUL B, " ++ format_int value) ∷ codes "ADD [A], B" ∷ []
    else codes "MOV C, B" ∷ (codes "MUL C, " ++ format_int value) ∷ codes "ADD [A], C" ∷ []

abbrev pub is_empty {ℓ} : {A : Type ℓ} → List A → Bool
is_empty [] = true
is_empty (x ∷ xs) = false

-- The loop over the sorted entries, with the pointer at `cur`, and the way back.
unfoldable pub emit_mods : ℤ → List CellMod → List Bytes
unfolding move_lines add_lines
emit_mods cur [] = move_lines (negated cur)
emit_mods cur (m ∷ mods) =
    move_lines (m.offset -ℤ cur) ++ (add_lines m.value (is_empty mods) ++ emit_mods m.offset mods)

unfoldable pub emit_mul_replacement : List CellMod → List Bytes
unfolding emit_mods sort_mods
emit_mul_replacement mods =
    codes "MOV B, [A]" ∷ codes "MOV [A], 0" ∷ emit_mods (pos 0) (sort_mods mods)

-- The lines in place of a loop, if it can be replaced.
unfoldable pub replacement : List Bytes → Option (List Bytes)
unfolding emit_mul_replacement
replacement [] = none
replacement (first ∷ rest) =
    if not (equal first (codes "SUB [A], 1"))
    then none
    else if is_empty rest
    then some (codes "MOV [A], 0" ∷ [])
    else elim (try_analyze_mult_body (first ∷ rest)) [
      | none ↦ none
      | some mods ↦ some (emit_mul_replacement mods)
    ]

unfoldable pub replaced_loop : Option ParsedLoop → Option (List Bytes × List Bytes)
unfolding replacement
replaced_loop none = none
replaced_loop (some loop) = elim (replacement loop.body) [
  | none ↦ none
  | some ls ↦ some (ls, loop.after)
]

-- The loop over the lines. The fuel is at least their number: every round takes a line or more.
unfoldable pub replace_loops : ℕ → List Bytes → List Bytes
unfolding replaced_loop try_parse_loop
replace_loops fuel [] = []
replace_loops zero (line ∷ rest) = []
replace_loops (suc fuel) (line ∷ rest) =
    let plain = line ∷ replace_loops fuel rest in
    elim (replaced_loop (try_parse_loop (line ∷ rest))) [
      | none ↦ plain
      | some (ls, after) ↦ ls ++ replace_loops fuel after
    ]

unfoldable pub apply_loop_optimizations : List Bytes → List Bytes
unfolding replace_loops
apply_loop_optimizations ls = replace_loops (length ls) ls
