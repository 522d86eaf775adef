-- ===== src/Tests/OptimizerWitnesses.antt =====
-- The theorems on the optimisations of the Brainfvck compiler, applied.
use custom_isa_8bit_vm.Base.{Bytes, codes, equal, ◌≡◌, refl, some, List, [], ◌∷◌, arith}
use custom_isa_8bit_vm.Base.{◌+ℤ◌}
use custom_isa_8bit_vm.Assembler.Text.{from_chars}
use custom_isa_8bit_vm.Brainfvck.Format.{format_int, decimal}
use mathlib.Core.Path.{subst}
use custom_isa_8bit_vm.Base.{◌-ℤ◌}
use custom_isa_8bit_vm.Vm.State.{update}
use custom_isa_8bit_vm.Brainfvck.Format.{starts_with}
use custom_isa_8bit_vm.Brainfvck.LoopShape.{
  CellMod, try_analyze_mult_body, analyze, body_line, parse_instr_arg, add_mod, take_self, mods_of,
  other_mods, not_empty,
}
use custom_isa_8bit_vm.Brainfvck.LoopReplace.{replacement, emit_mul_replacement}
use custom_isa_8bit_vm.Brainfvck.LoopReplace.Memory.{Memory, loop, run_texts}
use custom_isa_8bit_vm.Brainfvck.LoopReplace.Emitted.{AllNear}
use custom_isa_8bit_vm.Brainfvck.LoopReplace.Meaning.{SameTape, replacement-loop}

some_mods : {a b : List CellMod} → some a ≡ some b → a ≡ b
some_mods e = cc

abbrev short_program : List Bytes
short_program =
    codes ".skip 30000"
    ∷ codes "start:"
    ∷ codes "MOV A, 2"
    ∷ codes "ADD [A], 1"
    ∷ codes "ADD [A], 1"
    ∷ codes "ADD A, 1"
    ∷ codes "PRINT [A]"
    ∷ codes "HALT"
    ∷ []

-- `[->++<]`, as the run-length pass writes its body.
abbrev doubling : List Bytes
doubling = codes "SUB [A], 1" ∷ codes "ADD A, 1" ∷ codes "ADD [A], 2" ∷ codes "SUB A, 1" ∷ []

abbrev doubled : List Bytes
doubled =
    codes "MOV B, [A]"
    ∷ codes "MOV [A], 0"
    ∷ codes "ADD A, 1"
    ∷ codes "MUL B, 2"
    ∷ codes "ADD [A], B"
    ∷ codes "SUB A, 1"
    ∷ []

-- The cell 5 under the pointer holds 3.
abbrev three : Memory
three = record { pointer = 5; b = 0; c = 0; cells = update (λ x. 0) 5 3 }

doubling-AllNear : (mods : List CellMod) → try_analyze_mult_body doubling ≡ some mods → AllNear mods
unfolding try_analyze_mult_body analyze body_line parse_instr_arg starts_with from_chars add_mod
    take_self mods_of other_mods not_empty ◌+ℤ◌ ◌-ℤ◌
doubling-AllNear mods e = subst AllNear (some_mods e) (
  record {
    offset_small = (omega arith, omega arith);
    value_small = (omega arith, omega arith);
    apart = refl;
  },
  tt,
)

replacement-loop_example :
    (out : Memory) × (loop 4 doubling three ≡ some out) × SameTape out (run_texts doubled three)
unfolding replacement try_analyze_mult_body emit_mul_replacement analyze body_line parse_instr_arg
    starts_with from_chars add_mod take_self mods_of other_mods not_empty ◌+ℤ◌ ◌-ℤ◌ equal format_int
    decimal
replacement-loop_example =
    replacement-loop doubling doubled three (omega arith, λ x. ground arith) doubling-AllNear refl
