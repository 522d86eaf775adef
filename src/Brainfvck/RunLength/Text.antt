-- ===== src/Brainfvck/RunLength/Text.antt =====
-- `apply_optimizations` of src/Brainfvck.cpp on the text that `compile` gives it.
use custom_isa_8bit_vm.Base.{
  leb, if◌then◌else◌, ◌&&◌, Bool, true, Option, none, some, pos_part, neg_part, Bytes, List, [],
  ◌∷◌,
}
use custom_isa_8bit_vm.Brainfvck.RunLength.Meaning.{Tape, effect}
use custom_isa_8bit_vm.Brainfvck.LoopShape.{BodyLine, moves, changes, stops, body_line}
use custom_isa_8bit_vm.Brainfvck.RunLength.Mode.{Mode}

-- What a line does where its operand is one byte; the machine takes no other operand in ADD and SUB.
abbrev pub fits : BodyLine → Bool
fits (moves n) = leb (pos_part n) 255 && leb (neg_part n) 255
fits (changes n) = leb (pos_part n) 255 && leb (neg_part n) 255
fits stops = true

abbrev pub all_fit : List Bytes → Bool
all_fit [] = true
all_fit (line ∷ rest) = fits (body_line line) && all_fit rest

-- The lines one after the other, up to the first one with an operand that is not one byte.
unfoldable pub run_bytes {ℓ} : {S : Type ℓ} → Tape S → List Bytes → S → Option S
run_bytes tape [] s = some s
run_bytes tape (line ∷ rest) s =
    let behind = run_bytes tape rest (effect tape line s) in
    if fits (body_line line) then behind else none
