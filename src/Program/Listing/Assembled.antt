-- ===== src/Program/Listing/Assembled.antt =====
-- The assembly of a program as a whole through src/Assembler.cpp.
use custom_isa_8bit_vm.Base.{
  Bytes, codes, equal, ℕ, ◌+◌, ◌^◌, ◌<◌, ◌≡◌, refl, ◌∙◌, true, false, some, List, [], ◌∷◌, ◌++◌,
}
use custom_isa_8bit_vm.Exception.{ok}
use custom_isa_8bit_vm.Isa.{instruction_table, register_map, find_opcode, find_register}
use custom_isa_8bit_vm.Vm.State.{byte_of_type}
use custom_isa_8bit_vm.Assembler.Text.{
  before, words, words_from, back, pop_back, stoull, take_digits, digits_value, from_chars,
  contains, inside, stoi,
}
use custom_isa_8bit_vm.Assembler.Encode.{
  Labels, find_label, instruction_to_opcode, encode_args, value_bytes, text_type,
}
use custom_isa_8bit_vm.Assembler.Layout.{
  Layout, initial, layout_lines, skip_line, instruction_line, args_size, layout_type,
}
use custom_isa_8bit_vm.Assembler.Emit.{
  commas_to_spaces, last_word, skip_codes, emit_line, emit_lines, with_start, entry_bytes,
  asm_to_opcodes, end_lines,
}
use custom_isa_8bit_vm.Assembler.Emit.FileLines.{lines-end_lines}
use custom_isa_8bit_vm.Brainfvck.Translate.{start_label, close_label}
use custom_isa_8bit_vm.Program.Tree.{Tree, done, line, show, enter, while, size, code, AllBytes}
use custom_isa_8bit_vm.Program.Listing.{tree_lines, listing, origin, skipped, start_code, binary}
use custom_isa_8bit_vm.Program.Listing.Instruction.{grown}
use custom_isa_8bit_vm.Program.Listing.LabelLine.{labelled}
use custom_isa_8bit_vm.Program.Listing.Known.{Ordered, laid}
use custom_isa_8bit_vm.Program.Listing.FirstPass.{layout_lines-laid}
use custom_isa_8bit_vm.Program.Listing.Addresses.{laid-Knows}
use custom_isa_8bit_vm.Program.Listing.SecondPass.{Emits, Emits-line, tree_lines-code}
use custom_isa_8bit_vm.Program.Listing.Newlines.{listing-AllLines}

-- The layout behind the prologue.
abbrev behind_prologue : Layout
behind_prologue = record {
  labels = (codes "start", 30002) ∷ [];
  dimension = origin;
  line_number = 4;
}

prologue_laid :
    (ls : List Bytes)
    → layout_lines instruction_table register_map
        (codes ".skip 30000" ∷ codes "start:" ∷ codes "MOV A, 2" ∷ ls)
        initial
      ≡ layout_lines instruction_table register_map ls behind_prologue
unfolding layout_lines words words_from before back pop_back skip_line stoull digits_value
    take_digits equal instruction_line args_size layout_type find_register register_map find_opcode
    instruction_table find_label
prologue_laid ls = refl

halt_laid :
    (k : Layout)
    → layout_lines instruction_table register_map (codes "HALT" ∷ []) k ≡ ok (grown 1 k)
unfolding layout_lines words words_from before back equal instruction_line args_size find_opcode
    instruction_table
halt_laid k = refl

find_label-laid :
    (t : Tree) (k : Layout)
    → find_label (laid t k).labels (codes "start") ≡ find_label k.labels (codes "start")
unfolding laid find_label start_label close_label equal
find_label-laid done k = refl
find_label-laid (line l rest) k = find_label-laid rest (grown 5 k)
find_label-laid (show rest) k = find_label-laid rest (grown 3 k)
find_label-laid (enter rest) k = find_label-laid rest (grown 3 k)
find_label-laid (while id body rest) k =
    let k2 = grown 4 (grown 5 (labelled (start_label id) k)) in
    find_label-laid rest (grown 4 (grown 5 (labelled (close_label id) (laid body k2))))
    ∙ find_label-laid body k2

module _ (labels : Labels) where
  skip_written :
      (row : ℕ)
      → emit_line instruction_table register_map labels row (before b';' (codes ".skip 30000"))
        ≡ ok (skipped 30000, true)
  unfolding emit_line before back commas_to_spaces words words_from last_word equal skip_codes
      stoull digits_value take_digits skipped
  skip_written row = refl

  start_written :
      (row : ℕ)
      → emit_line instruction_table register_map labels row (codes "start:") ≡ ok ([], false)
  unfolding emit_line back
  start_written row = refl

  move_written :
      (row : ℕ)
      → emit_line instruction_table register_map labels row (before b';' (codes "MOV A, 2"))
        ≡ ok (start_code, true)
  unfolding emit_line before back commas_to_spaces words words_from last_word equal
      instruction_to_opcode encode_args value_bytes find_register register_map from_chars contains
      text_type byte_of_type inside stoi find_opcode instruction_table
  move_written row = refl

  halt_written :
      (row : ℕ)
      → emit_line instruction_table register_map labels row (before b';' (codes "HALT"))
        ≡ ok (0xFF ∷ [], true)
  unfolding emit_line before back commas_to_spaces words words_from last_word equal
      instruction_to_opcode encode_args find_opcode instruction_table
  halt_written row = refl

  halt_Emits : Emits labels (codes "HALT" ∷ []) (0xFF ∷ [])
  unfolding emit_lines
  halt_Emits row = rw (halt_written row) refl

  start_Emits :
      (ls : List Bytes) (rest : Bytes)
      → Emits labels ls rest
      → Emits labels (codes "start:" ∷ ls) rest
  unfolding emit_lines before
  start_Emits ls rest e row = rw (start_written row, e row) refl

  prologue_Emits :
      (ls : List Bytes) (rest : Bytes)
      → Emits labels ls rest
      → Emits labels
          (codes ".skip 30000" ∷ codes "start:" ∷ codes "MOV A, 2" ∷ ls)
          (skipped 30000 ++ (start_code ++ rest))
  prologue_Emits ls rest e =
      Emits-line labels (codes ".skip 30000") (codes "start:" ∷ codes "MOV A, 2" ∷ ls)
        (skipped 30000) (start_code ++ rest) skip_written
        (start_Emits (codes "MOV A, 2" ∷ ls) (start_code ++ rest)
          (Emits-line labels (codes "MOV A, 2") ls start_code rest move_written e))

-- The last layout.
final_layout : Tree → Layout
final_layout t = grown 1 (laid t behind_prologue)

listing_laid :
    (t : Tree)
    → layout_lines instruction_table register_map (listing t) initial ≡ ok (final_layout t)
unfolding listing final_layout
listing_laid t =
    prologue_laid (tree_lines t ++ codes "HALT" ∷ [])
    ∙ layout_lines-laid t (codes "HALT" ∷ []) behind_prologue (refl, tt)
    ∙ halt_laid (laid t behind_prologue)

start_known : (t : Tree) → find_label (final_layout t).labels (codes "start") ≡ some 30002
unfolding final_layout find_label equal
start_known t = find_label-laid t behind_prologue ∙ refl

with_start-final : (t : Tree) → with_start (final_layout t).labels ≡ (final_layout t).labels
unfolding with_start
with_start-final t = rw (start_known t) refl

listing-Emits :
    (t : Tree)
    → AllBytes t
    → Ordered 0 t
    → origin + size t < 2 ^ 16
    → Emits
        (final_layout t).labels
        (listing t)
        (skipped 30000 ++ (start_code ++ (code origin t ++ 0xFF ∷ [])))
unfolding listing final_layout
listing-Emits t b o l =
    let labels = (final_layout t).labels in
    prologue_Emits labels (tree_lines t ++ codes "HALT" ∷ []) (code origin t ++ 0xFF ∷ []) (
      tree_lines-code labels t origin (codes "HALT" ∷ []) (0xFF ∷ [])
        (laid-Knows t 0 origin behind_prologue o refl l) b l (halt_Emits labels))

-- For a program with operands below 256 whose loops are numbered in the order of their opening
-- brackets, with addresses below 2 ^ 16: the assembler makes of its text the entry address 30002, the
-- bytes of `.skip`, the start, the code of the program with the address of every label, and HALT.
pub asm_to_opcodes-listing :
    (t : Tree)
    → AllBytes t
    → Ordered 0 t
    → origin + size t < 2 ^ 16
    → asm_to_opcodes instruction_table register_map (end_lines (listing t)) ≡ ok (binary t)
unfolding asm_to_opcodes binary entry_bytes
asm_to_opcodes-listing t b o l =
    rw
      (
        lines-end_lines (listing t) (listing-AllLines t),
        listing_laid t,
        with_start-final t,
        listing-Emits t b o l 1,
        start_known t,
      )
      refl
