-- ===== src/Program/Listing/Instruction.antt =====
-- A line with an instruction whose last operand is a word, in the two passes of src/Assembler.cpp.
use custom_isa_8bit_vm.Base.{
  ◌==◌, if◌then◌else◌, length, Bytes, codes, equal, ℕ, ◌+◌, ◌%◌, ◌≡◌, refl, ap, ◌∙◌, true, false,
  some, List, [], ◌∷◌, ◌++◌, arith,
}
use custom_isa_8bit_vm.Exception.{ok}
use custom_isa_8bit_vm.Isa.{InstructionTable, RegisterMap, find_opcode}
use custom_isa_8bit_vm.Assembler.Text.{before, words, words_from, back, contains}
use custom_isa_8bit_vm.Assembler.Encode.{Labels, instruction_to_opcode}
use custom_isa_8bit_vm.Assembler.Layout.{
  Layout, size_mod, args_size, instruction_line, layout_words,
}
use custom_isa_8bit_vm.Assembler.Emit.{commas_to_spaces, last_word, emit_words, emit_line}
use custom_isa_8bit_vm.Assembler.Passes.Source.{ends_in_colon}
use custom_isa_8bit_vm.Assembler.Passes.Lines.{emit_line-words}
use custom_isa_8bit_vm.Program.Listing.Word.{
  is_word, before-word, commas_to_spaces-word, last_word_is, back-word,
}

before-append : (p w : Bytes) → contains b';' p ≡ false → before b';' (p ++ w) ≡ p ++ before b';' w
unfolding before contains
before-append [] w h = refl
before-append (c ∷ p) w h = ground (arith, before-append p w)

commas_to_spaces-append :
    (p w : Bytes) → commas_to_spaces (p ++ w) ≡ commas_to_spaces p ++ commas_to_spaces w
unfolding commas_to_spaces
commas_to_spaces-append [] w = refl
commas_to_spaces-append (c ∷ p) w =
    ap (λ t. (if c == b',' then b' ' else c) ∷ t) (commas_to_spaces-append p w)

back-append : (p : Bytes) (c : ℕ) (s : Bytes) → back (p ++ c ∷ s) ≡ back (c ∷ s)
unfolding back
back-append [] c s = refl
back-append (d ∷ []) c s = refl
back-append (d ∷ e ∷ p) c s = back-append (e ∷ p) c s

last_word-append : (v w : Bytes) (vs : List Bytes) → last_word v (vs ++ w ∷ []) ≡ w
unfolding last_word
last_word-append v w [] = refl
last_word-append v w (u ∷ vs) = last_word-append u w vs

-- The first pass behind `n` more bytes.
abbrev pub grown : ℕ → Layout → Layout
grown n k = record k { dimension = (k.dimension + n) % size_mod; line_number = k.line_number + 1 }

-- A line of a text and a word, that is an instruction of a name and operands; `raws` are those with
-- their commas.
pub record Instruction (p name : Bytes) (raws args : List Bytes) : Type 0 where
  pub no_comment : contains b';' p ≡ false
  pub raw_words : (v : Bytes) → words (p ++ v) ≡ name ∷ (raws ++ words_from [] v)
  pub split_words : (v : Bytes) → words (commas_to_spaces p ++ v) ≡ name ∷ (args ++ words_from [] v)
  pub no_colon : ends_in_colon name ≡ false
  pub no_skip : equal name (codes ".skip") ≡ false

module _ (p : Bytes) (c : ℕ) (s name : Bytes) (raws args : List Bytes)
    (i : Instruction p name raws args) (h : is_word (c ∷ s) ≡ true) where
  whole_line : before b';' (p ++ c ∷ s) ≡ p ++ c ∷ s
  whole_line = before-append p (c ∷ s) i.no_comment ∙ ap (λ t. p ++ t) (before-word (c ∷ s) h)

  raws_are : words (before b';' (p ++ c ∷ s)) ≡ name ∷ (raws ++ (c ∷ s) ∷ [])
  raws_are =
      ap words whole_line
      ∙ i.raw_words (c ∷ s)
      ∙ ap (λ ws. name ∷ (raws ++ ws)) (last_word_is c s h)

  args_are : words (commas_to_spaces (before b';' (p ++ c ∷ s))) ≡ name ∷ (args ++ (c ∷ s) ∷ [])
  args_are =
      ap (λ t. words (commas_to_spaces t)) whole_line
      ∙ ap words (
          commas_to_spaces-append p (c ∷ s)
          ∙ ap (λ t. commas_to_spaces p ++ t) (commas_to_spaces-word (c ∷ s) h))
      ∙ i.split_words (c ∷ s)
      ∙ ap (λ ws. name ∷ (args ++ ws)) (last_word_is c s h)

  line_end : ends_in_colon (before b';' (p ++ c ∷ s)) ≡ false
  line_end =
      ap (λ t. ends_in_colon t) whole_line
      ∙ ap (λ d. d == b':') (back-append p c s)
      ∙ back-word c s h

  module _ (table : InstructionTable) (rs : RegisterMap) where
    -- The first pass counts the opcode and the operands.
    pub layout_words-Instruction :
        (k : Layout) (n opcode : ℕ)
        → args_size rs k.labels (raws ++ (c ∷ s) ∷ []) ≡ ok n
        → find_opcode table name (length (raws ++ (c ∷ s) ∷ [])) ≡ some opcode
        → layout_words table rs (words (before b';' (p ++ c ∷ s))) k ≡ ok (grown (1 + n) k)
    unfolding layout_words instruction_line
    layout_words-Instruction k n opcode e f = rw (raws_are, i.no_colon, i.no_skip, e, f) refl

    -- The second pass writes the code of the instruction.
    pub emit_line-Instruction :
        (labels : Labels) (row : ℕ) {bytes : Bytes}
        → instruction_to_opcode table rs row name (args ++ (c ∷ s) ∷ []) labels ≡ ok bytes
        → emit_line table rs labels row (before b';' (p ++ c ∷ s)) ≡ ok (bytes, true)
    unfolding emit_words
    emit_line-Instruction labels row e =
        let last = ap (λ t. ends_in_colon t) (last_word-append name (c ∷ s) args) in
        emit_line-words table rs labels row (before b';' (p ++ c ∷ s)) name (args ++ (c ∷ s) ∷ [])
          args_are line_end
        ∙ rw (last, back-word c s h, i.no_colon, i.no_skip, e) refl
