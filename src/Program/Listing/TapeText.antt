-- ===== src/Program/Listing/TapeText.antt =====
-- The lines for the tape in the two passes of src/Assembler.cpp, from their text.
use custom_isa_8bit_vm.Base.{
  length, Bytes, codes, equal, ℕ, suc, ◌+◌, ◌<◌, ◌≡◌, refl, sym, ap, ◌∙◌, true, some, List, [], ◌∷◌,
  ◌++◌, pos, arith,
}
use custom_isa_8bit_vm.Exception.{ok}
use custom_isa_8bit_vm.Isa.{instruction_table, register_map, find_opcode}
use custom_isa_8bit_vm.Assembler.Text.{before, words, words_from, back, contains, is_digit, front}
use custom_isa_8bit_vm.Assembler.Encode.{Labels, instruction_to_opcode}
use custom_isa_8bit_vm.Assembler.Layout.{Layout, args_size, layout_words}
use custom_isa_8bit_vm.Assembler.Emit.{commas_to_spaces, emit_line}
use custom_isa_8bit_vm.Assembler.Passes.Source.{Named}
use custom_isa_8bit_vm.Brainfvck.Format.{format_int, decimal}
use custom_isa_8bit_vm.Brainfvck.Format.Decimal.{decimal_from-front}
use custom_isa_8bit_vm.Program.TapeLines.{
  TapeLine, up, down, raise, lower, times_b, times_c, keep_b, clear, keep_c, add_b, sub_b, add_c,
  text, operands, name, opcode, IsByteLine, code_of,
}
use custom_isa_8bit_vm.Program.Encoded.{find_opcode-name, instruction_to_opcode-code_of}
use custom_isa_8bit_vm.Program.Listing.Word.{is_word, is_word-decimal}
use custom_isa_8bit_vm.Program.Listing.Instruction.{
  Instruction, grown, layout_words-Instruction, emit_line-Instruction,
}
use custom_isa_8bit_vm.Program.Listing.Operands.{first_raw, second, args_size-second}

-- A line with a last word that is not empty, whatever letter it begins with.
module _ (p w name : Bytes) (raws args : List Bytes) (i : Instruction p name raws args)
    (h : is_word w ≡ true) (some_text : 0 < length w) where
  pub counted_line :
      (k : Layout) (n opcode : ℕ)
      → args_size register_map k.labels (raws ++ w ∷ []) ≡ ok n
      → find_opcode instruction_table name (length (raws ++ w ∷ [])) ≡ some opcode
      → layout_words instruction_table register_map (words (before b';' (p ++ w))) k
        ≡ ok (grown (1 + n) k)
  counted_line = by_word w h some_text
    where
      by_word :
          (w : Bytes)
          → is_word w ≡ true
          → 0 < length w
          → (k : Layout) (n opcode : ℕ) → args_size register_map k.labels (raws ++ w ∷ []) ≡ ok n
          → find_opcode instruction_table name (length (raws ++ w ∷ [])) ≡ some opcode
          → layout_words instruction_table register_map (words (before b';' (p ++ w))) k
            ≡ ok (grown (1 + n) k)
      by_word [] h l = absurd (omega (arith, l))
      by_word (c ∷ s) h l =
          layout_words-Instruction p c s name raws args i h instruction_table register_map

  pub written_line :
      (labels : Labels) (row : ℕ) (bytes : Bytes)
      → instruction_to_opcode instruction_table register_map row name (args ++ w ∷ []) labels
        ≡ ok bytes
      → emit_line instruction_table register_map labels row (before b';' (p ++ w))
        ≡ ok (bytes, true)
  written_line = by_word w h some_text
    where
      by_word :
          (w : Bytes)
          → is_word w ≡ true
          → 0 < length w
          → (labels : Labels) (row : ℕ) (bytes : Bytes)
          → instruction_to_opcode instruction_table register_map row name (args ++ w ∷ []) labels
            ≡ ok bytes
          → emit_line instruction_table register_map labels row (before b';' (p ++ w))
            ≡ ok (bytes, true)
      by_word [] h l labels row bytes = absurd (omega (arith, l))
      by_word (c ∷ s) h l labels row bytes =
          emit_line-Instruction p c s name raws args i h instruction_table register_map labels row

-- The text in front of the second operand, and the first operand.
abbrev pub head : TapeLine → Bytes
head (up n) = codes "ADD A, "
head (down n) = codes "SUB A, "
head (raise n) = codes "ADD [A], "
head (lower n) = codes "SUB [A], "
head (times_b n) = codes "MUL B, "
head (times_c n) = codes "MUL C, "
head keep_b = codes "MOV B, "
head clear = codes "MOV [A], "
head keep_c = codes "MOV C, "
head add_b = codes "ADD [A], "
head sub_b = codes "SUB [A], "
head add_c = codes "ADD [A], "

abbrev first : TapeLine → Bytes
first (up n) = codes "A"
first (down n) = codes "A"
first (times_b n) = codes "B"
first (times_c n) = codes "C"
first keep_b = codes "B"
first keep_c = codes "C"
first _ = codes "[A]"

Instruction-head : (l : TapeLine) → Instruction (head l) (name l) (first_raw l ∷ []) (first l ∷ [])
unfolding words words_from back equal contains commas_to_spaces
Instruction-head (up n) = record {
  no_comment = refl;
  raw_words = λ v. refl;
  split_words = λ v. refl;
  no_colon = refl;
  no_skip = refl;
}
Instruction-head _ = record {
  no_comment = refl;
  raw_words = λ v. refl;
  split_words = λ v. refl;
  no_colon = refl;
  no_skip = refl;
}

length-digit : (s : Bytes) → is_digit (front s) ≡ true → 0 < length s
length-digit [] d = ground arith
length-digit (c ∷ s) d = omega arith

number_text : (n : ℕ) → (is_word (format_int (pos n)) ≡ true) × (0 < length (format_int (pos n)))
unfolding format_int decimal
number_text n =
    (is_word-decimal n, length-digit (decimal n) (decimal_from-front (suc n) n [] (omega arith)))

pub second_text : (l : TapeLine) → (is_word (second l) ≡ true) × (0 < length (second l))
second_text (up n) = number_text n
second_text (down n) = number_text n
second_text (raise n) = number_text n
second_text (lower n) = number_text n
second_text (times_b n) = number_text n
second_text (times_c n) = number_text n
second_text keep_b = (refl, omega arith)
second_text _ = (refl, omega arith)

pub text-head : (l : TapeLine) → text l ≡ head l ++ second l
text-head (up n) = refl
text-head _ = refl

operands-first : (l : TapeLine) → operands l ≡ first l ∷ second l ∷ []
operands-first (up n) = refl
operands-first _ = refl

opcode_found : (l : TapeLine) → find_opcode instruction_table (name l) 2 ≡ some (opcode l)
opcode_found l =
    ap (λ xs. find_opcode instruction_table (name l) (length xs)) (sym (operands-first l))
    ∙ find_opcode-name l

-- The first pass counts five bytes for a line, and the second one writes its code.
pub layout_words-text :
    (l : TapeLine) (k : Layout)
    → Named k.labels
    → layout_words instruction_table register_map (words (before b';' (text l))) k ≡ ok (grown 5 k)
layout_words-text l k h =
    let (word, some_text) = second_text l in
    ap (λ t. layout_words instruction_table register_map (words (before b';' t)) k) (text-head l)
    ∙ counted_line (head l) (second l) (name l) (first_raw l ∷ []) (first l ∷ [])
        (Instruction-head l) word some_text k 4 (opcode l) (args_size-second k.labels h l)
        (opcode_found l)

pub emit_line-text :
    (l : TapeLine) (labels : Labels) (row : ℕ)
    → IsByteLine l
    → emit_line instruction_table register_map labels row (before b';' (text l))
      ≡ ok (code_of l, true)
emit_line-text l labels row h =
    let (word, some_text) = second_text l in
    ap (λ t. emit_line instruction_table register_map labels row (before b';' t)) (text-head l)
    ∙ written_line (head l) (second l) (name l) (first_raw l ∷ []) (first l ∷ [])
        (Instruction-head l) word some_text labels row (code_of l)
        (ap (λ xs. instruction_to_opcode instruction_table register_map row (name l) xs labels)
            (sym (operands-first l))
          ∙ instruction_to_opcode-code_of row labels l h)
