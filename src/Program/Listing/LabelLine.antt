-- ===== src/Program/Listing/LabelLine.antt =====
-- The labels of a loop as lines in the two passes of src/Assembler.cpp.
use custom_isa_8bit_vm.Base.{
  Bool-cases, inl, inr, length, Bytes, codes, equal, equal_iff, ℕ, ◌+◌, ◌%◌, ◌^◌, ◌<◌, ◌≡◌, ◌≢◌,
  refl, sym, ap, ◌∙◌, true, false, [], ◌∷◌, ◌++◌, arith,
}
use mathlib.Core.List.{append_assoc}
use custom_isa_8bit_vm.Exception.{ok}
use custom_isa_8bit_vm.Isa.{instruction_table, register_map}
use custom_isa_8bit_vm.Assembler.Text.{
  before, words, words_from, is_space, back, pop_back, prefix_number,
}
use custom_isa_8bit_vm.Assembler.Encode.{Labels}
use custom_isa_8bit_vm.Assembler.Layout.{Layout, layout_words}
use custom_isa_8bit_vm.Assembler.Emit.{emit_line}
use custom_isa_8bit_vm.Brainfvck.Format.{decimal}
use custom_isa_8bit_vm.Brainfvck.Format.Decimal.{prefix_number-decimal}
use custom_isa_8bit_vm.Brainfvck.Translate.{start_label, close_label}
use custom_isa_8bit_vm.Program.Listing.Word.{is_word}
use custom_isa_8bit_vm.Program.Listing.LoopText.{LoopLabel, label_word, label_some}

-- The layout behind a label.
abbrev pub labelled : Bytes → Layout → Layout
labelled name k = record k {
  labels = (name, k.dimension % 2 ^ 16) ∷ k.labels;
  line_number = k.line_number + 1;
}

before-label : (s : Bytes) → is_word s ≡ true → before b';' (s ++ codes ":") ≡ s ++ codes ":"
unfolding before
before-label [] h = refl
before-label (c ∷ s) h = ground (arith, before-label s)

back-label : (s : Bytes) → back (s ++ codes ":") ≡ b':'
unfolding back
back-label [] = refl
back-label (c ∷ []) = refl
back-label (c ∷ d ∷ s) = back-label (d ∷ s)

pop_back-label : (s : Bytes) → pop_back (s ++ codes ":") ≡ s
unfolding pop_back
pop_back-label [] = refl
pop_back-label (c ∷ []) = refl
pop_back-label (c ∷ d ∷ s) = ap (λ t. c ∷ t) (pop_back-label (d ∷ s))

no_space : (c : ℕ) (s : Bytes) → is_word (c ∷ s) ≡ true → (is_space c ≡ false) × (is_word s ≡ true)
no_space c s h = (ground arith, ground arith)

words_from-label :
    (d : ℕ) (acc s : Bytes)
    → is_word s ≡ true
    → words_from (d ∷ acc) (s ++ codes ":") ≡ (d ∷ (acc ++ (s ++ codes ":"))) ∷ []
unfolding words_from
words_from-label d acc [] h = refl
words_from-label d acc (c ∷ s) h =
    let (space, more) = no_space c s h in
    rw (space, words_from)
      (words_from-label d (acc ++ c ∷ []) s more
        ∙ ap (λ t. (d ∷ t) ∷ []) (append_assoc acc (c ∷ []) (s ++ codes ":")))

words-label :
    (s : Bytes) → is_word s ≡ true → 0 < length s → words (s ++ codes ":") ≡ (s ++ codes ":") ∷ []
unfolding words words_from
words-label [] h l = absurd (omega (arith, l))
words-label (c ∷ s) h l =
    let (space, more) = no_space c s h in rw (space, words_from) (words_from-label c [] s more)

-- The first pass knows the label from here on, and the second one writes nothing.
pub layout_words-label :
    (s : Bytes) (k : Layout)
    → LoopLabel s
    → layout_words instruction_table register_map (words (before b';' (s ++ codes ":"))) k
      ≡ ok (labelled s k)
unfolding layout_words
layout_words-label s k l =
    rw
      (
        before-label s (label_word s l),
        words-label s (label_word s l) (label_some s l),
        back-label s,
        pop_back-label s,
      )
      refl

pub emit_line-label :
    (s : Bytes) (labels : Labels) (row : ℕ)
    → LoopLabel s
    → emit_line instruction_table register_map labels row (before b';' (s ++ codes ":"))
      ≡ ok ([], false)
unfolding emit_line
emit_line-label s labels row l =
    ap (emit_line instruction_table register_map labels row) (before-label s (label_word s l))
    ∙ by_word s (label_some s l)
  where
    by_word :
        (s : Bytes)
        → 0 < length s
        → emit_line instruction_table register_map labels row (s ++ codes ":") ≡ ok ([], false)
    by_word [] h = absurd (omega (arith, h))
    by_word (c ∷ s) h = rw (emit_line, back-label (c ∷ s)) refl

-- Labels with different numbers differ, and those of the two ends of loops do.
decimal_injective : {i j : ℕ} → decimal i ≡ decimal j → i ≡ j
decimal_injective {i} {j} e =
    let same = sym (prefix_number-decimal i) ∙ ap prefix_number e ∙ prefix_number-decimal j in
    cc same

tails : (i j : ℕ) → i ≢ j → equal (decimal i) (decimal j) ≡ false
tails i j n = elim (Bool-cases (equal (decimal i) (decimal j))) [
  | inl e ↦ absurd (n (decimal_injective ((equal_iff (decimal i) (decimal j)).0 e)))
  | inr e ↦ e
]

pub start-start : (i j : ℕ) → i ≢ j → equal (start_label i) (start_label j) ≡ false
unfolding start_label equal
start-start i j n = tails i j n

pub close-close : (i j : ℕ) → i ≢ j → equal (close_label i) (close_label j) ≡ false
unfolding close_label equal
close-close i j n = tails i j n

pub start-close : (i j : ℕ) → equal (start_label i) (close_label j) ≡ false
unfolding start_label close_label equal
start-close i j = refl

pub close-start : (i j : ℕ) → equal (close_label i) (start_label j) ≡ false
unfolding start_label close_label equal
close-start i j = refl
