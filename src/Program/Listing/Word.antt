-- ===== src/Program/Listing/Word.antt =====
-- Texts without spaces, commas, semicolons and colons, as src/Assembler.cpp reads them.
use custom_isa_8bit_vm.Base.{
  ltb, ◌==◌, Bool-cases, Bytes, codes, ℕ, zero, suc, ◌+◌, ◌/◌, ◌%◌, ◌≡◌, refl, ap, ◌∙◌, inl, inr,
  Bool, true, false, not, ◌&&◌, [], ◌∷◌, ◌++◌, arith,
}
use mathlib.Core.List.{append-nil, append_assoc}
use custom_isa_8bit_vm.Assembler.Text.{before, words_from, is_space, back}
use custom_isa_8bit_vm.Assembler.Layout.{drop_comma}
use custom_isa_8bit_vm.Assembler.Emit.{commas_to_spaces}
use custom_isa_8bit_vm.Brainfvck.Format.{decimal, decimal_from}
use custom_isa_8bit_vm.Brainfvck.Translate.{start_label, close_label}

abbrev is_plain : ℕ → Bool
is_plain c = not (is_space c) && (not (c == b',') && (not (c == b';') && not (c == b':')))

abbrev pub is_word : Bytes → Bool
is_word [] = true
is_word (c ∷ s) = is_plain c && is_word s

pub is_word-append : (s t : Bytes) → is_word s ≡ true → is_word t ≡ true → is_word (s ++ t) ≡ true
is_word-append [] t h k = k
is_word-append (c ∷ s) t h k = ground (arith, is_word-append s t)

pub before-word : (s : Bytes) → is_word s ≡ true → before b';' s ≡ s
unfolding before
before-word [] h = refl
before-word (c ∷ s) h = ground (arith, before-word s)

pub commas_to_spaces-word : (s : Bytes) → is_word s ≡ true → commas_to_spaces s ≡ s
unfolding commas_to_spaces
commas_to_spaces-word [] h = refl
commas_to_spaces-word (c ∷ s) h = ground (arith, commas_to_spaces-word s)

plain_head : (c : ℕ) (b : Bool) → (is_plain c && b) ≡ true → (is_space c ≡ false) × (b ≡ true)
plain_head c b h = (ground arith, ground arith)

words_from-word :
    (d : ℕ) (acc s : Bytes) → is_word s ≡ true → words_from (d ∷ acc) s ≡ (d ∷ (acc ++ s)) ∷ []
unfolding words_from
words_from-word d acc [] h = rw (append-nil acc) refl
words_from-word d acc (c ∷ s) h =
    let (no_space, more) = plain_head c (is_word s) h in
    rw no_space (
      words_from-word d (acc ++ c ∷ []) s more
      ∙ ap (λ t. (d ∷ t) ∷ []) (append_assoc acc (c ∷ []) s))

-- A word at the end of a line is the line's last word.
pub last_word_is :
    (c : ℕ) (s : Bytes) → is_word (c ∷ s) ≡ true → words_from [] (c ∷ s) ≡ (c ∷ s) ∷ []
unfolding words_from
last_word_is c s h =
    let (no_space, more) = plain_head c (is_word s) h in
    rw (no_space, words_from) (words_from-word c [] s more)

pub back-word : (c : ℕ) (s : Bytes) → is_word (c ∷ s) ≡ true → (back (c ∷ s) == b':') ≡ false
unfolding back
back-word c [] h = ground arith
back-word c (d ∷ s) h = back-word d s (ground arith)

back_no_comma : (c : ℕ) (s : Bytes) → is_word (c ∷ s) ≡ true → (back (c ∷ s) == b',') ≡ false
unfolding back
back_no_comma c [] h = ground arith
back_no_comma c (d ∷ s) h = back_no_comma d s (ground arith)

pub drop_comma-word : (s : Bytes) → is_word s ≡ true → drop_comma s ≡ s
unfolding back
drop_comma-word [] h = refl
drop_comma-word (c ∷ s) h = rw (back_no_comma c s h) refl

is_word-decimal_from :
    (fuel n : ℕ) (acc : Bytes) → is_word acc ≡ true → is_word (decimal_from fuel n acc) ≡ true
unfolding decimal_from
is_word-decimal_from zero n acc h = h
is_word-decimal_from (suc fuel) n acc h = elim (Bool-cases (ltb n 10)) [
  | inl e ↦ let digit : is_plain (b'0' + n) ≡ true = ground arith in rw (e, digit) h
  | inr e ↦
      let digit : is_plain (b'0' + n % 10) ≡ true = ground arith in
      rw e (is_word-decimal_from fuel (n / 10) ((b'0' + n % 10) ∷ acc) (rw digit h))
]

pub is_word-decimal : (n : ℕ) → is_word (decimal n) ≡ true
unfolding decimal
is_word-decimal n = is_word-decimal_from (suc n) n [] refl

pub is_word-start_label : (id : ℕ) → is_word (start_label id) ≡ true
unfolding start_label
is_word-start_label id = is_word-append (codes "start_par_") (decimal id) refl (is_word-decimal id)

pub is_word-close_label : (id : ℕ) → is_word (close_label id) ≡ true
unfolding close_label
is_word-close_label id = is_word-append (codes "close_par_") (decimal id) refl (is_word-decimal id)
