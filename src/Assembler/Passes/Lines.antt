-- ===== src/Assembler/Passes/Lines.antt =====
-- The two passes of src/Assembler.cpp over a line, and over lines.
use custom_isa_8bit_vm.Base.{
  if◌then◌else◌, Bool-cases, length, Bytes, codes, equal, ℕ, ◌+◌, ◌%◌, ◌^◌, ◌≡◌, refl, sym, ap, inl,
  inr, Bool, true, false, Option, none, some, List, [], ◌∷◌, arith,
}
use custom_isa_8bit_vm.Exception.{ok, err, >>=-eq-ok, ok-injective}
use custom_isa_8bit_vm.Isa.{InstructionTable, RegisterMap, find_opcode}
use custom_isa_8bit_vm.Exception.{invalid_mnemonic}
use custom_isa_8bit_vm.Assembler.Text.{words, words_from, pop_back, stoull}
use custom_isa_8bit_vm.Assembler.Encode.{Labels}
use custom_isa_8bit_vm.Assembler.Layout.{
  Layout, size_mod, args_size, skip_line, instruction_line, layout_words,
}
use custom_isa_8bit_vm.Assembler.Emit.{commas_to_spaces, emit_words, emit_line}
use custom_isa_8bit_vm.Assembler.Passes.Source.{ends_in_colon}

if_same {ℓ} : {A : Type ℓ} (b : Bool) (x : A) → (if b then x else x) ≡ x
if_same true x = refl
if_same false x = refl

-- The label that a line of words defines.
abbrev pub label_of : List Bytes → Option Bytes
label_of [] = none
label_of (first ∷ args) = if ends_in_colon first then some (pop_back first) else none

no_codes-words :
    (table : InstructionTable) (rs : RegisterMap) (labels : Labels) (line : ℕ) (first : Bytes)
    (args : List Bytes)
    → ends_in_colon first ≡ true
    → emit_words table rs labels line (first ∷ args) ≡ ok ([], false)
unfolding emit_words
no_codes-words table rs labels line first args e = ground arith

module _ (table : InstructionTable) (rs : RegisterMap) (labels : Labels) (line : ℕ) where
  pub emit_line-blank :
      (s : Bytes)
      → words (commas_to_spaces s) ≡ []
      → emit_line table rs labels line s ≡ ok ([], false)
  unfolding emit_line
  emit_line-blank [] e = refl
  emit_line-blank (c ∷ s) e = rw (e, emit_words) (if_same (ends_in_colon (c ∷ s)) (ok ([], false)))

  pub emit_line-label :
      (s first : Bytes) (args : List Bytes)
      → words (commas_to_spaces s) ≡ first ∷ args
      → ends_in_colon first ≡ true
      → emit_line table rs labels line s ≡ ok ([], false)
  unfolding emit_line
  emit_line-label [] first args e f = refl
  emit_line-label (c ∷ s) first args e f =
      rw (e, no_codes-words table rs labels line first args f)
        (if_same (ends_in_colon (c ∷ s)) (ok ([], false)))

  pub emit_line-words :
      (s first : Bytes) (args : List Bytes)
      → words (commas_to_spaces s) ≡ first ∷ args
      → ends_in_colon s ≡ false
      → emit_line table rs labels line s ≡ emit_words table rs labels line (first ∷ args)
  unfolding emit_line commas_to_spaces words words_from
  emit_line-words [] first args e f = cc
  emit_line-words (c ∷ s) first args e f = rw (f, e) refl

-- The labels below a line that defines a label, or none.
abbrev pub with_label : Option Bytes → Layout → Labels
with_label none l = l.labels
with_label (some name) l = (name, l.dimension % 2 ^ 16) ∷ l.labels

skip_line-labels :
    (args : List Bytes) (l : Layout) {l' : Layout} → skip_line args l ≡ ok l' → l'.labels ≡ l.labels
unfolding skip_line
skip_line-labels [] l e = cc
skip_line-labels (size ∷ args) l e =
    let (n, f, g) = >>=-eq-ok (stoull size) _ e in
    ap (λ (k : Layout). k.labels) (sym (ok-injective g))

module _ (table : InstructionTable) (rs : RegisterMap) where
  instruction_line-labels :
      (name : Bytes) (args : List Bytes) (l : Layout) {l' : Layout}
      → instruction_line table rs name args l ≡ ok l'
      → l'.labels ≡ l.labels
  unfolding instruction_line
  instruction_line-labels name args l {l'} e =
      let (n, f, g) = >>=-eq-ok (args_size rs l.labels args) _ e in
      by_opcode n (find_opcode table name (length args)) refl g
    where
      by_opcode :
          (n : ℕ) (found : Option ℕ)
          → find_opcode table name (length args) ≡ found
          → elim (find_opcode table name (length args)) [
            | none ↦ err (invalid_mnemonic l.line_number name)
            | some opcode ↦ ok (record l {
              dimension = (l.dimension + (1 + n)) % size_mod;
              line_number = l.line_number + 1;
            })
          ]
            ≡ ok l'
          → l'.labels ≡ l.labels
      by_opcode n none h g = let g' = rw h at g in cc
      by_opcode n (some opcode) h g =
          let g' = rw h at g in ap (λ (k : Layout). k.labels) (sym (ok-injective g'))

  pub layout_words-labels :
      (ws : List Bytes) (l : Layout) {l' : Layout}
      → layout_words table rs ws l ≡ ok l'
      → l'.labels ≡ with_label (label_of ws) l
  unfolding layout_words
  layout_words-labels [] l e = ap (λ (k : Layout). k.labels) (sym (ok-injective e))
  layout_words-labels (first ∷ args) l {l'} e = elim (Bool-cases (ends_in_colon first)) [
    | inl h ↦ let e' = rw h at e in rw h (ap (λ (k : Layout). k.labels) (sym (ok-injective e')))
    | inr h ↦
        let e' = rw h at e in
        rw h (elim (Bool-cases (equal first (codes ".skip"))) [
          | inl k ↦ let e'' = rw k at e' in skip_line-labels args l e''
          | inr k ↦ let e'' = rw k at e' in instruction_line-labels first args l e''
        ])
  ]
