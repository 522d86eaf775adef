-- ===== src/Assembler/Passes/Count.antt =====
-- The bytes that both passes of src/Assembler.cpp count over lines.
use custom_isa_8bit_vm.Base.{
  length, replicate, length-replicate, Bytes, codes, equal, ℕ, ◌+◌, ◌%◌, ◌<◌, ◌≡◌, refl, sym, ap,
  ◌∙◌, ◌⊎◌, inl, inr, Bool, true, false, none, some, List, [], ◌∷◌, map, arith,
}
use custom_isa_8bit_vm.Exception.{ok, >>=-eq-ok, ok-injective}
use custom_isa_8bit_vm.Isa.{InstructionTable, RegisterMap}
use custom_isa_8bit_vm.Assembler.Text.{words, front, back, pop_back, stoull}
use custom_isa_8bit_vm.Assembler.Encode.{Labels, instruction_to_opcode}
use custom_isa_8bit_vm.Assembler.Layout.{Layout, size_mod, drop_comma, skip_line, layout_words}
use custom_isa_8bit_vm.Assembler.Emit.{
  commas_to_spaces, last_word, skip_codes, emit_words, emit_line,
}
use custom_isa_8bit_vm.Assembler.Passes.Source.{
  is_letter, Named, AllOperands, ends_in_colon, Line, blank, label, skip, instruction,
}
use custom_isa_8bit_vm.Assembler.Passes.Size.{instruction_line-instruction_to_opcode}
use custom_isa_8bit_vm.Assembler.Passes.Lines.{
  label_of, with_label, layout_words-labels, emit_line-blank, emit_line-label, emit_line-words,
}

-- The first pass has counted the bytes that the second one wrote, and knows labels with names.
abbrev pub Counted : Layout → Layout → Bytes → Type 0
Counted l l' code = (l'.dimension ≡ (l.dimension + length code) % size_mod) × Named l'.labels

-- A label without a letter in front is none of a well-formed line.
with_label-Named :
    (ws : List Bytes) (l : Layout)
    → (label_of ws ≡ none)
      ⊎ ((name : Bytes) × (label_of ws ≡ some name) × (is_letter (front name) ≡ true))
    → Named l.labels
    → Named (with_label (label_of ws) l)
with_label-Named ws l (inl e) h = rw e h
with_label-Named ws l (inr (name, e, f)) h = rw e (f, h)

skip_line-skip_codes :
    (size : Bytes) (l : Layout) {l' : Layout} {code : Bytes}
    → skip_line (size ∷ []) l ≡ ok l'
    → skip_codes (size ∷ []) ≡ ok code
    → l'.dimension ≡ (l.dimension + length code) % size_mod
unfolding skip_line skip_codes
skip_line-skip_codes size l {l'} {code} e f =
    let (n, d, e') = >>=-eq-ok (stoull size) _ e in
    let f' = rw d at f in
    let same : code ≡ replicate n 0 = sym (ok-injective f') in
    let zero_byte : ℕ = 0 in
    let sum : length (replicate n zero_byte) ≡ n = length-replicate n zero_byte in
    ap (λ (k : Layout). k.dimension) (sym (ok-injective e')) ∙ rw (same, sum) refl

module _ (table : InstructionTable) (rs : RegisterMap) (named_registers : Named rs)
    (labels : Labels) (line : ℕ) where
  count-nothing :
      (l l' : Layout) {code : Bytes} {counts : Bool} (s : Bytes)
      → l.dimension < size_mod
      → l'.dimension ≡ l.dimension
      → emit_line table rs labels line s ≡ ok ([], false)
      → emit_line table rs labels line s ≡ ok (code, counts)
      → l'.dimension ≡ (l.dimension + length code) % size_mod
  count-nothing l l' {code} s b d e f =
      let same : code ≡ [] = ap (λ (p : Bytes × Bool). p.0) (ok-injective (sym f ∙ e)) in
      rw same (omega (arith, d, b))

  words-dimension :
      (ws : List Bytes) (l : Layout) {l' : Layout}
      → (ws ≡ [])
        ⊎ ((first : Bytes) × (args : List Bytes) × (ws ≡ first ∷ args)
            × (ends_in_colon first ≡ true))
      → layout_words table rs ws l ≡ ok l'
      → l'.dimension ≡ l.dimension
  unfolding layout_words
  words-dimension ws l (inl w) e =
      let e' = rw w at e in ap (λ (k : Layout). k.dimension) (sym (ok-injective e'))
  words-dimension ws l (inr (first, args, w, c)) e =
      let e' = rw (w, c, layout_words) at e in
      ap (λ (k : Layout). k.dimension) (sym (ok-injective e'))

  count-skip :
      (s size : Bytes) (l : Layout) {l' : Layout} {code : Bytes} {counts : Bool}
      → words (commas_to_spaces s) ≡ codes ".skip" ∷ size ∷ []
      → ends_in_colon s ≡ false
      → ends_in_colon size ≡ false
      → layout_words table rs (codes ".skip" ∷ size ∷ []) l ≡ ok l'
      → emit_line table rs labels line s ≡ ok (code, counts)
      → l'.dimension ≡ (l.dimension + length code) % size_mod
  unfolding layout_words emit_words equal back last_word
  count-skip s size l {l'} {code} w a b e f =
      let f' =
        rw (emit_line-words table rs labels line s (codes ".skip") (size ∷ []) w a, b) at f in
      let (zeros, g, f'') = >>=-eq-ok (skip_codes (size ∷ [])) _ f' in
      let same : code ≡ zeros = ap (λ (p : Bytes × Bool). p.0) (sym (ok-injective f'')) in
      rw same (skip_line-skip_codes size l e g)

  count-instruction :
      (s name : Bytes) (args : List Bytes) (l : Layout) {l' : Layout} {code : Bytes} {counts : Bool}
      → words (commas_to_spaces s) ≡ name ∷ map drop_comma args
      → ends_in_colon s ≡ false
      → ends_in_colon name ≡ false
      → ends_in_colon (last_word name (map drop_comma args)) ≡ false
      → equal name (codes ".skip") ≡ false
      → AllOperands args
      → Named l.labels
      → layout_words table rs (name ∷ args) l ≡ ok l'
      → emit_line table rs labels line s ≡ ok (code, counts)
      → l'.dimension ≡ (l.dimension + length code) % size_mod
  unfolding layout_words emit_words
  count-instruction s name args l {l'} {code} w a b c d h n e f =
      let e' = rw (b, d) at e in
      let f' =
        rw (emit_line-words table rs labels line s name (map drop_comma args) w a, b, c, d) at f in
      let (bytes, g, f'') =
        >>=-eq-ok (instruction_to_opcode table rs line name (map drop_comma args) labels) _ f' in
      let same : code ≡ bytes = ap (λ (p : Bytes × Bool). p.0) (sym (ok-injective f'')) in
      rw same (
        ap (λ (k : Layout). k.dimension)
          (instruction_line-instruction_to_opcode rs named_registers labels l.labels n table line
            name args l refl h e' g))

  pub line-Counted :
      (s : Bytes) (l : Layout) {l' : Layout} {code : Bytes} {counts : Bool}
      → Line s
      → Named l.labels
      → l.dimension < size_mod
      → layout_words table rs (words s) l ≡ ok l'
      → emit_line table rs labels line s ≡ ok (code, counts)
      → Counted l l' code
  unfolding back
  line-Counted s l {l'} (blank w v) n b e f = (
    count-nothing l l' s b (words-dimension (words s) l (inl w) e)
        (emit_line-blank table rs labels line s v) f,
    rw (layout_words-labels table rs (words s) l e)
        (with_label-Named (words s) l (inl (rw w refl)) n),
  )
  line-Counted s l {l'} (label first args args' w v c d) n b e f = (
    count-nothing l l' s b (words-dimension (words s) l (inr (first, args, w, c)) e)
        (emit_line-label table rs labels line s first args' v c) f,
    rw (layout_words-labels table rs (words s) l e)
        (with_label-Named (words s) l (inr (pop_back first, rw (w, c) refl, d)) n),
  )
  line-Counted s l (skip size w v a c) n b e f =
      let e' = rw w at e in
      (
        count-skip s size l v a c e' f,
        rw (layout_words-labels table rs (words s) l e)
            (with_label-Named (words s) l (inl (rw w refl)) n),
      )
  line-Counted s l (instruction name args w v a c d g h) n b e f =
      let e' = rw w at e in
      (
        count-instruction s name args l v a c d g h n e' f,
        rw (layout_words-labels table rs (words s) l e)
            (with_label-Named (words s) l (inl (rw (w, c) refl)) n),
      )
