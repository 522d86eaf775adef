-- ===== src/Assembler/Passes/Block.antt =====
-- The two passes of src/Assembler.cpp over several lines, and the labels that lines define.
use custom_isa_8bit_vm.Base.{
  if◌then◌else◌, length, length-append, Bytes, equal, ℕ, ◌+◌, ◌%◌, ◌<◌, ◌≡◌, refl, sym, ap, ◌∙◌,
  Bool, false, Option, none, some, List, [], ◌∷◌, ◌++◌, arith,
}
use custom_isa_8bit_vm.Exception.{ok, >>=-eq-ok, ok-injective}
use custom_isa_8bit_vm.Isa.{InstructionTable, RegisterMap}
use custom_isa_8bit_vm.Assembler.Text.{words, before, front}
use custom_isa_8bit_vm.Assembler.Encode.{Labels, find_label}
use custom_isa_8bit_vm.Assembler.Layout.{Layout, size_mod, layout_words, layout_lines}
use custom_isa_8bit_vm.Assembler.Emit.{emit_line, emit_lines}
use custom_isa_8bit_vm.Assembler.Passes.Source.{Named, AllLines}
use mathlib.Core.Path.{subst}
use mathlib.Core.List.{append_assoc}
use custom_isa_8bit_vm.Assembler.Passes.Lines.{label_of, with_label, layout_words-labels}
use custom_isa_8bit_vm.Assembler.Passes.Count.{line-Counted, Counted}

-- The name of the label that a line defines.
abbrev pub label_name : Bytes → Option Bytes
label_name line = label_of (words (before b';' line))

abbrev pub is_name : Option Bytes → Bytes → Bool
is_name none name = false
is_name (some other_name) name = equal other_name name

-- No line defines the label.
abbrev pub Undefined : Bytes → List Bytes → Type 0
Undefined name [] = Unit
Undefined name (line ∷ rest) = (is_name (label_name line) name ≡ false) × Undefined name rest

module _ (table : InstructionTable) (rs : RegisterMap) where
  pub layout_lines-append :
      (xs ys : List Bytes) (l : Layout) {l' : Layout}
      → layout_lines table rs (xs ++ ys) l ≡ ok l'
      → (k : Layout) × (layout_lines table rs xs l ≡ ok k) × (layout_lines table rs ys k ≡ ok l')
  unfolding layout_lines
  layout_lines-append [] ys l e = (l, refl, e)
  layout_lines-append (x ∷ xs) ys l e =
      let (m, f, g) = >>=-eq-ok (layout_words table rs (words (before b';' x)) l) _ e in
      let (k, h, i) = layout_lines-append xs ys m g in (k, rw f h, i)

  pub emit_lines-append :
      (labels : Labels) (xs ys : List Bytes) (n : ℕ) {out : Bytes}
      → emit_lines table rs labels n (xs ++ ys) ≡ ok out
      → (m : ℕ) × (front behind : Bytes) × (emit_lines table rs labels n xs ≡ ok front)
        × (emit_lines table rs labels m ys ≡ ok behind)
        × (out ≡ front ++ behind)
  unfolding emit_lines
  emit_lines-append labels [] ys n {out} e = (n, [], out, refl, e, refl)
  emit_lines-append labels (x ∷ xs) ys n e =
      let (p, f, g) = >>=-eq-ok (emit_line table rs labels n (before b';' x)) _ e in
      let (code, counts) = p in
      let (rest, h, i) =
        >>=-eq-ok (emit_lines table rs labels (if counts then n + 1 else n) (xs ++ ys)) _ g in
      let (m, front, behind, j, k, q) =
        emit_lines-append labels xs ys (if counts then n + 1 else n) h in
      (
        m,
        code ++ front,
        behind,
        rw (f, j) refl,
        k,
        sym (ok-injective i) ∙ ap (λ t. code ++ t) q ∙ sym (append_assoc code front behind),
      )

  find_label-kept :
      (found : Option Bytes) (l : Layout) (name : Bytes) (a : ℕ)
      → is_name found name ≡ false
      → find_label l.labels name ≡ some a
      → find_label (with_label found l) name ≡ some a
  unfolding find_label
  find_label-kept none l name a d h = h
  find_label-kept (some first) l name a d h = rw d h

  pub layout_lines-kept :
      (rest : List Bytes) (l : Layout) {l' : Layout} (name : Bytes) (a : ℕ)
      → Undefined name rest
      → find_label l.labels name ≡ some a
      → layout_lines table rs rest l ≡ ok l'
      → find_label l'.labels name ≡ some a
  unfolding layout_lines
  layout_lines-kept [] l name a u h e =
      subst (λ (k : Layout). find_label k.labels name ≡ some a) (ok-injective e) h
  layout_lines-kept (x ∷ rest) l name a u h e =
      let ws = words (before b';' x) in
      let (m, f, g) = >>=-eq-ok (layout_words table rs ws l) _ e in
      layout_lines-kept rest m name a u.1
        (rw (layout_words-labels table rs ws l f) (find_label-kept (label_of ws) l name a u.0 h)) g

  module _ (named_registers : Named rs) (labels : Labels) where
    pub lines-Counted :
        (ls : List Bytes) (l : Layout) {l' : Layout} (n : ℕ) {code : Bytes}
        → AllLines ls
        → Named l.labels
        → l.dimension < size_mod
        → layout_lines table rs ls l ≡ ok l'
        → emit_lines table rs labels n ls ≡ ok code
        → Counted l l' code
    unfolding layout_lines emit_lines
    lines-Counted [] l n {code} h d b e f =
        let none_out : length code ≡ 0 = rw (sym (ok-injective f)) refl in
        subst (λ (k : Layout). Counted l k code) (ok-injective e) (omega (arith, b, none_out), d)
    lines-Counted (x ∷ ls) l {l'} n {code} h d b e f =
        let (m, g, e') = >>=-eq-ok (layout_words table rs (words (before b';' x)) l) _ e in
        let (p, i, f') = >>=-eq-ok (emit_line table rs labels n (before b';' x)) _ f in
        let (bytes, counts) = p in
        let (rest, j, f'') =
          >>=-eq-ok (emit_lines table rs labels (if counts then n + 1 else n) ls) _ f' in
        let (first, named_first) =
          line-Counted table rs named_registers labels n (before b';' x) l h.0 d b g i in
        let (later, named_later) =
          lines-Counted ls m (if counts then n + 1 else n) h.1 named_first (omega (arith, first)) e'
            j in
        let same : code ≡ bytes ++ rest = sym (ok-injective f'') in
        let count = length-append bytes rest in
        let sum : l'.dimension ≡ (l.dimension + length (bytes ++ rest)) % size_mod =
          omega (arith, first, later, count) in
        (rw same sum, named_later)
