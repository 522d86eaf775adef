-- ===== src/Assembler/Passes/Address.antt =====
-- The addresses of the labels of src/Assembler.cpp in the bytes that it writes.
use custom_isa_8bit_vm.Base.{
  Bool-cases, length, Bytes, codes, equal_iff, equal, ℕ, ◌+◌, ◌%◌, ◌^◌, ◌≡◌, refl, sym, ap, ◌∙◌,
  inl, inr, true, some, List, ◌∷◌, ◌++◌, arith,
}
use custom_isa_8bit_vm.Exception.{ok, >>=-eq-ok, ok-injective}
use custom_isa_8bit_vm.Isa.{InstructionTable, RegisterMap}
use custom_isa_8bit_vm.Assembler.Text.{words, lines, before, front}
use custom_isa_8bit_vm.Assembler.Encode.{Labels, find_label, is_some}
use custom_isa_8bit_vm.Assembler.Layout.{Layout, initial, layout_words, layout_lines}
use custom_isa_8bit_vm.Assembler.Emit.{
  emit_lines, with_start, entry_bytes, start_address, asm_to_opcodes,
}
use custom_isa_8bit_vm.Assembler.Passes.Source.{Named, AllLines}
use mathlib.Core.Path.{subst}
use custom_isa_8bit_vm.Assembler.Passes.Lines.{layout_words-labels}
use custom_isa_8bit_vm.Assembler.Passes.Block.{
  label_name, Undefined, layout_lines-append, emit_lines-append, layout_lines-kept, lines-Counted,
}

find_label-with_start :
    (labels : Labels) (name : Bytes) (a : ℕ)
    → find_label labels name ≡ some a
    → find_label (with_start labels) name ≡ some a
unfolding with_start find_label
find_label-with_start labels name a e =
    elim (Bool-cases (is_some (find_label labels (codes "start")))) [
      | inl h ↦ rw h e
      | inr h ↦ elim (Bool-cases (equal (codes "start") name)) [
        | inl k ↦
            let e' = rw (sym ((equal_iff (codes "start") name).0 k)) at e in
            let h' = rw e' at h in cc
        | inr k ↦ rw (h, k) e
      ]
    ]

-- Where a label stands in the bytes of a program: with the lines above it assembled to `front` and
-- those from it on to `behind`, its address is the distance of `behind` from the first byte.
pub record Placed (table : InstructionTable) (rs : RegisterMap) (name : Bytes)
    (above below : List Bytes) (out : Bytes) : Type 0 where
  pub labels : Labels
  pub entry : Bytes
  pub front : Bytes
  pub behind : Bytes
  pub line : ℕ
  pub entry_is : entry ≡ entry_bytes (start_address (find_label labels (codes "start")))
  pub front_is : emit_lines table rs labels 1 above ≡ ok front
  pub behind_is : emit_lines table rs labels line below ≡ ok behind
  pub out_is : out ≡ entry ++ (front ++ behind)
  pub address_is : find_label labels name ≡ some ((2 + length front) % 2 ^ 16)

find_label-first :
    (table : InstructionTable) (rs : RegisterMap) (line name : Bytes) (k : Layout) {m : Layout}
    → label_name line ≡ some name
    → layout_words table rs (words (before b';' line)) k ≡ ok m
    → find_label m.labels name ≡ some (k.dimension % 2 ^ 16)
unfolding find_label
find_label-first table rs line name k d e =
    let same : equal name name ≡ true = (equal_iff name name).1 refl in
    rw (layout_words-labels table rs (words (before b';' line)) k e, d, same) refl

module _ (table : InstructionTable) (rs : RegisterMap) (named_registers : Named rs) where
  find_label-address :
      (labels : Labels) (above : List Bytes) (line name : Bytes) (below : List Bytes) (k : Layout)
      {final : Layout} {front : Bytes}
      → AllLines above
      → label_name line ≡ some name
      → Undefined name below
      → layout_lines table rs above initial ≡ ok k
      → layout_lines table rs (line ∷ below) k ≡ ok final
      → emit_lines table rs labels 1 above ≡ ok front
      → find_label final.labels name ≡ some ((2 + length front) % 2 ^ 16)
  unfolding layout_lines
  find_label-address labels above line name below k {final} {front} h d u e f g =
      let (counted, all_named) =
        lines-Counted table rs named_registers labels above initial 1 h tt (omega arith) e g in
      let (m, here, later) = >>=-eq-ok (layout_words table rs (words (before b';' line)) k) _ f in
      let sum : k.dimension % 2 ^ 16 ≡ (2 + length front) % 2 ^ 16 = omega (arith, counted) in
      layout_lines-kept table rs below m name _ u (find_label-first table rs line name k d here)
        later
      ∙ ap some sum

  Placed-lines :
      (above : List Bytes) (line name : Bytes) (below : List Bytes) (final : Layout)
      (body out : Bytes)
      → AllLines above
      → label_name line ≡ some name
      → Undefined name below
      → layout_lines table rs (above ++ line ∷ below) initial ≡ ok final
      → emit_lines table rs (with_start final.labels) 1 (above ++ line ∷ below) ≡ ok body
      → out
        ≡ entry_bytes (start_address (find_label (with_start final.labels) (codes "start"))) ++ body
      → Placed table rs name above (line ∷ below) out
  Placed-lines above line name below final body out h d u e f g =
      let labels = with_start final.labels in
      let (m, front, behind, front_is, behind_is, body_is) =
        emit_lines-append table rs labels above (line ∷ below) 1 f in
      let (k, first, second) = layout_lines-append table rs above (line ∷ below) initial e in
      record {
        labels = labels;
        entry = entry_bytes (start_address (find_label labels (codes "start")));
        front = front;
        behind = behind;
        line = m;
        entry_is = refl;
        front_is = front_is;
        behind_is = behind_is;
        out_is =
            g
            ∙ ap (λ t. entry_bytes (start_address (find_label labels (codes "start"))) ++ t)
                body_is;
        address_is =
            find_label-with_start final.labels name _
              (find_label-address labels above line name below k h d u first second front_is);
      }

-- Where the lines of a program above a label are well-formed, no register is named like a number or
-- a bracket, and no line below defines the label again: in the bytes that the assembler returns, the
-- address that the second pass writes for the label, in lines above and below it, is modulo 2 ^ 16
-- the number of bytes in front of the code of the lines that stand below the label.
pub asm_to_opcodes-Placed :
    (table : InstructionTable) (rs : RegisterMap) (code : Bytes) (above : List Bytes)
    (line name : Bytes) (below : List Bytes) {out : Bytes}
    → Named rs
    → lines code ≡ above ++ line ∷ below
    → AllLines above
    → label_name line ≡ some name
    → Undefined name below
    → asm_to_opcodes table rs code ≡ ok out
    → Placed table rs name above (line ∷ below) out
unfolding asm_to_opcodes
asm_to_opcodes-Placed table rs code above line name below {out} n s h d u e =
    let (final, f, g) = >>=-eq-ok (layout_lines table rs (lines code) initial) _ e in
    let (body, i, j) =
      >>=-eq-ok (emit_lines table rs (with_start final.labels) 1 (lines code)) _ g in
    Placed-lines table rs n above line name below final body out h d u
      (subst (λ ls. layout_lines table rs ls initial ≡ ok final) s f)
      (subst (λ ls. emit_lines table rs (with_start final.labels) 1 ls ≡ ok body) s i)
      (sym (ok-injective j))
