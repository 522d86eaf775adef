-- ===== src/Program/Listing/SecondPass.antt =====
-- The second pass of src/Assembler.cpp over the lines of a program.
use custom_isa_8bit_vm.Base.{
  Bytes, codes, ℕ, ◌+◌, ◌^◌, ◌<◌, ◌≡◌, refl, sym, true, some, List, [], ◌∷◌, ◌++◌, arith,
}
use mathlib.Core.List.{append_assoc}
use mathlib.Core.Path.{subst}
use custom_isa_8bit_vm.Exception.{ok}
use custom_isa_8bit_vm.Isa.{instruction_table, register_map}
use custom_isa_8bit_vm.Assembler.Text.{before}
use custom_isa_8bit_vm.Assembler.Encode.{Labels, find_label}
use custom_isa_8bit_vm.Assembler.Emit.{emit_line, emit_lines}
use custom_isa_8bit_vm.Brainfvck.Translate.{start_label, close_label}
use custom_isa_8bit_vm.Program.TapeLines.{text, code_of}
use custom_isa_8bit_vm.Program.Tree.{
  Tree, done, line, show, enter, while, size, code, compare_code, jump_code, AllBytes,
}
use custom_isa_8bit_vm.Program.Tree.Parts.{closing}
use custom_isa_8bit_vm.Program.Listing.{tree_lines}
use custom_isa_8bit_vm.Program.Listing.TapeText.{emit_line-text}
use custom_isa_8bit_vm.Program.Listing.LoopText.{LoopLabel, opens, closes}
use custom_isa_8bit_vm.Program.Listing.LoopLines.{
  jump-Writes, jump_back-Writes, compare-Writes, show-Writes, enter-Writes,
}
use custom_isa_8bit_vm.Program.Listing.LabelLine.{emit_line-label}
use custom_isa_8bit_vm.Program.Listing.Known.{Knows}

module _ (labels : Labels) where
  -- The lines are written as these bytes, whatever the row.
  abbrev pub Emits : List Bytes → Bytes → Type 0
  Emits ls code = (row : ℕ) → emit_lines instruction_table register_map labels row ls ≡ ok code

  pub Emits-line :
      (s : Bytes) (ls : List Bytes) (code rest : Bytes)
      → ((row : ℕ)
          → emit_line instruction_table register_map labels row (before b';' s) ≡ ok (code, true))
      → Emits ls rest
      → Emits (s ∷ ls) (code ++ rest)
  unfolding emit_lines
  Emits-line s ls code rest e f row = rw (e row, f (row + 1)) refl

  pub Emits-label :
      (s : Bytes) (ls : List Bytes) (rest : Bytes)
      → LoopLabel s
      → Emits ls rest
      → Emits ((s ++ codes ":") ∷ ls) rest
  unfolding emit_lines
  Emits-label s ls rest l f row = rw (emit_line-label s labels row l, f row) refl

  Emits-jump :
      (s : Bytes) (a : ℕ) (ls : List Bytes) (rest : Bytes)
      → LoopLabel s
      → find_label labels s ≡ some a
      → a < 2 ^ 16
      → Emits ls rest
      → Emits
          (codes "CMP [A], 0" ∷ (codes "JE " ++ s) ∷ ls)
          (compare_code ++ (jump_code 0x41 a ++ rest))
  Emits-jump s a ls rest l e h f =
      Emits-line (codes "CMP [A], 0") ((codes "JE " ++ s) ∷ ls) compare_code _
        (compare-Writes labels)
        (Emits-line (codes "JE " ++ s) ls (jump_code 0x41 a) rest
          (λ row. jump-Writes labels row s a l e h) f)

  Emits-jump_back :
      (s : Bytes) (a : ℕ) (ls : List Bytes) (rest : Bytes)
      → LoopLabel s
      → find_label labels s ≡ some a
      → a < 2 ^ 16
      → Emits ls rest
      → Emits
          (codes "CMP [A], 0" ∷ (codes "JNE " ++ s) ∷ ls)
          (compare_code ++ (jump_code 0x51 a ++ rest))
  Emits-jump_back s a ls rest l e h f =
      Emits-line (codes "CMP [A], 0") ((codes "JNE " ++ s) ∷ ls) compare_code _
        (compare-Writes labels)
        (Emits-line (codes "JNE " ++ s) ls (jump_code 0x51 a) rest
          (λ row. jump_back-Writes labels row s a l e h) f)

  pub tree_lines-code :
      (t : Tree) (a : ℕ) (more : List Bytes) (rest : Bytes)
      → Knows labels a t
      → AllBytes t
      → a + size t < 2 ^ 16
      → Emits more rest
      → Emits (tree_lines t ++ more) (code a t ++ rest)
  unfolding tree_lines code size Knows
  tree_lines-code done a more rest k b h f = f
  tree_lines-code (line l t) a more rest k b h f =
      Emits-line (text l) (tree_lines t ++ more) (code_of l) (code (a + 5) t ++ rest)
        (λ row. emit_line-text l labels row b.0)
        (tree_lines-code t (a + 5) more rest k b.1 (omega (arith, h)) f)
  tree_lines-code (show t) a more rest k b h f =
      Emits-line (codes "PRINT [A]") (tree_lines t ++ more) (0x01 ∷ 3 ∷ 1 ∷ [])
        (code (a + 3) t ++ rest) (show-Writes labels)
        (tree_lines-code t (a + 3) more rest k b (omega (arith, h)) f)
  tree_lines-code (enter t) a more rest k b h f =
      Emits-line (codes "INPUT [A]") (tree_lines t ++ more) (0x21 ∷ 3 ∷ 1 ∷ [])
        (code (a + 3) t ++ rest) (enter-Writes labels)
        (tree_lines-code t (a + 3) more rest k b (omega (arith, h)) f)
  tree_lines-code (while id body t) a more rest k b h f =
      let opening = start_label id in
      let close = close_label id in
      let foot =
        (close ++ codes ":") ∷ codes "CMP [A], 0" ∷ (codes "JNE " ++ opening) ∷ tree_lines t in
      let foot_code = compare_code ++ (jump_code 0x51 a ++ code (closing a body + 9) t) in
      let behind : Emits (foot ++ more) (foot_code ++ rest) =
        Emits-label close (codes "CMP [A], 0" ∷ (codes "JNE " ++ opening) ∷ (tree_lines t ++ more))
          (foot_code ++ rest) (closes id)
          (Emits-jump_back opening a (tree_lines t ++ more) (code (closing a body + 9) t ++ rest)
            (opens id) k.0 (omega (arith, h))
            (tree_lines-code t (closing a body + 9) more rest k.1.1.1 b.1 (omega (arith, h)) f)) in
      let inner =
        tree_lines-code body (a + 9) (foot ++ more) (foot_code ++ rest) k.1.1.0 b.0
          (omega (arith, h)) behind in
      let regrouped : Emits ((tree_lines body ++ foot) ++ more)
          ((code (a + 9) body ++ foot_code) ++ rest) =
        subst (λ ls. Emits ls ((code (a + 9) body ++ foot_code) ++ rest))
          (sym (append_assoc (tree_lines body) foot more))
          (subst (Emits (tree_lines body ++ (foot ++ more)))
            (sym (append_assoc (code (a + 9) body) foot_code rest)) inner) in
      Emits-label opening
        (codes "CMP [A], 0" ∷ (codes "JE " ++ close) ∷ ((tree_lines body ++ foot) ++ more)) _
        (opens id)
        (Emits-jump close (closing a body) ((tree_lines body ++ foot) ++ more)
          ((code (a + 9) body ++ foot_code) ++ rest) (closes id) k.1.0 (omega (arith, h)) regrouped)
