-- ===== src/Program/Listing/FirstPass.antt =====
-- The first pass of src/Assembler.cpp over the lines of a program.
use custom_isa_8bit_vm.Base.{
  Bytes, codes, ◌+◌, ◌^◌, ◌<◌, ◌≡◌, refl, ap, ◌∙◌, List, ◌∷◌, ◌++◌, arith,
}
use mathlib.Core.List.{append_assoc}
use custom_isa_8bit_vm.Exception.{ok}
use custom_isa_8bit_vm.Isa.{instruction_table, register_map}
use custom_isa_8bit_vm.Assembler.Text.{before, words}
use custom_isa_8bit_vm.Assembler.Layout.{Layout, layout_words, layout_lines}
use custom_isa_8bit_vm.Assembler.Passes.Source.{Named}
use custom_isa_8bit_vm.Brainfvck.Translate.{start_label, close_label}
use custom_isa_8bit_vm.Program.TapeLines.{text}
use custom_isa_8bit_vm.Program.Tree.{Tree, done, line, show, enter, while, size}
use custom_isa_8bit_vm.Program.Listing.{tree_lines}
use custom_isa_8bit_vm.Program.Listing.Instruction.{grown}
use custom_isa_8bit_vm.Program.Listing.TapeText.{layout_words-text}
use custom_isa_8bit_vm.Program.Listing.LoopText.{LoopLabel, opens, closes}
use custom_isa_8bit_vm.Program.Listing.LoopLines.{
  jump-Counts, jump_back-Counts, compare-Counts, show-Counts, enter-Counts,
}
use custom_isa_8bit_vm.Program.Listing.LabelLine.{labelled, layout_words-label}
use custom_isa_8bit_vm.Program.Listing.Known.{laid}

pub laid-Named : (t : Tree) (k : Layout) → Named k.labels → Named (laid t k).labels
unfolding laid start_label close_label
laid-Named done k h = h
laid-Named (line l rest) k h = laid-Named rest (grown 5 k) h
laid-Named (show rest) k h = laid-Named rest (grown 3 k) h
laid-Named (enter rest) k h = laid-Named rest (grown 3 k) h
laid-Named (while id body rest) k h =
    let k2 = grown 4 (grown 5 (labelled (start_label id) k)) in
    laid-Named rest (grown 4 (grown 5 (labelled (close_label id) (laid body k2))))
      (refl, laid-Named body k2 (refl, h))

pub laid-dimension :
    (t : Tree) (k : Layout)
    → k.dimension + size t < 2 ^ 16
    → (laid t k).dimension ≡ k.dimension + size t
unfolding laid size
laid-dimension done k h = omega arith
laid-dimension (line l rest) k h =
    omega (arith, h, laid-dimension rest (grown 5 k) (omega (arith, h)))
laid-dimension (show rest) k h =
    omega (arith, h, laid-dimension rest (grown 3 k) (omega (arith, h)))
laid-dimension (enter rest) k h =
    omega (arith, h, laid-dimension rest (grown 3 k) (omega (arith, h)))
laid-dimension (while id body rest) k h =
    let k2 = grown 4 (grown 5 (labelled (start_label id) k)) in
    let kb = laid body k2 in
    let k5 = grown 4 (grown 5 (labelled (close_label id) kb)) in
    let first : k2.dimension ≡ k.dimension + 9 = omega (arith, h) in
    let inner = laid-dimension body k2 (omega (arith, h, first)) in
    let second : k5.dimension ≡ k.dimension + 9 + size body + 9 = omega (arith, h, first, inner) in
    omega (arith, second, laid-dimension rest k5 (omega (arith, h, second)))

layout_lines-cons :
    (s : Bytes) (ls : List Bytes) (k k' : Layout)
    → layout_words instruction_table register_map (words (before b';' s)) k ≡ ok k'
    → layout_lines instruction_table register_map (s ∷ ls) k
      ≡ layout_lines instruction_table register_map ls k'
unfolding layout_lines
layout_lines-cons s ls k k' e = rw e refl

-- The three lines at a label: the label, the comparison and the jump.
three_lines :
    (s jump : Bytes) (ls : List Bytes) (k : Layout)
    → LoopLabel s
    → Named (labelled s k).labels
    → ((j : Layout)
        → layout_words instruction_table register_map (words (before b';' jump)) j ≡ ok (grown 4 j))
    → layout_lines instruction_table register_map
        ((s ++ codes ":") ∷ codes "CMP [A], 0" ∷ jump ∷ ls)
        k
      ≡ layout_lines instruction_table register_map ls (grown 4 (grown 5 (labelled s k)))
three_lines s jump ls k l n j =
    layout_lines-cons (s ++ codes ":") (codes "CMP [A], 0" ∷ jump ∷ ls) k (labelled s k)
      (layout_words-label s k l)
    ∙ layout_lines-cons (codes "CMP [A], 0") (jump ∷ ls) (labelled s k) (grown 5 (labelled s k))
        (compare-Counts (labelled s k) n)
    ∙ layout_lines-cons jump ls (grown 5 (labelled s k)) _ (j (grown 5 (labelled s k)))

pub layout_lines-laid :
    (t : Tree) (more : List Bytes) (k : Layout)
    → Named k.labels
    → layout_lines instruction_table register_map (tree_lines t ++ more) k
      ≡ layout_lines instruction_table register_map more (laid t k)
unfolding tree_lines laid start_label close_label
layout_lines-laid done more k h = refl
layout_lines-laid (line l rest) more k h =
    layout_lines-cons (text l) (tree_lines rest ++ more) k (grown 5 k) (layout_words-text l k h)
    ∙ layout_lines-laid rest more (grown 5 k) h
layout_lines-laid (show rest) more k h =
    layout_lines-cons (codes "PRINT [A]") (tree_lines rest ++ more) k (grown 3 k) (show-Counts k h)
    ∙ layout_lines-laid rest more (grown 3 k) h
layout_lines-laid (enter rest) more k h =
    layout_lines-cons (codes "INPUT [A]") (tree_lines rest ++ more) k (grown 3 k) (enter-Counts k h)
    ∙ layout_lines-laid rest more (grown 3 k) h
layout_lines-laid (while id body rest) more k h =
    let opening = start_label id in
    let close = close_label id in
    let behind =
      (close ++ codes ":") ∷ codes "CMP [A], 0" ∷ (codes "JNE " ++ opening) ∷ tree_lines rest in
    let k2 = grown 4 (grown 5 (labelled opening k)) in
    let kb = laid body k2 in
    let n2 : Named k2.labels = (refl, h) in
    let nb = laid-Named body k2 n2 in
    let k5 = grown 4 (grown 5 (labelled close kb)) in
    three_lines opening (codes "JE " ++ close) ((tree_lines body ++ behind) ++ more) k (opens id) n2
      (λ j. jump-Counts close j (closes id))
    ∙ ap (λ ls. layout_lines instruction_table register_map ls k2)
        (append_assoc (tree_lines body) behind more)
    ∙ layout_lines-laid body (behind ++ more) k2 n2
    ∙ three_lines close (codes "JNE " ++ opening) (tree_lines rest ++ more) kb (closes id)
        (refl, nb) (λ j. jump_back-Counts opening j (opens id))
    ∙ layout_lines-laid rest more k5 (refl, nb)
