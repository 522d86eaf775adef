-- ===== src/Program/Listing/Newlines.antt =====
-- The lines of a program hold no newline, so that src/Assembler.cpp reads them as they were written.
use custom_isa_8bit_vm.Base.{
  ◌==◌, Bytes, codes, ◌≡◌, refl, sym, Bool, true, not, ◌&&◌, List, [], ◌∷◌, ◌++◌, arith,
}
use mathlib.Core.Path.{subst}
use custom_isa_8bit_vm.Assembler.Emit.FileLines.{IsLine, AllLines}
use custom_isa_8bit_vm.Brainfvck.Translate.{start_label, close_label}
use custom_isa_8bit_vm.Program.TapeLines.{TapeLine, up, text}
use custom_isa_8bit_vm.Program.Tree.{Tree, done, line, show, enter, while}
use custom_isa_8bit_vm.Program.Listing.{tree_lines, listing}
use custom_isa_8bit_vm.Program.Listing.Word.{is_word}
use custom_isa_8bit_vm.Program.Listing.TapeText.{head, text-head, second_text}
use custom_isa_8bit_vm.Program.Listing.Operands.{second}
use custom_isa_8bit_vm.Program.Listing.LoopText.{LoopLabel, opens, closes, label_word}

abbrev one_line : Bytes → Bool
one_line [] = true
one_line (c ∷ s) = not (c == b'\n') && one_line s

one_line-IsLine : (s : Bytes) → one_line s ≡ true → IsLine s
one_line-IsLine [] h = tt
one_line-IsLine (c ∷ s) h = (ground arith, one_line-IsLine s (ground arith))

IsLine-word : (s : Bytes) → is_word s ≡ true → IsLine s
IsLine-word [] h = tt
IsLine-word (c ∷ s) h = (ground arith, IsLine-word s (ground arith))

IsLine-append : (s t : Bytes) → IsLine s → IsLine t → IsLine (s ++ t)
IsLine-append [] t h k = k
IsLine-append (c ∷ s) t h k = (h.0, IsLine-append s t h.1 k)

AllLines-append : (xs ys : List Bytes) → AllLines xs → AllLines ys → AllLines (xs ++ ys)
AllLines-append [] ys h k = k
AllLines-append (x ∷ xs) ys h k = (h.0, AllLines-append xs ys h.1 k)

head-one_line : (l : TapeLine) → one_line (head l) ≡ true
head-one_line (up n) = refl
head-one_line _ = refl

head-IsLine : (l : TapeLine) → IsLine (head l)
head-IsLine l = one_line-IsLine (head l) (head-one_line l)

text-IsLine : (l : TapeLine) → IsLine (text l)
text-IsLine l =
    subst IsLine (sym (text-head l))
      (IsLine-append (head l) (second l) (head-IsLine l) (IsLine-word (second l) (second_text l).0))

label-IsLine : (s : Bytes) → LoopLabel s → IsLine (s ++ codes ":")
label-IsLine s l =
    IsLine-append s (codes ":") (IsLine-word s (label_word s l)) (one_line-IsLine (codes ":") refl)

tree_lines-AllLines : (t : Tree) → AllLines (tree_lines t)
unfolding tree_lines start_label close_label
tree_lines-AllLines done = tt
tree_lines-AllLines (line l rest) = (text-IsLine l, tree_lines-AllLines rest)
tree_lines-AllLines (show rest) =
    (one_line-IsLine (codes "PRINT [A]") refl, tree_lines-AllLines rest)
tree_lines-AllLines (enter rest) =
    (one_line-IsLine (codes "INPUT [A]") refl, tree_lines-AllLines rest)
tree_lines-AllLines (while id body rest) =
    let opening = start_label id in
    let close = close_label id in
    (
      label-IsLine opening (opens id),
      (
        one_line-IsLine (codes "CMP [A], 0") refl,
        (
          IsLine-append (codes "JE ") close (one_line-IsLine (codes "JE ") refl)
              (IsLine-word close (label_word close (closes id))),
          AllLines-append (tree_lines body)
              ((close ++ codes ":")
                ∷ codes "CMP [A], 0"
                ∷ (codes "JNE " ++ opening)
                ∷ tree_lines rest)
              (tree_lines-AllLines body)
              (
                label-IsLine close (closes id),
                (
                  one_line-IsLine (codes "CMP [A], 0") refl,
                  (
                    IsLine-append (codes "JNE ") opening (one_line-IsLine (codes "JNE ") refl)
                        (IsLine-word opening (label_word opening (opens id))),
                    tree_lines-AllLines rest,
                  ),
                ),
              ),
        ),
      ),
    )

pub listing-AllLines : (t : Tree) → AllLines (listing t)
unfolding listing
listing-AllLines t = (
  one_line-IsLine (codes ".skip 30000") refl,
  (
    one_line-IsLine (codes "start:") refl,
    (
      one_line-IsLine (codes "MOV A, 2") refl,
      AllLines-append (tree_lines t) (codes "HALT" ∷ []) (tree_lines-AllLines t)
          (one_line-IsLine (codes "HALT") refl, tt),
    ),
  ),
)
