-- ===== src/Assembler/Emit/FileLines.antt =====
-- `asm_file_to_code` of src/Assembler.cpp and the lines that the assembler reads.
use mathlib.Core.List.{append-nil, append_assoc}
use custom_isa_8bit_vm.Base.{
  ==_iff, ◌==◌, false, inl, inr, Bool-cases, Bytes, ℕ, ◌≡◌, refl, sym, ap, ◌∙◌, List, [], ◌∷◌, ◌++◌,
}
use custom_isa_8bit_vm.Assembler.Text.{lines, lines_from}
use custom_isa_8bit_vm.Assembler.Emit.{end_lines, asm_file_to_code}

abbrev pub IsLine : Bytes → Type 0
IsLine [] = Unit
IsLine (c ∷ s) = ((c == b'\n') ≡ false) × IsLine s

abbrev pub AllLines : List Bytes → Type 0
AllLines [] = Unit
AllLines (l ∷ ls) = IsLine l × AllLines ls

IsLine-append : (s : Bytes) (c : ℕ) → IsLine s → (c == b'\n') ≡ false → IsLine (s ++ c ∷ [])
IsLine-append [] c h e = (e, tt)
IsLine-append (d ∷ s) c h e = (h.0, IsLine-append s c h.1 e)

lines_from-newline : (acc rest : Bytes) → lines_from acc (b'\n' ∷ rest) ≡ acc ∷ lines_from [] rest
unfolding lines_from
lines_from-newline [] rest = refl
lines_from-newline (c ∷ acc) rest = refl

lines_from-char :
    (acc : Bytes) (c : ℕ) (rest : Bytes)
    → (c == b'\n') ≡ false
    → lines_from acc (c ∷ rest) ≡ lines_from (acc ++ c ∷ []) rest
unfolding lines_from
lines_from-char [] c rest e = rw e
lines_from-char (d ∷ acc) c rest e = rw e

lines_from-line :
    (acc l rest : Bytes)
    → IsLine l
    → lines_from acc (l ++ b'\n' ∷ rest) ≡ (acc ++ l) ∷ lines_from [] rest
lines_from-line acc [] rest h =
    lines_from-newline acc rest ∙ ap (λ a. a ∷ lines_from [] rest) (sym (append-nil acc))
lines_from-line acc (c ∷ l) rest h =
    lines_from-char acc c (l ++ b'\n' ∷ rest) h.0
    ∙ lines_from-line (acc ++ c ∷ []) l rest h.1
    ∙ ap (λ a. a ∷ lines_from [] rest) (append_assoc acc (c ∷ []) l)

pub lines-end_lines : (ls : List Bytes) → AllLines ls → lines (end_lines ls) ≡ ls
unfolding lines end_lines lines_from
lines-end_lines [] h = refl
lines-end_lines (l ∷ ls) h =
    lines_from-line [] l (end_lines ls) h.0 ∙ ap (λ t. l ∷ t) (lines-end_lines ls h.1)

lines_from-AllLines : (acc text : Bytes) → IsLine acc → AllLines (lines_from acc text)
unfolding lines_from
lines_from-AllLines [] [] h = tt
lines_from-AllLines (c ∷ acc) [] h = (h, tt)
lines_from-AllLines acc (c ∷ text) h = elim (Bool-cases (c == b'\n')) [
  | inl e ↦ rw ((==_iff c b'\n').0 e) (h, lines_from-AllLines [] text tt)
  | inr e ↦
      rw (lines_from-char acc c text e)
        (lines_from-AllLines (acc ++ c ∷ []) text (IsLine-append acc c h e))
]

-- The text that `asm_file_to_code` makes of a file, with a newline behind every line, has the same
-- lines as the file, whether the file ends with a newline or not.
pub lines-asm_file_to_code : (file : Bytes) → lines (asm_file_to_code file) ≡ lines file
unfolding asm_file_to_code lines
lines-asm_file_to_code file = lines-end_lines (lines file) (lines_from-AllLines [] file tt)
