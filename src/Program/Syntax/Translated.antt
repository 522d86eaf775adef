-- ===== src/Program/Syntax/Translated.antt =====
-- The loop of src/Brainfvck.cpp over a text, against the program that the text says.
use custom_isa_8bit_vm.Base.{Bytes, codes, ℕ, ◌≡◌, refl, sym, ap, ◌∙◌, some, List, [], ◌∷◌, ◌++◌}
use mathlib.Core.Path.{subst}
use mathlib.Core.List.{append_assoc, append-nil}
use custom_isa_8bit_vm.Exception.{ok, >>=-eq-ok, ok-injective}
use custom_isa_8bit_vm.Assembler.Text.{lines}
use custom_isa_8bit_vm.Brainfvck.Translate.{
  Translation, translate_char, translate_chars, translate_lines, prologue, finish, translate,
}
use custom_isa_8bit_vm.Program.Tree.{Tree, done, AllBytes}
use custom_isa_8bit_vm.Program.Listing.{listing}
use custom_isa_8bit_vm.Program.Listing.Known.{Ordered}
use custom_isa_8bit_vm.Program.Syntax.{
  Opening, Reading, read_char, read_chars, read_lines, nothing_read, finished, program_of,
}
use custom_isa_8bit_vm.Program.Syntax.Frames.{Frame-empty, Stacked, outermost}
use custom_isa_8bit_vm.Program.Syntax.Chars.{numbers, Agrees, follows}

read_chars-cons :
    (c : ℕ) (cs : Bytes) (r r' r'' : Reading)
    → read_char r c ≡ some r'
    → read_chars r' cs ≡ some r''
    → read_chars r (c ∷ cs) ≡ some r''
unfolding read_chars
read_chars-cons c cs r r' r'' e f = rw (e, read_chars) f

read_lines-cons :
    (l : Bytes) (ls : List Bytes) (r r' r'' : Reading)
    → read_chars r l ≡ some r'
    → read_lines r' ls ≡ some r''
    → read_lines r (l ∷ ls) ≡ some r''
unfolding read_lines
read_lines-cons l ls r r' r'' e f = rw (e, read_lines) f

chars_follow :
    (cs : Bytes) (r : Reading) (t t' : Translation)
    → Agrees r t
    → translate_chars t cs ≡ ok t'
    → (r' : Reading) × (read_chars r cs ≡ some r') × Agrees r' t'
unfolding translate_chars read_chars
chars_follow [] r t t' a e = (r, refl, subst (Agrees r) (ok-injective e) a)
chars_follow (c ∷ cs) r t t' a e =
    let (t₁, f, g) = >>=-eq-ok (translate_char t c) _ e in
    let (r₁, h, b) = follows c r t t₁ a f in
    let (r₂, i, d) = chars_follow cs r₁ t₁ t' b g in (r₂, read_chars-cons c cs r r₁ r₂ h i, d)

lines_follow :
    (ls : List Bytes) (r : Reading) (t t' : Translation)
    → Agrees r t
    → translate_lines t ls ≡ ok t'
    → (r' : Reading) × (read_lines r ls ≡ some r') × Agrees r' t'
unfolding translate_lines read_lines
lines_follow [] r t t' a e = (r, refl, subst (Agrees r) (ok-injective e) a)
lines_follow (l ∷ ls) r t t' a e =
    let (t₁, f, g) = >>=-eq-ok (translate_chars t l) _ e in
    let (r₁, h, b) = chars_follow l r t t₁ a f in
    let (r₂, i, d) = lines_follow ls r₁ t₁ t' b g in (r₂, read_lines-cons l ls r r₁ r₂ h i, d)

-- What the translation of a text comes to.
pub record Translates (source : Bytes) (ls : List Bytes) : Type 0 where
  pub program : Tree
  pub says : program_of source ≡ some program
  pub lines_are : ls ≡ listing program
  pub bytes : AllBytes program
  pub ordered : Ordered 0 program

program_of-some :
    (source : Bytes) (r : Reading)
    → read_lines nothing_read (lines source) ≡ some r
    → r.outer ≡ []
    → program_of source ≡ some (r.inner done)
unfolding program_of finished
program_of-some source r e o = rw (e, program_of) (rw (o, finished) refl)

at_end :
    (source : Bytes) (ls : List Bytes) (ids : List ℕ) (outer : List (ℕ × Opening)) (r : Reading)
    (t : Translation)
    → read_lines nothing_read (lines source) ≡ some r
    → r.outer ≡ outer
    → ids ≡ numbers outer
    → Stacked outer r.inner r.loops t.code
    → finish ids t ≡ ok ls
    → Translates source ls
unfolding finish listing Ordered
at_end source ls [] [] r t e o n (outermost {ls = inner_lines} h c) f =
    let body = h.texts done ∙ append-nil inner_lines in
    record {
      program = r.inner done;
      says = program_of-some source r e o;
      lines_are =
          sym (ok-injective f)
          ∙ ap (λ xs. xs ++ codes "HALT" ∷ []) c
          ∙ append_assoc prologue.code inner_lines (codes "HALT" ∷ [])
          ∙ ap (λ xs. prologue.code ++ (xs ++ codes "HALT" ∷ [])) (sym body);
      bytes = h.bytes done tt;
      ordered = h.ordered done tt;
    }
at_end source ls [] ((id, g) ∷ outer) r t e o n s f = cc
at_end source ls (i ∷ ids) outer r t e o n s f = cc

-- Where the translation of a text succeeds, its lines are those of the program that the text says,
-- between the prologue and HALT, with every operand a byte, and the loops are numbered in the order
-- of their opening brackets.
pub translate-Translates :
    (source : Bytes) {ls : List Bytes} → translate source ≡ ok ls → Translates source ls
unfolding translate
translate-Translates source {ls} e =
    let (t, f, g) = >>=-eq-ok (translate_lines prologue (lines source)) _ e in
    let start : Agrees nothing_read prologue = record {
      counts = refl;
      open_ones = refl;
      written = outermost (Frame-empty 0) refl;
    } in
    let (r, h, a) = lines_follow (lines source) nothing_read prologue t start f in
    at_end source ls t.par_stack r.outer r t h refl a.open_ones a.written g
