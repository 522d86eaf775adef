-- ===== src/Brainfvck/Translate.antt =====
-- The loop of `Brainfvck::compile` that turns each command into lines of assembly. The text is held
-- as its list of lines here; the source appends the same lines, each with a newline, to a string.
pub mod Brackets
use custom_isa_8bit_vm.Base.{◌==◌, if◌then◌else◌, Bytes, codes, ℕ, ◌+◌, List, [], ◌∷◌, ◌++◌}
use custom_isa_8bit_vm.Exception.{Result, ok, err, ◌>>=◌, unmatched_close, unmatched_open}
use custom_isa_8bit_vm.Assembler.Text.{lines}
use custom_isa_8bit_vm.Brainfvck.Format.{decimal}

unfoldable pub start_label : ℕ → Bytes
start_label id = codes "start_par_" ++ decimal id

unfoldable pub close_label : ℕ → Bytes
close_label id = codes "close_par_" ++ decimal id

-- `code_tmp`, `number_of_par` and `par_stack`, the innermost bracket first.
pub record Translation : Type 0 where
  pub code : List Bytes
  pub number_of_par : ℕ
  pub par_stack : List ℕ

unfoldable pub emit : Translation → List Bytes → Translation
emit t ls = record t { code = t.code ++ ls }

unfoldable pub open_par : Translation → Translation
unfolding start_label close_label
open_par t = record t {
  code =
      t.code
      ++ (start_label t.number_of_par ++ codes ":")
        ∷ codes "CMP [A], 0"
        ∷ (codes "JE " ++ close_label t.number_of_par)
        ∷ [];
  number_of_par = t.number_of_par + 1;
  par_stack = t.number_of_par ∷ t.par_stack;
}

unfoldable pub close_par : List ℕ → Translation → Result Translation
unfolding start_label close_label
close_par [] t = err unmatched_close
close_par (par_id ∷ par_stack) t = ok (record t {
  code =
      t.code
      ++ (close_label par_id ++ codes ":")
        ∷ codes "CMP [A], 0"
        ∷ (codes "JNE " ++ start_label par_id)
        ∷ [];
  par_stack = par_stack;
})

-- The switch over one character; all but the eight commands are comments.
unfoldable pub translate_char : Translation → ℕ → Result Translation
unfolding emit open_par close_par
translate_char t c =
    if c == b'>'
    then ok (emit t (codes "ADD A, 1" ∷ []))
    else if c == b'<'
    then ok (emit t (codes "SUB A, 1" ∷ []))
    else if c == b'+'
    then ok (emit t (codes "ADD [A], 1" ∷ []))
    else if c == b'-'
    then ok (emit t (codes "SUB [A], 1" ∷ []))
    else if c == b'.'
    then ok (emit t (codes "PRINT [A]" ∷ []))
    else if c == b','
    then ok (emit t (codes "INPUT [A]" ∷ []))
    else if c == b'['
    then ok (open_par t)
    else if c == b']'
    then close_par t.par_stack t
    else ok t

-- The two loops, over the lines and their characters: a newline is a comment too.
unfoldable pub translate_chars : Translation → Bytes → Result Translation
unfolding translate_char
translate_chars t [] = ok t
translate_chars t (c ∷ cs) = translate_char t c >>= λ t'. translate_chars t' cs

unfoldable pub translate_lines : Translation → List Bytes → Result Translation
unfolding translate_chars
translate_lines t [] = ok t
translate_lines t (line ∷ rest) = translate_chars t line >>= λ t'. translate_lines t' rest

abbrev pub prologue : Translation
prologue = record {
  code = codes ".skip 30000" ∷ codes "start:" ∷ codes "MOV A, 2" ∷ [];
  number_of_par = 0;
  par_stack = [];
}

unfoldable pub finish : List ℕ → Translation → Result (List Bytes)
finish [] t = ok (t.code ++ codes "HALT" ∷ [])
finish (par_id ∷ par_stack) t = err unmatched_open

-- The lines that go to the optimisers.
unfoldable pub translate : Bytes → Result (List Bytes)
unfolding translate_lines finish lines
translate source = translate_lines prologue (lines source) >>= λ t. finish t.par_stack t
