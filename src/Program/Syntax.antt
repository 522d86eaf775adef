-- ===== src/Program/Syntax.antt =====
-- What a Brainfvck text says, apart from the way src/Brainfvck.cpp translates it: the commands, and
-- the loops between matching brackets.
pub mod Frames
pub mod Chars
pub mod Translated
use custom_isa_8bit_vm.Base.{◌==◌, if◌then◌else◌, Bytes, ℕ, ◌+◌, Option, none, some, List, [], ◌∷◌}
use custom_isa_8bit_vm.Assembler.Text.{lines}
use custom_isa_8bit_vm.Program.TapeLines.{up, down, raise, lower}
use custom_isa_8bit_vm.Program.Tree.{Tree, done, line, show, enter, while}

-- A program that is still open at its end.
abbrev pub Opening : Type 0
Opening = Tree → Tree

-- What has been read: how many loops, the program in the innermost open bracket, and those around it
-- with the numbers of their brackets, the innermost one first.
pub record Reading : Type 0 where
  pub loops : ℕ
  pub inner : Opening
  pub outer : List (ℕ × Opening)

abbrev pub command : Opening → Reading → Reading
command f r = record r { inner = λ rest. r.inner (f rest) }

-- A closing bracket ends the innermost loop, if one is open.
unfoldable pub close : List (ℕ × Opening) → Reading → Option Reading
close [] r = none
close ((id, before) ∷ outer) r =
    some (record r { inner = λ rest. before (while id (r.inner done) rest); outer = outer })

abbrev pub open_loop : Reading → Reading
open_loop r = record {
  loops = r.loops + 1;
  inner = λ rest. rest;
  outer = (r.loops, r.inner) ∷ r.outer;
}

unfoldable pub read_char : Reading → ℕ → Option Reading
unfolding close
read_char r c =
    if c == b'>'
    then some (command (line (up 1)) r)
    else if c == b'<'
    then some (command (line (down 1)) r)
    else if c == b'+'
    then some (command (line (raise 1)) r)
    else if c == b'-'
    then some (command (line (lower 1)) r)
    else if c == b'.'
    then some (command show r)
    else if c == b','
    then some (command enter r)
    else if c == b'['
    then some (open_loop r)
    else if c == b']'
    then close r.outer r
    else some r

unfoldable pub read_chars : Reading → Bytes → Option Reading
unfolding read_char
read_chars r [] = some r
read_chars r (c ∷ cs) = elim (read_char r c) [ none ↦ none | some r' ↦ read_chars r' cs ]

unfoldable pub read_lines : Reading → List Bytes → Option Reading
unfolding read_chars
read_lines r [] = some r
read_lines r (l ∷ ls) = elim (read_chars r l) [ none ↦ none | some r' ↦ read_lines r' ls ]

abbrev pub nothing_read : Reading
nothing_read = record { loops = 0; inner = λ rest. rest; outer = [] }

unfoldable pub finished : List (ℕ × Opening) → Reading → Option Tree
finished [] r = some (r.inner done)
finished (f ∷ outer) r = none

-- The program of a text, if its brackets match.
unfoldable pub program_of : Bytes → Option Tree
unfolding read_lines finished
program_of source = elim (read_lines nothing_read (lines source)) [
  | none ↦ none
  | some r ↦ finished r.outer r
]
