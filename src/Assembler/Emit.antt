-- ===== src/Assembler/Emit.antt =====
-- The second pass of `asm_to_opcodes` in src/Assembler.cpp, and the two passes together.
pub mod FileLines
use custom_isa_8bit_vm.Base.{
  ◌==◌, if◌then◌else◌, replicate, Bytes, codes, equal, ℕ, ◌+◌, ◌/◌, ◌%◌, Bool, true, false, ◌||◌,
  Option, none, some, List, [], ◌∷◌, ◌++◌,
}
use custom_isa_8bit_vm.Exception.{
  Result, ok, err, ◌>>=◌, invalid_skip_directive, error_opening_file,
}
use custom_isa_8bit_vm.Isa.{InstructionTable, RegisterMap}
use custom_isa_8bit_vm.Assembler.Text.{lines, before, words, back, stoull}
use custom_isa_8bit_vm.Assembler.Encode.{Labels, find_label, is_some, instruction_to_opcode}
use custom_isa_8bit_vm.Assembler.Layout.{initial, layout_lines}

-- `for (char &c : line) if (c == \',\') c = \' \';`
unfoldable pub commas_to_spaces : Bytes → Bytes
commas_to_spaces [] = []
commas_to_spaces (c ∷ s) = (if c == b',' then b' ' else c) ∷ commas_to_spaces s

unfoldable pub last_word : Bytes → List Bytes → Bytes
last_word w [] = w
last_word w (v ∷ ws) = last_word v ws

-- The code of a `.skip` with its words.
unfoldable pub skip_codes : List Bytes → Result Bytes
skip_codes (size ∷ []) = stoull size >>= λ n. ok (replicate n 0)
skip_codes _ = err invalid_skip_directive

-- A line of words: its code, and whether it counts as a line.
unfoldable pub emit_words :
    InstructionTable → RegisterMap → Labels → ℕ → List Bytes → Result (Bytes × Bool)
unfolding last_word skip_codes
emit_words table registers labels line [] = ok ([], false)
emit_words table registers labels line (first ∷ args) =
    if back (last_word first args) == b':' || back first == b':'
    then ok ([], false)
    else if equal first (codes ".skip")
    then (skip_codes args >>= λ zeros. ok (zeros, true))
    else (instruction_to_opcode table registers line first args labels >>= λ code. ok (code, true))

-- A line whose comment is cut off.
unfoldable pub emit_line :
    InstructionTable → RegisterMap → Labels → ℕ → Bytes → Result (Bytes × Bool)
unfolding emit_words commas_to_spaces
emit_line table registers labels line [] = ok ([], false)
emit_line table registers labels line (c ∷ text) =
    if back (c ∷ text) == b':'
    then ok ([], false)
    else emit_words table registers labels line (words (commas_to_spaces (c ∷ text)))

unfoldable pub emit_lines : InstructionTable → RegisterMap → Labels → ℕ → List Bytes → Result Bytes
unfolding emit_line
emit_lines table registers labels line [] = ok []
emit_lines table registers labels line (text ∷ rest) = do
  (code, counts) ← emit_line table registers labels line (before b';' text)
  codes ← emit_lines table registers labels (if counts then line + 1 else line) rest
  ok (code ++ codes)

-- `addresses_of_labels["start"]`: the lookup enters 0 for a missing label.
unfoldable pub with_start : Labels → Labels
with_start labels =
    if is_some (find_label labels (codes "start")) then labels else (codes "start", 0) ∷ labels

abbrev pub start_address : Option ℕ → ℕ
start_address none = 0
start_address (some addr) = addr

-- The entry address in front of the code: the label `start`, or 2 where that is 0.
unfoldable pub entry_bytes : ℕ → Bytes
entry_bytes start = (start / 256 % 256) ∷ (if start == 0 then 2 else start % 256) ∷ []

unfoldable pub asm_to_opcodes : InstructionTable → RegisterMap → Bytes → Result Bytes
unfolding emit_lines with_start entry_bytes layout_lines lines
asm_to_opcodes table registers code = do
  layout ← layout_lines table registers (lines code) initial
  let labels = with_start layout.labels
  body ← emit_lines table registers labels 1 (lines code)
  ok (entry_bytes (start_address (find_label labels (codes "start"))) ++ body)

-- `asm_to_bin`: the bytes that go to the file, if it can be opened.
unfoldable pub asm_to_bin : InstructionTable → RegisterMap → Bool → Bytes → Result Bytes
unfolding asm_to_opcodes
asm_to_bin table registers opens code = do
  binary_content ← asm_to_opcodes table registers code
  if opens then ok binary_content else err error_opening_file

-- `asm_file_to_code` on the bytes of the file: each line with a newline behind it.
unfoldable pub end_lines : List Bytes → Bytes
end_lines [] = []
end_lines (line ∷ rest) = line ++ b'\n' ∷ end_lines rest

unfoldable pub asm_file_to_code : Bytes → Bytes
unfolding end_lines lines
asm_file_to_code file = end_lines (lines file)
