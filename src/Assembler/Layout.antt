-- ===== src/Assembler/Layout.antt =====
-- The first pass of `asm_to_opcodes` in src/Assembler.cpp: the address of each label.
use custom_isa_8bit_vm.Base.{
  ◌==◌, if◌then◌else◌, length, Bytes, codes, equal, ℕ, ◌+◌, ◌%◌, ◌^◌, ◌&&◌, ◌||◌, none, some, List,
  [], ◌∷◌,
}
use custom_isa_8bit_vm.Vm.State.{ArgType, number, register, address, indirect_mem, indirect_lbl}
use custom_isa_8bit_vm.Exception.{
  Result, ok, err, undefined, ◌>>=◌, invalid_mnemonic, missing_skip_argument,
}
use custom_isa_8bit_vm.Isa.{InstructionTable, RegisterMap, find_opcode, find_register}
use custom_isa_8bit_vm.Assembler.Text.{
  before, words, is_alpha, front, back, pop_back, inside, stoull,
}
use custom_isa_8bit_vm.Assembler.Encode.{Labels, find_label, is_some, bracket_type}

-- The type that the first pass gives an argument: it knows the labels above it, and no `NUMBER_16`.
unfoldable pub layout_type : RegisterMap → Labels → Bytes → Result ArgType
layout_type registers labels arg =
    if is_some (find_register registers arg)
    then ok register
    else if is_some (find_label labels arg) || is_alpha (front arg) || front arg == b'_'
    then ok address
    else elim arg [
      | [] ↦ undefined
      | c ∷ cs ↦
          if c == b'[' && back (c ∷ cs) == b']'
          then ok (bracket_type registers (inside (c ∷ cs)))
          else ok number
    ]

-- `if (arg.ends_with(',')) arg.pop_back();`
abbrev pub drop_comma : Bytes → Bytes
drop_comma arg = if back arg == b',' then pop_back arg else arg

-- The bytes that an argument takes: its type, and one or two more.
abbrev pub arg_size : ArgType → ℕ
arg_size address = 3
arg_size indirect_lbl = 3
arg_size indirect_mem = 3
arg_size _ = 2

unfoldable pub args_size : RegisterMap → Labels → List Bytes → Result ℕ
unfolding layout_type
args_size registers labels [] = ok 0
args_size registers labels (arg ∷ args) = do
  type ← layout_type registers labels (drop_comma arg)
  rest ← args_size registers labels args
  ok (arg_size type + rest)

-- What the first pass carries from line to line.
pub record Layout : Type 0 where
  pub labels : Labels
  pub dimension : ℕ
  pub line_number : ℕ

abbrev pub size_mod : ℕ
size_mod = 2 ^ 64

-- `.skip`, with the words behind it.
unfoldable pub skip_line : List Bytes → Layout → Result Layout
skip_line [] l = err missing_skip_argument
skip_line (size ∷ args) l = do
  n ← stoull size
  ok (record l { dimension = (l.dimension + n) % size_mod; line_number = l.line_number + 1 })

unfoldable pub instruction_line :
    InstructionTable → RegisterMap → Bytes → List Bytes → Layout → Result Layout
unfolding args_size
instruction_line table registers name args l = do
  size ← args_size registers l.labels args
  elim (find_opcode table name (length args)) [
    | none ↦ err (invalid_mnemonic l.line_number name)
    | some opcode ↦ ok (record l {
      dimension = (l.dimension + (1 + size)) % size_mod;
      line_number = l.line_number + 1;
    })
  ]

-- A line of words, the first of which tells what it is. A line without words counts for nothing.
unfoldable pub layout_words : InstructionTable → RegisterMap → List Bytes → Layout → Result Layout
unfolding skip_line instruction_line
layout_words table registers [] l = ok l
layout_words table registers (first ∷ args) l =
    if back first == b':'
    then ok (record l {
      labels = (pop_back first, l.dimension % 2 ^ 16) ∷ l.labels;
      line_number = l.line_number + 1;
    })
    else if equal first (codes ".skip")
    then skip_line args l
    else instruction_line table registers first args l

unfoldable pub layout_lines : InstructionTable → RegisterMap → List Bytes → Layout → Result Layout
unfolding layout_words
layout_lines table registers [] l = ok l
layout_lines table registers (line ∷ rest) l =
    layout_words table registers (words (before b';' line)) l >>= layout_lines table registers rest

-- The first pass. The two bytes of the entry address stand in front.
abbrev pub initial : Layout
initial = record { labels = []; dimension = 2; line_number = 1 }
