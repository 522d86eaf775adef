-- ===== src/Vm/Alu.antt =====
-- The instructions of src/VM.cpp that move and compute: MOV, ADD, SUB, MUL, DIV, CMP, and PRINT,
-- PRINTFLUSH. Every register and cell is one byte, so each result is taken modulo 256.
use custom_isa_8bit_vm.Base.{ltb, ◌==◌, if◌then◌else◌, ℕ, ◌+◌, ◌-◌, ◌*◌, ◌/◌, ◌%◌}
use custom_isa_8bit_vm.Vm.State.{printed, flushed, returned, M, ◌>>=◌, throw, print, load, store}
use custom_isa_8bit_vm.Exception.{cannot_divide_by_zero}
use custom_isa_8bit_vm.Vm.Operand.{resolve_writeable_arg, fetch_argument, operand, write_arg}

unfoldable pub mov : M (Unit {0})
mov = do dest ← fetch_argument; src ← fetch_argument; src_val ← operand src; write_arg dest src_val

unfoldable pub print_value : M (Unit {0})
print_value = do el ← fetch_argument; value ← operand el; print (printed value)

unfoldable pub print_flush : M (Unit {0})
print_flush = print flushed

-- The common course of ADD, SUB and MUL: `resolve_writeable_arg(a) op= b_val`.
unfoldable pub arithmetic : (ℕ → ℕ → ℕ) → M (Unit {0})
arithmetic op = do
  a ← fetch_argument
  b ← fetch_argument
  b_val ← operand b
  cell ← resolve_writeable_arg a.type a.value
  a_val ← load cell
  store cell (op a_val b_val)

abbrev pub add_byte : ℕ → ℕ → ℕ
add_byte a b = (a + b) % 256

abbrev pub sub_byte : ℕ → ℕ → ℕ
sub_byte a b = (a + 256 - b) % 256

abbrev pub mul_byte : ℕ → ℕ → ℕ
mul_byte a b = a * b % 256

unfoldable pub add : M (Unit {0})
unfolding arithmetic
add = arithmetic add_byte

unfoldable pub sub : M (Unit {0})
unfolding arithmetic
sub = arithmetic sub_byte

unfoldable pub mul : M (Unit {0})
unfolding arithmetic
mul = arithmetic mul_byte

unfoldable pub div : M (Unit {0})
div = do
  a ← fetch_argument
  b ← fetch_argument
  b_val ← operand b
  if b_val == 0 then throw cannot_divide_by_zero else (do
    cell ← resolve_writeable_arg a.type a.value
    a_val ← load cell
    store cell (a_val / b_val))

-- The flags of a comparison: equal, and greater.
unfoldable pub cmp : M (Unit {0})
cmp = do
  arg1 ← fetch_argument
  arg2 ← fetch_argument
  val1 ← operand arg1
  val2 ← operand arg2
  λ m. returned tt (record m { zero = val1 == val2; sign = ltb val2 val1 })
