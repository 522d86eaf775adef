-- ===== src/Vm/Operand.antt =====
-- How src/VM.cpp reads the operands of an instruction.
pub mod Fetch
use custom_isa_8bit_vm.Base.{ℕ, ◌+◌, ◌%◌, Bool, true, false, if◌then◌else◌}
use custom_isa_8bit_vm.Exception.{unknown_argument_type}
use custom_isa_8bit_vm.Process.{to_addr}
use custom_isa_8bit_vm.Vm.State.{
  ArgType, number, register, address, indirect_reg, indirect_mem, indirect_lbl, number_16, other,
  type_of_byte, byte_of_type, RawArgument, M, ◌>>=◌, ◌>>◌, pure, throw, get_process, set_pc, read,
  word, Cell, register_at, ram_at, load, store,
}

-- The types with a 16-bit value, and those with an 8-bit one.
abbrev pub is_word : ArgType → Bool
is_word address = true
is_word indirect_lbl = true
is_word indirect_mem = true
is_word number_16 = true
is_word _ = false

abbrev pub is_byte : ArgType → Bool
is_byte register = true
is_byte indirect_reg = true
is_byte number = true
is_byte _ = false

unfoldable pub resolve_writeable_arg : ArgType → ℕ → M Cell
resolve_writeable_arg register arg = register_at arg
resolve_writeable_arg indirect_lbl arg = do
  proc ← get_process
  let addr = to_addr (arg + proc.first_sector)
  high ← read addr
  low ← read (addr + 1)
  ram_at (proc.first_sector + word high low)
resolve_writeable_arg indirect_mem arg = do
  proc ← get_process
  ram_at (to_addr (arg + proc.first_sector))
resolve_writeable_arg address arg = do
  proc ← get_process
  ram_at (to_addr (arg + proc.first_sector))
resolve_writeable_arg indirect_reg arg = do
  proc ← get_process
  r ← register_at arg
  offset ← load r
  ram_at (proc.first_sector + offset)
resolve_writeable_arg number arg = throw (unknown_argument_type (byte_of_type number))
resolve_writeable_arg number_16 arg = throw (unknown_argument_type (byte_of_type number_16))
resolve_writeable_arg (other b) arg = throw (unknown_argument_type b)

-- The two ways in which `fetch_argument` reads a value behind the type byte.
unfoldable pub fetch_word : M ℕ
fetch_word = do
  proc ← get_process
  high ← read proc.pc
  low ← read (proc.pc + 1)
  set_pc (proc.pc + 2)
  pure (word high low)

unfoldable pub fetch_byte : M ℕ
fetch_byte = do proc ← get_process; value ← read proc.pc; set_pc (proc.pc + 1); pure value

unfoldable pub fetch_value : ArgType → M ℕ
unfolding fetch_word fetch_byte
fetch_value type = if is_word type then fetch_word else if is_byte type then fetch_byte else pure 0

unfoldable pub fetch_argument : M RawArgument
unfolding fetch_value
fetch_argument = do
  proc ← get_process
  byte ← read proc.pc
  set_pc (proc.pc + 1)
  value ← fetch_value (type_of_byte byte)
  pure (record { type = type_of_byte byte; value = value })

-- `(arg.type == Type::NUMBER) ? static_cast<MemCell>(arg.value) : resolve_writeable_arg(…)`
unfoldable pub operand_of : ArgType → ℕ → M ℕ
operand_of number value = pure (value % 256)
operand_of type value = resolve_writeable_arg type value >>= load

abbrev pub operand : RawArgument → M ℕ
operand arg = operand_of arg.type arg.value

-- `resolve_writeable_arg(…) = value`
unfoldable pub write_arg : RawArgument → ℕ → M (Unit {0})
write_arg arg value = do cell ← resolve_writeable_arg arg.type arg.value; store cell value
