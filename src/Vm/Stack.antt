-- ===== src/Vm/Stack.antt =====
-- `VM::spush`, `VM::spop` and their instructions. The stack grows down from the end of the region.
pub mod Contents
pub mod Push
pub mod Pop
use custom_isa_8bit_vm.Base.{
  ltb, leb, ◌==◌, if◌then◌else◌, ltb→lt, lt→ltb, le→ltb, leb→le, ==_iff, Bool-cases, length,
  get_elem?, take, drop, replicate, length-append, length-replicate, Bytes, codes, equal_iff, equal,
  ℕ, zero, suc, ◌+◌, ◌-◌, ◌*◌, ◌/◌, ◌%◌, ◌^◌, ◌≤◌, ◌<◌, ◌≡◌, refl, sym, ap, ◌∙◌, fun_ext, ◌≢◌, ◌↔◌,
  ◌⊎◌, inl, inr, Bool, true, false, not, ◌&&◌, ◌||◌, Option, none, some, List, [], ◌∷◌, ◌++◌, map,
  arith,
}
use custom_isa_8bit_vm.Vm.State.{
  ArgType, number, register, address, indirect_reg, indirect_mem, indirect_lbl, number_16, other,
  type_of_byte, byte_of_type, RawArgument, Window, uninitialised, null, opened, Output, printed,
  flushed, window_closed, waiting_for_close, returned_control, terminated_forcefully, Machine,
  Outcome, returned, thrown, undefined, timeout, M, ◌>>=◌, ◌>>◌, pure, throw, undefined_behaviour,
  get, get_process, set_pc, set_sp, print, update, read, write, word, Cell, register_cell, ram_cell,
  register_at, ram_at, load, store, framebuffer_start, gui_cell, set_gui, get_gui,
}
use custom_isa_8bit_vm.Process.{Process, to_addr}
use custom_isa_8bit_vm.Exception.{
  Exception, unknown_argument_type, stack_overflow, stack_underflow, heap_overflow,
  freed_free_region, cannot_divide_by_zero, call_non_label, label_as_number, framebuffer_not_gui,
  framebuffer_overflow, invalid_opcode,
}
use custom_isa_8bit_vm.Config.{ram_size, register_count, framebuffer_tot_size, colors}
use custom_isa_8bit_vm.Vm.Operand.{resolve_writeable_arg, fetch_argument, operand, write_arg}

-- `arg.type == ADDRESS || arg.type == INDIRECT_LBL || arg.type == INDIRECT_MEM`
abbrev pub is_wide : ArgType → Bool
is_wide address = true
is_wide indirect_lbl = true
is_wide indirect_mem = true
is_wide _ = false

abbrev pub dimension : ArgType → ℕ
dimension type = if is_wide type then 2 else 1

-- The value to push: a literal as it is, anything else through a `MemCell &`.
unfoldable pub push_value : ArgType → ℕ → M ℕ
push_value number value = pure value
push_value type value = resolve_writeable_arg type value >>= load

unfoldable pub spush : RawArgument → M (Unit {0})
unfolding push_value
spush arg = do
  value ← push_value arg.type arg.value
  before ← get_process
  set_sp (before.sp + 2 ^ 16 - dimension arg.type)
  proc ← get_process
  if ltb proc.sp proc.stack_limit
      then throw stack_overflow
      else if dimension arg.type == 1
      then write proc.sp (value % 256)
      else (do write proc.sp (value / 256 % 256); write (proc.sp + 1) (value % 256))

unfoldable pub spop : RawArgument → M (Unit {0})
spop arg = do
  proc ← get_process
  if ltb (proc.first_sector + proc.allocated_memory) (proc.sp + dimension arg.type)
      then throw stack_underflow
      else if dimension arg.type == 1
      then (do value ← read proc.sp; write_arg arg value; set_sp (proc.sp + 1))
      else (do
        high ← read proc.sp
        low ← read (proc.sp + 1)
        write_arg arg (word high low)
        set_sp (proc.sp + 2))

unfoldable pub spush_instruction : M (Unit {0})
spush_instruction = do arg ← fetch_argument; spush arg

unfoldable pub spop_instruction : M (Unit {0})
spop_instruction = do arg ← fetch_argument; spop arg
