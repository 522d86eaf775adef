-- ===== src/Vm/Control.antt =====
-- The jumps of src/VM.cpp, CALL, RET and HALT.
pub mod Call
pub mod Compare
use custom_isa_8bit_vm.Base.{
  ltb, leb, ◌==◌, if◌then◌else◌, ltb→lt, lt→ltb, le→ltb, leb→le, ==_iff, Bool-cases, length,
  get_elem?, take, drop, replicate, length-append, length-replicate, Bytes, codes, equal_iff, equal,
  ℕ, zero, suc, ◌+◌, ◌-◌, ◌*◌, ◌/◌, ◌%◌, ◌^◌, ◌≤◌, ◌<◌, ◌≡◌, refl, sym, ap, ◌∙◌, fun_ext, ◌≢◌, ◌↔◌,
  ◌⊎◌, inl, inr, Bool, true, false, not, ◌&&◌, ◌||◌, Option, none, some, List, [], ◌∷◌, ◌++◌, map,
  arith,
}
use custom_isa_8bit_vm.Vm.State.{
  ArgType, number, register, address, indirect_reg, indirect_mem, indirect_lbl, number_16, other,
  type_of_byte, byte_of_type, RawArgument, Window, uninitialised, null, opened, Output, printed,
  flushed, window_closed, waiting_for_close, returned_control, terminated_forcefully, Machine,
  Outcome, returned, thrown, undefined, timeout, M, ◌>>=◌, ◌>>◌, pure, throw, undefined_behaviour,
  get, get_process, set_pc, set_sp, print, update, read, write, word, Cell, register_cell, ram_cell,
  register_at, ram_at, load, store, framebuffer_start, gui_cell, set_gui, get_gui,
}
use custom_isa_8bit_vm.Process.{Process, to_addr}
use custom_isa_8bit_vm.Exception.{
  Exception, unknown_argument_type, stack_overflow, stack_underflow, heap_overflow,
  freed_free_region, cannot_divide_by_zero, call_non_label, label_as_number, framebuffer_not_gui,
  framebuffer_overflow, invalid_opcode,
}
use custom_isa_8bit_vm.Config.{ram_size, register_count, framebuffer_tot_size, colors}
use custom_isa_8bit_vm.Vm.Operand.{resolve_writeable_arg, fetch_argument, operand, write_arg}

-- JMP takes an address as it is, and reads anything else as a writeable argument.
unfoldable pub jmp_target : ArgType → ℕ → M ℕ
jmp_target address value = pure value
jmp_target type value = resolve_writeable_arg type value >>= load

unfoldable pub jmp : M (Unit {0})
unfolding jmp_target
jmp = do
  target ← fetch_argument
  offset ← jmp_target target.type target.value
  proc ← get_process
  set_pc (proc.first_sector + offset)

-- The conditional jumps take a number or an address as it is.
unfoldable pub branch_target : ArgType → ℕ → M ℕ
branch_target number value = pure value
branch_target address value = pure value
branch_target type value = resolve_writeable_arg type value >>= load

-- The common course of JE, JNE, JG and JNG, with their test of the flags.
unfoldable pub branch_if : (Machine → Bool) → M (Unit {0})
unfolding branch_target
branch_if test = do
  arg ← fetch_argument
  m ← get
  if test m
      then (do
        value ← branch_target arg.type arg.value
        proc ← get_process
        set_pc (proc.first_sector + value))
      else pure tt

unfoldable pub je : M (Unit {0})
unfolding branch_if
je = branch_if (λ m. m.zero)

unfoldable pub jne : M (Unit {0})
unfolding branch_if
jne = branch_if (λ m. not m.zero)

unfoldable pub jg : M (Unit {0})
unfolding branch_if
jg = branch_if (λ m. m.sign)

unfoldable pub jng : M (Unit {0})
unfolding branch_if
jng = branch_if (λ m. not m.sign)

-- CALL behind the fetch: only an address can be called, and the program counter takes it as it is.
unfoldable pub call_target : ArgType → ℕ → M (Unit {0})
call_target address value = do
  before ← get_process
  let ret_addr = before.pc
  set_sp (before.sp + 2 ^ 16 - 2)
  proc ← get_process
  if ltb proc.sp proc.stack_limit then throw stack_overflow else (do
    write proc.sp (ret_addr / 256 % 256)
    write (proc.sp + 1) (ret_addr % 256)
    set_pc value)
call_target type value = throw call_non_label

unfoldable pub call : M (Unit {0})
unfolding call_target
call = do arg ← fetch_argument; call_target arg.type arg.value

unfoldable pub ret : M (Unit {0})
ret = do
  proc ← get_process
  if ltb (proc.first_sector + proc.allocated_memory) (proc.sp + 2)
      then throw stack_underflow
      else (do
        high ← read proc.sp
        low ← read (proc.sp + 1)
        set_sp (proc.sp + 2)
        set_pc (word high low))

unfoldable pub halt : M (Unit {0})
halt m = returned tt (record m { process = record m.process { running = false } })
