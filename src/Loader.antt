-- ===== src/Loader.antt =====
-- custom-isa-8bit-vm/include/Loader.hpp, and the methods of src/VM.cpp that set the machine up.
pub mod Image
use custom_isa_8bit_vm.Base.{
  ltb, leb, ◌==◌, if◌then◌else◌, ltb→lt, lt→ltb, le→ltb, leb→le, ==_iff, Bool-cases, length,
  get_elem?, take, drop, replicate, length-append, length-replicate, Bytes, codes, equal_iff, equal,
  ℕ, zero, suc, ◌+◌, ◌-◌, ◌*◌, ◌/◌, ◌%◌, ◌^◌, ◌≤◌, ◌<◌, ◌≡◌, refl, sym, ap, ◌∙◌, fun_ext, ◌≢◌, ◌↔◌,
  ◌⊎◌, inl, inr, Bool, true, false, not, ◌&&◌, ◌||◌, Option, none, some, List, [], ◌∷◌, ◌++◌, map,
  arith,
}
use custom_isa_8bit_vm.Vm.State.{
  ArgType, number, register, address, indirect_reg, indirect_mem, indirect_lbl, number_16, other,
  type_of_byte, byte_of_type, RawArgument, Window, uninitialised, null, opened, Output, printed,
  flushed, window_closed, waiting_for_close, returned_control, terminated_forcefully, Machine,
  Outcome, returned, thrown, undefined, timeout, M, ◌>>=◌, ◌>>◌, pure, throw, undefined_behaviour,
  get, get_process, set_pc, set_sp, print, update, read, write, word, Cell, register_cell, ram_cell,
  register_at, ram_at, load, store, framebuffer_start, gui_cell, set_gui, get_gui,
}
use custom_isa_8bit_vm.Process.{Process, to_addr}
use custom_isa_8bit_vm.Exception.{
  Exception, unknown_argument_type, stack_overflow, stack_underflow, heap_overflow,
  freed_free_region, cannot_divide_by_zero, call_non_label, label_as_number, framebuffer_not_gui,
  framebuffer_overflow, invalid_opcode,
}
use custom_isa_8bit_vm.Config.{ram_size, register_count, framebuffer_tot_size, colors}
use custom_isa_8bit_vm.Vm.Operand.{resolve_writeable_arg, fetch_argument, operand, write_arg}
use custom_isa_8bit_vm.Base.{ℤ}
use custom_isa_8bit_vm.Exception
use custom_isa_8bit_vm.MemoryManager
use custom_isa_8bit_vm.Config.{program_stack_size_bytes, program_heap_starting_size_bytes}
use custom_isa_8bit_vm.Process.{process}
use custom_isa_8bit_vm.Vm.Host.{Host}
use custom_isa_8bit_vm.Vm.Exec.{exec}

-- `manager.allocate`, on the object's free list.
unfoldable pub allocate_region : ℕ → M ℕ
allocate_region bytes m = elim (MemoryManager.allocate bytes m.free_list) [
  | Exception.ok (start, blocks) ↦ returned start (record m { free_list = blocks })
  | Exception.err e ↦ thrown e m
  | Exception.undefined ↦ undefined
]

-- The loop that copies the bytecode to the RAM from `a` on.
unfoldable pub copy_bytes : ℕ → Bytes → M (Unit {0})
copy_bytes a [] = pure tt
copy_bytes a (b ∷ bs) = do write a b; copy_bytes (suc a) bs

-- `next_ready_pid++`
unfoldable pub take_pid : M ℕ
take_pid m =
    returned m.next_ready_pid (record m { next_ready_pid = (m.next_ready_pid + 1) % 2 ^ 32 })

-- The header of the first heap chunk.
unfoldable pub write_heap_header : ℕ → M (Unit {0})
write_heap_header a = do
  write a (program_heap_starting_size_bytes / 256 % 256)
  write (a + 1) (program_heap_starting_size_bytes % 256)
  write (a + 2) 0

-- `load_program` on the bytes of the file.
unfoldable pub load_program : Bytes → M Process
unfolding allocate_region copy_bytes take_pid write_heap_header
load_program bytecode = do
  let size = length bytecode
  first_sector ←
      allocate_region (size + program_heap_starting_size_bytes + program_stack_size_bytes)
  copy_bytes first_sector bytecode
  ep_high ← read first_sector
  ep_low ← read (first_sector + 1)
  pid ← take_pid
  let proc = process pid first_sector size (word ep_high ep_low)
  write_heap_header (first_sector + size)
  pure proc

-- The constructor of `VM`: zeroed RAM and registers. The process is not yet meaningful, and the
-- input is what the standard input will give.
unfoldable pub new_machine : List ℤ → Machine
unfolding process MemoryManager.reset
new_machine input = record {
  ram = λ a. 0;
  registers = λ i. 0;
  zero = false;
  sign = false;
  last_key = 0;
  free_list = MemoryManager.reset;
  next_ready_pid = 1;
  process = process 0 0 0 0;
  window = uninitialised;
  display = λ i. 0;
  input = input;
  output = [];
  host_calls = 0;
}

-- `VM::reset`; the RAM stays as it is.
unfoldable pub reset : Machine → Machine
unfolding MemoryManager.reset
reset m = record m {
  zero = false;
  sign = false;
  registers = λ i. 0;
  free_list = MemoryManager.reset;
  next_ready_pid = 1;
}

-- `main` behind the compiler: set the mode, load the program and run it.
unfoldable pub run_program : Host → Bool → ℕ → Bytes → M (Unit {0})
unfolding set_gui load_program exec
run_program host gui fuel bytecode = do
  (λ m. returned tt (set_gui gui m))
  proc ← load_program bytecode
  (λ m. returned tt (record m { process = proc }))
  exec host fuel
