-- ===== src/Vm/Exec.antt =====
-- `VM::exec`: the switch over the opcode and the loop around it.
pub mod Decode
pub mod Fuel
pub mod Halts
pub mod Places
pub mod Compute
pub mod Branch
pub mod Mnemonic
use custom_isa_8bit_vm.Base.{
  ltb, leb, ◌==◌, if◌then◌else◌, ltb→lt, lt→ltb, le→ltb, leb→le, ==_iff, Bool-cases, length,
  get_elem?, take, drop, replicate, length-append, length-replicate, Bytes, codes, equal_iff, equal,
  ℕ, zero, suc, ◌+◌, ◌-◌, ◌*◌, ◌/◌, ◌%◌, ◌^◌, ◌≤◌, ◌<◌, ◌≡◌, refl, sym, ap, ◌∙◌, fun_ext, ◌≢◌, ◌↔◌,
  ◌⊎◌, inl, inr, Bool, true, false, not, ◌&&◌, ◌||◌, Option, none, some, List, [], ◌∷◌, ◌++◌, map,
  arith,
}
use custom_isa_8bit_vm.Vm.State.{
  ArgType, number, register, address, indirect_reg, indirect_mem, indirect_lbl, number_16, other,
  type_of_byte, byte_of_type, RawArgument, Window, uninitialised, null, opened, Output, printed,
  flushed, window_closed, waiting_for_close, returned_control, terminated_forcefully, Machine,
  Outcome, returned, thrown, undefined, timeout, M, ◌>>=◌, ◌>>◌, pure, throw, undefined_behaviour,
  get, get_process, set_pc, set_sp, print, update, read, write, word, Cell, register_cell, ram_cell,
  register_at, ram_at, load, store, framebuffer_start, gui_cell, set_gui, get_gui,
}
use custom_isa_8bit_vm.Process.{Process, to_addr}
use custom_isa_8bit_vm.Exception.{
  Exception, unknown_argument_type, stack_overflow, stack_underflow, heap_overflow,
  freed_free_region, cannot_divide_by_zero, call_non_label, label_as_number, framebuffer_not_gui,
  framebuffer_overflow, invalid_opcode,
}
use custom_isa_8bit_vm.Config.{ram_size, register_count, framebuffer_tot_size, colors}
use custom_isa_8bit_vm.Vm.Operand.{resolve_writeable_arg, fetch_argument, operand, write_arg}
use custom_isa_8bit_vm.Isa.{RegisterMap}
use custom_isa_8bit_vm.Vm.Host.{Host, open_window, call_host, has_window}
use custom_isa_8bit_vm.Vm.Alu
use custom_isa_8bit_vm.Vm.Stack
use custom_isa_8bit_vm.Vm.Control
use custom_isa_8bit_vm.Vm.Heap
use custom_isa_8bit_vm.Vm.Framebuffer

pub data Instruction : Type 0 where
  nop mov print_value print_flush add sub mul div input jmp cmp je jne jg jng : Instruction
  spush spop halloc hfree call ret fbset fbsync halt : Instruction

-- The labels of the switch.
abbrev pub opcodes : List (ℕ × Instruction)
opcodes =
    (0x00, nop)
    ∷ (0x12, mov)
    ∷ (0x01, print_value)
    ∷ (0x10, print_flush)
    ∷ (0x32, add)
    ∷ (0x52, sub)
    ∷ (0x72, mul)
    ∷ (0x92, div)
    ∷ (0x21, input)
    ∷ (0x31, jmp)
    ∷ (0xB2, cmp)
    ∷ (0x41, je)
    ∷ (0x51, jne)
    ∷ (0x61, jg)
    ∷ (0x71, jng)
    ∷ (0x81, spush)
    ∷ (0x91, spop)
    ∷ (0xC2, halloc)
    ∷ (0xA1, hfree)
    ∷ (0xB1, call)
    ∷ (0x20, ret)
    ∷ (0xD2, fbset)
    ∷ (0x30, fbsync)
    ∷ (0xFF, halt)
    ∷ []

unfoldable pub find_instruction : List (ℕ × Instruction) → ℕ → Option Instruction
find_instruction [] opcode = none
find_instruction ((code, i) ∷ rest) opcode =
    if code == opcode then some i else find_instruction rest opcode

unfoldable pub decode : ℕ → Option Instruction
unfolding find_instruction
decode = find_instruction opcodes

-- The cases of the switch.
unfoldable pub execute : Host → Instruction → M (Unit {0})
execute host nop = pure tt
execute host mov = Alu.mov
execute host print_value = Alu.print_value
execute host print_flush = Alu.print_flush
execute host add = Alu.add
execute host sub = Alu.sub
execute host mul = Alu.mul
execute host div = Alu.div
execute host input = Framebuffer.input
execute host jmp = Control.jmp
execute host cmp = Alu.cmp
execute host je = Control.je
execute host jne = Control.jne
execute host jg = Control.jg
execute host jng = Control.jng
execute host spush = Stack.spush_instruction
execute host spop = Stack.spop_instruction
execute host halloc = Heap.halloc
execute host hfree = Heap.hfree
execute host call = Control.call
execute host ret = Control.ret
execute host fbset = Framebuffer.fbset
execute host fbsync = Framebuffer.fbsync host
execute host halt = Control.halt

unfoldable pub dispatch : Host → ℕ → ℕ → Option Instruction → M (Unit {0})
unfolding execute
dispatch host row opcode (some i) = execute host i
dispatch host row opcode none = throw (invalid_opcode row opcode)

-- One round of the loop of `exec`.
unfoldable pub step : Host → ℕ → M (Unit {0})
unfolding decode dispatch
step host row = do
  proc ← get_process
  current_opcode ← read proc.pc
  set_pc (proc.pc + 1)
  dispatch host row current_opcode (decode current_opcode)

-- The loop's test.
abbrev pub continues : Process → Bool
continues proc = proc.running && ltb proc.pc proc.last_code_sector

-- The loop of `exec`, with fuel for its rounds.
unfoldable pub loop : Host → ℕ → ℕ → M (Unit {0})
unfolding step
loop host zero row m = timeout
loop host (suc fuel) row m =
    let rest = loop host fuel (row + 1) in
    if continues m.process then (step host row >> rest) m else returned tt m

-- The loop that waits for the window to be closed.
unfoldable pub wait_close : Host → ℕ → M (Unit {0})
unfolding call_host
wait_close host zero m = timeout
wait_close host (suc fuel) m =
    let rest = wait_close host fuel in
    (do
      waits ← call_host host
      if waits then (do state_ok ← call_host host; if state_ok then rest else pure tt) else pure tt)
      m

unfoldable pub close_window : Host → ℕ → M (Unit {0})
unfolding has_window wait_close
close_window host fuel = do
  window_open ← has_window
  if window_open
      then (do
        print waiting_for_close
        wait_close host fuel
        λ m. returned tt (record m { window = null }))
      else pure tt

-- The last lines: the message, and the program counter back at the region's start.
unfoldable pub report : M (Unit {0})
report = do
  proc ← get_process
  print (if proc.running then terminated_forcefully else returned_control)
  set_pc proc.first_sector

-- `exec`; the fuel bounds the rounds of each of its two loops.
unfoldable pub exec : Host → ℕ → M (Unit {0})
unfolding open_window loop close_window report
exec host fuel = do open_window host; loop host fuel 1; close_window host fuel; report

-- `register_snapshot`: the name and the value of each register, in the order in which the map gives
-- its elements.
unfoldable pub register_snapshot : RegisterMap → Machine → List (Bytes × ℕ)
register_snapshot [] m = []
register_snapshot ((name, code) ∷ rest) m =
    (name, m.registers (code - 1)) ∷ register_snapshot rest m
