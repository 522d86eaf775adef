-- ===== src/Vm/Invariant/Run.antt =====
-- The invariant for the loop of `exec` in src/VM.cpp, and for `exec` as a whole.
use custom_isa_8bit_vm.Base.{ℕ, zero, suc, ◌+◌, refl, Option, none, some, List}
use custom_isa_8bit_vm.Vm.State.{null, Machine, returned}
use custom_isa_8bit_vm.Process.{Process}
use custom_isa_8bit_vm.Vm.Operand.{fetch_argument}
use custom_isa_8bit_vm.Vm.Alu
use custom_isa_8bit_vm.Vm.Stack
use custom_isa_8bit_vm.Vm.Control
use custom_isa_8bit_vm.Vm.Host.{Host}
use custom_isa_8bit_vm.Vm.Exec.{
  Instruction, nop, mov, print_value, print_flush, add, sub, mul, div, input, jmp, cmp, je, jne, jg,
  jng, spush, spop, halloc, hfree, call, ret, fbset, fbsync, halt, execute, dispatch, step, loop,
  continues, wait_close, close_window, report, exec,
}
use custom_isa_8bit_vm.MemoryManager.{MemoryBlock}
use custom_isa_8bit_vm.Vm.Invariant.Rules.{
  same-Keeps, returns, runs_out, halt-Keeps, IsMachine, Ensures, Keeps, Inv, bind, keeps,
}
use custom_isa_8bit_vm.Vm.Invariant.Instructions.{
  K, fetch-Keeps, mov-Keeps, print_value-Keeps, arithmetic-Keeps, div-Keeps, cmp-Keeps, spush-Keeps,
  spop-Keeps, jmp-Keeps, branch_if-Keeps, call-Keeps, ret-Keeps, halloc-Keeps, hfree-Keeps,
}
use custom_isa_8bit_vm.Vm.Invariant.Devices.{
  if-Ensures, open_window-Keeps, fbsync-Keeps, fbset-Keeps, input-Keeps, framebuffer,
}

module _ (p : Process) (blocks : List MemoryBlock) where
  execute-Keeps : (host : Host) (i : Instruction) → K p blocks (execute host i)
  unfolding execute Control.je Control.jne Control.jg Control.jng Alu.add Alu.sub Alu.mul
      Alu.print_flush Control.halt Stack.spush_instruction Stack.spop_instruction
  execute-Keeps host nop = search keeps
  execute-Keeps host mov = mov-Keeps p blocks
  execute-Keeps host print_value = print_value-Keeps p blocks
  execute-Keeps host print_flush = search keeps
  execute-Keeps host add = arithmetic-Keeps p blocks _
  execute-Keeps host sub = arithmetic-Keeps p blocks _
  execute-Keeps host mul = arithmetic-Keeps p blocks _
  execute-Keeps host div = div-Keeps p blocks
  execute-Keeps host input = input-Keeps p blocks
  execute-Keeps host jmp = jmp-Keeps p blocks
  execute-Keeps host cmp = cmp-Keeps p blocks
  execute-Keeps host je = branch_if-Keeps p blocks _
  execute-Keeps host jne = branch_if-Keeps p blocks _
  execute-Keeps host jg = branch_if-Keeps p blocks _
  execute-Keeps host jng = branch_if-Keeps p blocks _
  execute-Keeps host spush = bind _ fetch_argument _ (fetch-Keeps p blocks) (spush-Keeps p blocks)
  execute-Keeps host spop = bind _ fetch_argument _ (fetch-Keeps p blocks) (spop-Keeps p blocks)
  execute-Keeps host halloc = halloc-Keeps p blocks
  execute-Keeps host hfree = hfree-Keeps p blocks
  execute-Keeps host call = call-Keeps p blocks
  execute-Keeps host ret = ret-Keeps p blocks
  execute-Keeps host fbset = fbset-Keeps p blocks
  execute-Keeps host fbsync = fbsync-Keeps p blocks host
  execute-Keeps host halt = halt-Keeps p blocks

  dispatch-Keeps :
      (host : Host) (row opcode : ℕ) (i : Option Instruction)
      → K p blocks (dispatch host row opcode i)
  unfolding dispatch
  dispatch-Keeps host row opcode none = search keeps
  dispatch-Keeps host row opcode (some i) = execute-Keeps host i

  -- One round of the loop.
  pub step-Keeps : (host : Host) (row : ℕ) → K p blocks (step host row)
  unfolding step
  step-Keeps host row = search (keeps, dispatch-Keeps) depth 10

  loop-Keeps : (host : Host) (fuel row : ℕ) → K p blocks (loop host fuel row)
  unfolding loop
  loop-Keeps host zero row = λ m h. runs_out
  loop-Keeps host (suc fuel) row = λ m h.
      if-Ensures p blocks (continues m.process)
        (bind _ (step host row) _ (step-Keeps host row) (λ _. loop-Keeps host fuel (row + 1)) m h)
        (returns h)

  wait_close-Keeps : (host : Host) (fuel : ℕ) → K p blocks (wait_close host fuel)
  unfolding wait_close
  wait_close-Keeps host zero = λ m h. runs_out
  wait_close-Keeps host (suc fuel) = search (framebuffer, wait_close-Keeps host fuel) depth 12

  close-Keeps :
      Keeps {0} {A = Unit {0}} (Inv p blocks) (λ m. returned tt (record m { window = null }))
  close-Keeps m h = returns (same-Keeps p blocks m _ refl refl h.key refl refl h)

  close_window-Keeps : (host : Host) (fuel : ℕ) → K p blocks (close_window host fuel)
  unfolding close_window
  close_window-Keeps host fuel = search (framebuffer, wait_close-Keeps, close-Keeps) depth 12

  report-Keeps : K p blocks report
  unfolding report
  report-Keeps = search keeps depth 10

  -- From a machine with bytes in every cell and register, a key code below 5, and 16-bit addresses
  -- in the program counter and the stack pointer, whatever the program and the host do, a run that
  -- returns or throws leaves a machine that is so too, with the process's region, heap, stack bounds
  -- and identity and the free list as they were.
  pub exec-Keeps :
      (host : Host) (fuel : ℕ) (m : Machine)
      → IsMachine p blocks m
      → Ensures (IsMachine p blocks) (exec host fuel m)
  unfolding exec
  exec-Keeps host fuel =
      search (keeps, open_window-Keeps, loop-Keeps, close_window-Keeps, report-Keeps) depth 12
