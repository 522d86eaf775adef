-- ===== src/Vm/Invariant/Instructions.antt =====
-- The invariant for operands and for the instructions without a device, of src/VM.cpp.
use custom_isa_8bit_vm.Base.{ℕ, zero, suc, refl, Bool, List}
use custom_isa_8bit_vm.Vm.State.{
  ArgType, number, register, address, indirect_reg, indirect_mem, indirect_lbl, number_16, other,
  RawArgument, Machine, M, ◌>>=◌, load,
}
use custom_isa_8bit_vm.Process.{Process}
use custom_isa_8bit_vm.Vm.Operand.{
  operand_of, fetch_value, resolve_writeable_arg, fetch_argument, operand, write_arg,
}
use custom_isa_8bit_vm.Vm.Alu
use custom_isa_8bit_vm.Vm.Stack
use custom_isa_8bit_vm.Vm.Control
use custom_isa_8bit_vm.Vm.Heap
use custom_isa_8bit_vm.MemoryManager.{MemoryBlock}
use custom_isa_8bit_vm.Vm.Invariant.Rules.{
  same-Keeps, get-Keeps, get_process-Keeps, set_pc-Keeps, set_sp-Keeps, read-Keeps, write-Keeps,
  load-Keeps, store-Keeps, print-Keeps, pure-Keeps, throw-Keeps, register_at-Keeps, ram_at-Keeps,
  returns, throws, undefines, runs_out, halt-Keeps, SameRegion, IsMachine, Ensures, Keeps, Inv,
  bind, branch, keeps,
}

module _ (p : Process) (blocks : List MemoryBlock) where
  abbrev pub K {ℓ} : {A : Type ℓ} → M A → Type ℓ
  K x = Keeps (Inv p blocks) x

  pub resolve-Keeps : (t : ArgType) (arg : ℕ) → K (resolve_writeable_arg t arg)
  unfolding resolve_writeable_arg
  resolve-Keeps register arg = search keeps
  resolve-Keeps indirect_lbl arg = search keeps depth 12
  resolve-Keeps indirect_mem arg = search keeps
  resolve-Keeps address arg = search keeps
  resolve-Keeps indirect_reg arg = search keeps depth 12
  resolve-Keeps number arg = search keeps
  resolve-Keeps number_16 arg = search keeps
  resolve-Keeps (other b) arg = search keeps

  pub load_arg-Keeps : (t : ArgType) (v : ℕ) → K (resolve_writeable_arg t v >>= load)
  load_arg-Keeps t v =
      bind _ (resolve_writeable_arg t v) load (resolve-Keeps t v) (load-Keeps p blocks)

  fetch_value-Keeps : (t : ArgType) → K (fetch_value t)
  unfolding fetch_value
  fetch_value-Keeps t = search keeps depth 12

  pub fetch-Keeps : K fetch_argument
  unfolding fetch_argument
  fetch-Keeps = search (keeps, fetch_value-Keeps) depth 12

  pub operand-Keeps : (t : ArgType) (v : ℕ) → K (operand_of t v)
  unfolding operand_of
  operand-Keeps number v = search keeps
  operand-Keeps t v = load_arg-Keeps t v

  pub write_arg-Keeps : (a : RawArgument) (v : ℕ) → K (write_arg a v)
  unfolding write_arg
  write_arg-Keeps a v =
      bind _ (resolve_writeable_arg a.type a.value) _ (resolve-Keeps a.type a.value)
        (λ c. store-Keeps p blocks c v)

  pub ruleset operands =
      (keeps, resolve-Keeps, fetch-Keeps, operand-Keeps, write_arg-Keeps, load_arg-Keeps)

  pub mov-Keeps : K Alu.mov
  unfolding Alu.mov
  mov-Keeps = search operands depth 12

  pub print_value-Keeps : K Alu.print_value
  unfolding Alu.print_value
  print_value-Keeps = search operands depth 12

  pub arithmetic-Keeps : (op : ℕ → ℕ → ℕ) → K (Alu.arithmetic op)
  unfolding Alu.arithmetic
  arithmetic-Keeps op = search operands depth 12

  pub div-Keeps : K Alu.div
  unfolding Alu.div
  div-Keeps = search operands depth 14

  pub cmp-Keeps : K Alu.cmp
  unfolding Alu.cmp
  cmp-Keeps = bind _ fetch_argument _ fetch-Keeps λ a. bind _ fetch_argument _ fetch-Keeps λ b.
      bind _ (operand a) _ (operand-Keeps a.type a.value) λ v.
        bind _ (operand b) _ (operand-Keeps b.type b.value)
          λ w m h. returns (same-Keeps p blocks m _ refl refl h.key refl refl h)

  push_value-Keeps : (t : ArgType) (v : ℕ) → K (Stack.push_value t v)
  unfolding Stack.push_value
  push_value-Keeps number v = search keeps
  push_value-Keeps t v = load_arg-Keeps t v

  pub spush-Keeps : (a : RawArgument) → K (Stack.spush a)
  unfolding Stack.spush
  spush-Keeps a = search (operands, push_value-Keeps) depth 14

  pub spop-Keeps : (a : RawArgument) → K (Stack.spop a)
  unfolding Stack.spop
  spop-Keeps a = search operands depth 14

  jmp_target-Keeps : (t : ArgType) (v : ℕ) → K (Control.jmp_target t v)
  unfolding Control.jmp_target
  jmp_target-Keeps address v = search keeps
  jmp_target-Keeps t v = load_arg-Keeps t v

  branch_target-Keeps : (t : ArgType) (v : ℕ) → K (Control.branch_target t v)
  unfolding Control.branch_target
  branch_target-Keeps address v = search keeps
  branch_target-Keeps number v = search keeps
  branch_target-Keeps t v = load_arg-Keeps t v

  pub jmp-Keeps : K Control.jmp
  unfolding Control.jmp
  jmp-Keeps = search (operands, jmp_target-Keeps) depth 12

  pub branch_if-Keeps : (test : Machine → Bool) → K (Control.branch_if test)
  unfolding Control.branch_if
  branch_if-Keeps test = search (operands, branch_target-Keeps) depth 12

  call_target-Keeps : (t : ArgType) (v : ℕ) → K (Control.call_target t v)
  unfolding Control.call_target
  call_target-Keeps address v = search keeps depth 14
  call_target-Keeps t v = search keeps

  pub call-Keeps : K Control.call
  unfolding Control.call
  call-Keeps = search (operands, call_target-Keeps) depth 12

  pub ret-Keeps : K Control.ret
  unfolding Control.ret
  ret-Keeps = search operands depth 14

  take_chunk-Keeps : (size first dimension : ℕ) → K (Heap.take_chunk size first dimension)
  unfolding Heap.take_chunk
  take_chunk-Keeps size first dimension = search keeps depth 14

  find_chunk-Keeps : (fuel size first : ℕ) → K (Heap.find_chunk fuel size first)
  unfolding Heap.find_chunk
  find_chunk-Keeps zero size first = λ m h. runs_out
  find_chunk-Keeps (suc fuel) size first =
      search (keeps, take_chunk-Keeps, find_chunk-Keeps fuel) depth 14

  size_value-Keeps : (t : ArgType) (v : ℕ) → K (Heap.size_value t v)
  unfolding Heap.size_value
  size_value-Keeps number v = search keeps
  size_value-Keeps t v = load_arg-Keeps t v

  pub halloc-Keeps : K Heap.halloc
  unfolding Heap.halloc
  halloc-Keeps = search (operands, size_value-Keeps, find_chunk-Keeps) depth 14

  coalesce-Keeps : (fuel chunk : ℕ) → K (Heap.coalesce fuel chunk)
  unfolding Heap.coalesce
  coalesce-Keeps zero chunk = λ m h. runs_out
  coalesce-Keeps (suc fuel) chunk = search (keeps, coalesce-Keeps fuel) depth 20

  userstart-Keeps : (t : ArgType) (v : ℕ) → K (Heap.userstart t v)
  unfolding Heap.userstart
  userstart-Keeps address v = search keeps
  userstart-Keeps t v = load_arg-Keeps t v

  release-Keeps : (start : ℕ) → K (Heap.release start)
  unfolding Heap.release
  release-Keeps start = search (keeps, coalesce-Keeps) depth 14

  pub hfree-Keeps : K Heap.hfree
  unfolding Heap.hfree
  hfree-Keeps = search (operands, userstart-Keeps, release-Keeps) depth 14
