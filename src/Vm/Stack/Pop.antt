-- ===== src/Vm/Stack/Pop.antt =====
-- `VM::spop` of src/VM.cpp on the contents of the stack.
use custom_isa_8bit_vm.Base.{
  lt→ltb, le→ltb, ℕ, ◌+◌, ◌-◌, ◌%◌, ◌≤◌, ◌<◌, ◌≡◌, ◌∙◌, List, [], ◌∷◌, arith,
}
use custom_isa_8bit_vm.Vm.State.{RawArgument, Machine, returned, thrown, update}
use custom_isa_8bit_vm.Process.{to_addr}
use custom_isa_8bit_vm.Exception.{stack_underflow}
use custom_isa_8bit_vm.Config.{register_count}
use custom_isa_8bit_vm.Vm.Operand.{write_arg}
use custom_isa_8bit_vm.Vm.Effects.{read_then, bind_lem, in_register, write_register}
use custom_isa_8bit_vm.Vm.Stack.{dimension, spop}
use custom_isa_8bit_vm.Vm.Stack.Contents.{contents, top, IsStack, slice_nil, contents-top}

-- The machine once the register `r` has the value `v` and a byte is off the stack.
abbrev pub popped : Machine → ℕ → ℕ → Machine
popped m r v = record m {
  registers = update m.registers (r - 1) v;
  process = record m.process { sp = m.process.sp + 1 };
}

module _ (m : Machine) (s : IsStack m.process) where
  -- A pop into one of the registers, from a stack within its bounds whose contents begin with a byte,
  -- takes that byte off the contents into the register, and changes nothing else.
  pub spop_register :
      (r v : ℕ) (vs : List ℕ)
      → 0 < r
      → r ≤ register_count
      → v < 256
      → contents m ≡ v ∷ vs
      → (spop (in_register r) m ≡ returned tt (popped m r v))
        × (contents (popped m r v) ≡ vs)
        × IsStack (popped m r v).process
  unfolding spop contents
  spop_register r v vs p q b e =
      let (low, first, rest) = contents-top m v vs e in
      let sp : to_addr (m.process.sp + 1) ≡ m.process.sp + 1 = omega arith in
      let cut : m.ram m.process.sp % 256 ≡ v = omega arith in
      (
        rw (le→ltb (top m.process) (m.process.sp + 1) (omega arith)) (
            read_then m.process.sp _ m (omega arith)
            ∙ bind_lem (write_arg (in_register r) (m.ram m.process.sp)) _ m
                (write_register r _ m p q)
            ∙ rw (cut, sp)),
        rest,
        omega arith,
      )

  -- A pop from a stack within its bounds that is empty throws and changes nothing.
  pub spop_underflow : (arg : RawArgument) → contents m ≡ [] → spop arg m ≡ thrown stack_underflow m
  unfolding spop contents
  spop_underflow arg e =
      let n = slice_nil m.ram m.process.sp (top m.process - m.process.sp) e in
      rw (lt→ltb (top m.process) (m.process.sp + dimension arg.type) (ground arith))
