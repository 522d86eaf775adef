-- ===== src/Vm/Control/Call.antt =====
-- CALL and RET of src/VM.cpp as a pair.
use custom_isa_8bit_vm.Base.{le→ltb, ℕ, ◌+◌, ◌-◌, ◌/◌, ◌%◌, ◌^◌, ◌≤◌, ◌<◌, ◌≡◌, ap, ◌∙◌, arith}
use custom_isa_8bit_vm.Vm.State.{address, Machine, returned, update, word}
use custom_isa_8bit_vm.Process.{to_addr}
use custom_isa_8bit_vm.Config.{ram_size}
use custom_isa_8bit_vm.Vm.Effects.{write_then, read_then}
use custom_isa_8bit_vm.Vm.Control.{call_target, ret}
use custom_isa_8bit_vm.Vm.Stack.Contents.{top, IsStack}

-- The machine behind the call of a label: the address behind the call lies on the stack.
abbrev pub called : ℕ → Machine → Machine
called target m = record m {
  ram =
      update (update m.ram (m.process.sp - 2) (m.process.pc / 256 % 256 % 256))
        (m.process.sp - 2 + 1) (m.process.pc % 256 % 256);
  process = record m.process { pc = target % 2 ^ 16; sp = m.process.sp - 2 };
}

-- What a subroutine may leave behind: it has popped what it pushed, has kept the two bytes of the
-- return address, and the process has its region.
pub record Balanced (target : ℕ) (m m' : Machine) : Type 0 where
  pub sp_back : m'.process.sp ≡ m.process.sp - 2
  pub region : top m'.process ≡ top m.process
  pub high_kept : m'.ram (m.process.sp - 2) ≡ (called target m).ram (m.process.sp - 2)
  pub low_kept : m'.ram (m.process.sp - 1) ≡ (called target m).ram (m.process.sp - 1)

module _ (m : Machine) (s : IsStack m.process) (target : ℕ) where
  call-called :
      m.process.stack_limit + 2 ≤ m.process.sp
      → call_target address target m ≡ returned tt (called target m)
  unfolding call_target
  call-called h =
      let sp : to_addr (m.process.sp + 2 ^ 16 - 2) ≡ m.process.sp - 2 = omega arith in
      rw (sp, le→ltb (m.process.sp - 2) m.process.stack_limit (omega arith))
        (write_then (m.process.sp - 2) _ _ _ (omega arith)
          ∙ write_then (m.process.sp - 2 + 1) _ _ _ (omega arith))

  -- Two bytes at the stack pointer, read back as the address that a RET jumps to.
  ret_lem :
      (m' : Machine)
      → m'.process.sp + 2 ≤ top m'.process
      → top m'.process ≤ ram_size
      → ret m'
        ≡ returned tt (record m' {
          process = record m'.process {
            sp = m'.process.sp + 2;
            pc = to_addr (word (m'.ram m'.process.sp) (m'.ram (m'.process.sp + 1)));
          };
        })
  unfolding ret
  ret_lem m' h k =
      let sp : to_addr (m'.process.sp + 2) ≡ m'.process.sp + 2 = omega arith in
      rw (le→ltb (top m'.process) (m'.process.sp + 2) (omega arith)) (
        read_then m'.process.sp _ m' (omega arith)
        ∙ read_then (m'.process.sp + 1) _ m' (omega arith)
        ∙ rw sp)

  ret_back :
      (m' : Machine)
      → m.process.stack_limit + 2 ≤ m.process.sp
      → m.process.pc < 2 ^ 16
      → Balanced target m m'
      → ret m'
        ≡ returned tt
            (record m' { process = record m'.process { sp = m.process.sp; pc = m.process.pc } })
  ret_back m' h k b =
      let next : m'.process.sp + 1 ≡ m.process.sp - 1 = omega arith in
      let back : m'.process.sp + 2 ≡ m.process.sp = omega arith in
      let high : m'.ram m'.process.sp ≡ m.process.pc / 256 =
        ap m'.ram b.sp_back ∙ b.high_kept ∙ ground arith in
      let low : m'.ram (m'.process.sp + 1) ≡ m.process.pc % 256 =
        ap m'.ram next ∙ b.low_kept ∙ ground arith in
      let addr : to_addr (word (m'.ram m'.process.sp) (m'.ram (m'.process.sp + 1))) ≡ m.process.pc =
        rw (high, low) (omega arith) in
      ret_lem m' (omega (arith, b.region)) (omega (arith, b.region)) ∙ rw (addr, back)

  -- A call of a label, with room for two bytes on the stack, puts the address behind it on the stack
  -- and goes to the target; and a RET in any later machine that has the stack pointer and these two
  -- bytes as the call left them, in the same region, goes on behind the call, with the stack pointer
  -- as it was before it.
  pub ret-call :
      (m' : Machine)
      → m.process.stack_limit + 2 ≤ m.process.sp
      → m.process.pc < 2 ^ 16
      → Balanced target m m'
      → (call_target address target m ≡ returned tt (called target m))
        × (ret m'
            ≡ returned tt (record m' {
              process = record m'.process { sp = m.process.sp; pc = m.process.pc };
            }))
  ret-call m' h k b = (call-called h, ret_back m' h k b)
