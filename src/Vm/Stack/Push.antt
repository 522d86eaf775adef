-- ===== src/Vm/Stack/Push.antt =====
-- `VM::spush` of src/VM.cpp on the contents of the stack.
use custom_isa_8bit_vm.Base.{
  lt→ltb, le→ltb, ℕ, ◌+◌, ◌-◌, ◌/◌, ◌%◌, ◌^◌, ◌≤◌, ◌<◌, ◌≡◌, refl, ◌∙◌, List, [], ◌∷◌, ◌++◌, arith,
}
use custom_isa_8bit_vm.Vm.State.{RawArgument, Machine, Outcome, returned, thrown, update}
use custom_isa_8bit_vm.Process.{to_addr}
use custom_isa_8bit_vm.Exception.{stack_overflow}
use custom_isa_8bit_vm.Vm.Effects.{write_lem, write_then, bind_lem}
use custom_isa_8bit_vm.Vm.Stack.{dimension, push_value, spush}
use custom_isa_8bit_vm.Vm.Stack.Contents.{contents, top, IsStack, slice_push, slice_push_word}

-- The outcome of a push: the stack stays within its bounds, the pushed bytes stand in front of its
-- contents, and the registers are as before.
pub record Pushed (m : Machine) (pushed : List ℕ) (o : Outcome (Unit {0})) : Type 0 where
  pub after : Machine
  pub same : o ≡ returned tt after
  pub stack : IsStack after.process
  pub contents_are : contents after ≡ pushed ++ contents m
  pub registers_kept : after.registers ≡ m.registers

module _ (m : Machine) (s : IsStack m.process) where
  abbrev with_stack : (ℕ → ℕ) → ℕ → Machine
  with_stack f sp = record m { ram = f; process = record m.process { sp = sp } }

  abbrev lowered : ℕ → Machine
  lowered sp = record m { process = record m.process { sp = sp } }

  module _ (arg : RawArgument) (v : ℕ) (e : push_value arg.type arg.value m ≡ returned v m) where
    -- A push of one byte, of an operand whose value can be read, with room for it on a stack within
    -- its bounds, puts the value's low byte in front of the contents, keeps the stack within its
    -- bounds and the registers as they were.
    pub spush_byte :
        dimension arg.type ≡ 1
        → m.process.stack_limit < m.process.sp
        → Pushed m (v % 256 ∷ []) (spush arg m)
    unfolding spush contents
    spush_byte d h =
        let sp : to_addr (m.process.sp + 2 ^ 16 - 1) ≡ m.process.sp - 1 = omega arith in
        let cut : v % 256 % 256 ≡ v % 256 = omega arith in
        record {
          after = with_stack (update m.ram (m.process.sp - 1) (v % 256 % 256)) (m.process.sp - 1);
          same =
              bind_lem (push_value arg.type arg.value) _ m e
              ∙ rw (d, sp, le→ltb (m.process.sp - 1) m.process.stack_limit (omega arith))
                  (write_lem (m.process.sp - 1) _ (lowered (m.process.sp - 1)) (omega arith));
          stack = omega arith;
          contents_are =
              rw cut
                (slice_push m.ram m.process.sp (top m.process) (v % 256) (omega arith) s.below_top);
          registers_kept = refl;
        }

    -- A push of two bytes, of an operand whose value can be read, with room for them on a stack
    -- within its bounds, puts the value's high and low byte in front of the contents, keeps the stack
    -- within its bounds and the registers as they were.
    pub spush_word :
        dimension arg.type ≡ 2
        → m.process.stack_limit + 2 ≤ m.process.sp
        → Pushed m (v / 256 % 256 ∷ v % 256 ∷ []) (spush arg m)
    unfolding spush contents
    spush_word d h =
        let sp : to_addr (m.process.sp + 2 ^ 16 - 2) ≡ m.process.sp - 2 = omega arith in
        let cut : v % 256 % 256 ≡ v % 256 = omega arith in
        let cut_high : v / 256 % 256 % 256 ≡ v / 256 % 256 = omega arith in
        record {
          after =
              with_stack
                (update (update m.ram (m.process.sp - 2) (v / 256 % 256 % 256))
                  (m.process.sp - 2 + 1) (v % 256 % 256))
                (m.process.sp - 2);
          same =
              bind_lem (push_value arg.type arg.value) _ m e
              ∙ rw (d, sp, le→ltb (m.process.sp - 2) m.process.stack_limit (omega arith))
                  (write_then (m.process.sp - 2) _ _ (lowered (m.process.sp - 2)) (omega arith)
                    ∙ write_lem (m.process.sp - 2 + 1) _ _ (omega arith));
          stack = omega arith;
          contents_are =
              rw (cut, cut_high)
                (slice_push_word m.ram m.process.sp (top m.process) (v / 256 % 256) (v % 256)
                  (omega arith) s.below_top);
          registers_kept = refl;
        }

    -- A push of an operand whose value can be read, without room for it above a bound that is not 0,
    -- where the stack pointer is not less than the operand's size, throws, with the stack pointer
    -- lowered and everything else as it was.
    pub spush_overflow :
        0 < m.process.stack_limit
        → dimension arg.type ≤ m.process.sp
        → m.process.sp < m.process.stack_limit + dimension arg.type
        → spush arg m ≡ thrown stack_overflow (lowered (m.process.sp - dimension arg.type))
    unfolding spush
    spush_overflow p h l =
        let sp : to_addr (m.process.sp + 2 ^ 16 - dimension arg.type)
            ≡ m.process.sp - dimension arg.type =
          omega arith in
        bind_lem (push_value arg.type arg.value) _ m e
        ∙ rw (sp, lt→ltb (m.process.sp - dimension arg.type) m.process.stack_limit (omega arith))
