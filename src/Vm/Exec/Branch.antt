-- ===== src/Vm/Exec/Branch.antt =====
-- CMP and the conditional jump behind it, as two rounds of the loop of `exec` in src/VM.cpp.
use custom_isa_8bit_vm.Base.{
  ltb, ◌==◌, if◌then◌else◌, ℕ, ◌+◌, ◌≤◌, ◌<◌, ◌≡◌, refl, ap, ◌∙◌, Bool, not, [], ◌∷◌, arith,
}
use custom_isa_8bit_vm.Vm.State.{address, byte_of_type, RawArgument, Machine, returned, ◌>>◌, word}
use custom_isa_8bit_vm.Process.{to_addr}
use custom_isa_8bit_vm.Config.{ram_size}
use custom_isa_8bit_vm.Vm.Operand.{fetch_argument, operand_of}
use custom_isa_8bit_vm.Vm.Effects.{bind_lem, read_then}
use custom_isa_8bit_vm.Vm.Operand.Fetch.{Holds, advanced, fetch_argument_lem}
use custom_isa_8bit_vm.Vm.Alu
use custom_isa_8bit_vm.Vm.Control
use custom_isa_8bit_vm.Vm.Control.Compare.{compared, branch_if-label, cmp-compared}
use custom_isa_8bit_vm.Vm.Host.{Host}
use custom_isa_8bit_vm.Vm.Exec.{step, decode, find_instruction, dispatch, execute}

-- The conditional jumps, by what they ask of the two values that are compared.
pub data Jump : Type 0 where
  if_equal if_not_equal if_greater if_not_greater : Jump

unfoldable pub jump_opcode : Jump → ℕ
jump_opcode if_equal = 0x41
jump_opcode if_not_equal = 0x51
jump_opcode if_greater = 0x61
jump_opcode if_not_greater = 0x71

unfoldable pub taken : Jump → ℕ → ℕ → Bool
taken if_equal v w = v == w
taken if_not_equal v w = not (v == w)
taken if_greater v w = ltb w v
taken if_not_greater v w = not (ltb w v)

-- The machine at a label, if `goes`, or behind the jump instruction of four bytes.
abbrev pub jumped : Bool → ℕ → Machine → Machine
jumped goes target m = record m {
  process = record m.process {
    pc = if goes then to_addr (m.process.first_sector + target) else m.process.pc + 4;
  };
}

step-cmp :
    (host : Host) (row : ℕ) (m : Machine)
    → m.process.pc < ram_size
    → m.ram m.process.pc ≡ 0xB2
    → step host row m ≡ Alu.cmp (advanced m 1)
unfolding step decode find_instruction dispatch execute
step-cmp host row m l e =
    let next : to_addr (m.process.pc + 1) ≡ m.process.pc + 1 = omega (arith, l) in
    read_then m.process.pc _ m l ∙ rw (e, next) refl

module _ (host : Host) (row v w high low : ℕ) (m : Machine)
    (inside : m.process.pc + 4 ≤ ram_size) where
  label_branch :
      (test : Machine → Bool)
      → Holds m.ram (m.process.pc + 1) (byte_of_type address ∷ high ∷ low ∷ [])
      → Control.branch_if test (advanced (compared v w m) 1)
        ≡ returned tt
            (jumped (test (advanced (compared v w m) (1 + 3))) (word high low) (compared v w m))
  label_branch test h =
      let m' = compared v w m in
      let f =
        fetch_argument_lem address (high ∷ low ∷ []) (advanced m' 1) (tt, refl) h
          (omega (arith, inside)) in
      let sum : m.process.pc + 1 + 3 ≡ m.process.pc + (1 + 3) = omega arith in
      branch_if-label test (word high low) (advanced m' 1) _ f
      ∙ ap
          (λ q. returned tt (record m' {
            process = record m'.process {
              pc =
                  if test (record m' { process = record m'.process { pc = q } })
                  then to_addr (m.process.first_sector + word high low)
                  else q;
            };
          }))
          sum

  in_ram : m.process.pc < ram_size
  in_ram = omega (arith, inside)

  next : to_addr (m.process.pc + 1) ≡ m.process.pc + 1
  next = omega (arith, inside)

  step-jump :
      (j : Jump)
      → Holds m.ram m.process.pc (jump_opcode j ∷ byte_of_type address ∷ high ∷ low ∷ [])
      → step host row (compared v w m)
        ≡ returned tt (jumped (taken j v w) (word high low) (compared v w m))
  unfolding step decode find_instruction dispatch execute Control.je Control.jne Control.jg
      Control.jng taken jump_opcode
  step-jump if_equal h =
      read_then m.process.pc _ (compared v w m) in_ram
      ∙ rw (h.0, next) (label_branch (λ m. m.zero) h.1)
  step-jump if_not_equal h =
      read_then m.process.pc _ (compared v w m) in_ram
      ∙ rw (h.0, next) (label_branch (λ m. not m.zero) h.1)
  step-jump if_greater h =
      read_then m.process.pc _ (compared v w m) in_ram
      ∙ rw (h.0, next) (label_branch (λ m. m.sign) h.1)
  step-jump if_not_greater h =
      read_then m.process.pc _ (compared v w m) in_ram
      ∙ rw (h.0, next) (label_branch (λ m. not m.sign) h.1)

-- A round at a CMP, whose operands behind it can be fetched and have the values `v` and `w`, and the
-- next round, at the opcode of a conditional jump with the bytes of a label behind it: JE is taken
-- when they are equal, JNE when not, JG when `v` is greater, JNG when it is not; a jump that is not
-- taken goes on behind the label. All of these bytes are in the RAM.
pub cmp-jumps :
    (host : Host) (row : ℕ) (j : Jump) (a b : RawArgument) (v w high low : ℕ)
    (m m₁ m₂ m₃ m₄ : Machine)
    → m.process.pc < ram_size
    → m.ram m.process.pc ≡ 0xB2
    → fetch_argument (advanced m 1) ≡ returned a m₁
    → fetch_argument m₁ ≡ returned b m₂
    → operand_of a.type a.value m₂ ≡ returned v m₃
    → operand_of b.type b.value m₃ ≡ returned w m₄
    → Holds m₄.ram m₄.process.pc (jump_opcode j ∷ byte_of_type address ∷ high ∷ low ∷ [])
    → m₄.process.pc + 4 ≤ ram_size
    → (step host row >> step host (row + 1)) m
      ≡ returned tt (jumped (taken j v w) (word high low) (compared v w m₄))
cmp-jumps host row j a b v w high low m m₁ m₂ m₃ m₄ i code e₁ e₂ e₃ e₄ h l =
    bind_lem (step host row) _ m
      (step-cmp host row m i code ∙ cmp-compared a b v w (advanced m 1) m₁ m₂ m₃ m₄ e₁ e₂ e₃ e₄)
    ∙ step-jump host (row + 1) v w high low m₄ l j h
