-- ===== src/Program/Tree/Jumps.antt =====
-- The comparison at a label of a loop, and the jump behind it, in rounds of the loop of `exec` of
-- src/VM.cpp.
use custom_isa_8bit_vm.Base.{
  ◌==◌, if◌then◌else◌, Bool, ℕ, ◌+◌, ◌/◌, ◌%◌, ◌≤◌, ◌<◌, ◌≡◌, refl, ◌∙◌, not, true, false, [], ◌∷◌,
  arith,
}
use custom_isa_8bit_vm.Config.{ram_size}
use custom_isa_8bit_vm.Process.{to_addr}
use custom_isa_8bit_vm.Vm.State.{
  Machine, returned, number, address, indirect_reg, byte_of_type, word,
}
use custom_isa_8bit_vm.Vm.Alu.{cmp}
use custom_isa_8bit_vm.Vm.Control.{branch_if, je, jne}
use custom_isa_8bit_vm.Vm.Control.Compare.{compared, cmp-compared, branch_if-label}
use custom_isa_8bit_vm.Vm.Operand.Fetch.{Holds, advanced, fetch_argument_lem}
use custom_isa_8bit_vm.Vm.Host.{Host}
use custom_isa_8bit_vm.Vm.Exec.{decode, find_instruction, dispatch, execute}
use custom_isa_8bit_vm.Vm.Exec.Places.{at_register, from, literal, operand_lem}
use custom_isa_8bit_vm.Vm.Exec.Compute.{fetch_place, fetch_source}
use custom_isa_8bit_vm.Brainfvck.LoopReplace.Memory.{here}
use custom_isa_8bit_vm.Program.Tape.{tape}
use custom_isa_8bit_vm.Program.Tree.{world, compare_code, jump_code}
use custom_isa_8bit_vm.Program.Tree.Reached.{
  Region, IsOn, kept-IsOn, Lies, Lies-Holds, Lies-continues, Round,
}
use custom_isa_8bit_vm.Program.Tree.Lines.{pointer_below}
use custom_isa_8bit_vm.Program.Tree.Commands.{step-opcode, pointed}

compare_lem :
    (m : Machine)
    → Holds m.ram m.process.pc (3 ∷ 1 ∷ 0 ∷ 0 ∷ [])
    → m.process.pc + 4 ≤ ram_size
    → pointed m < ram_size
    → cmp m ≡ returned tt (compared (m.ram (pointed m)) 0 (advanced m 4))
unfolding byte_of_type
compare_lem m h l p =
    let m4 = advanced m 4 in
    cmp-compared (record { type = indirect_reg; value = 1 }) (record { type = number; value = 0 })
      (m.ram (pointed m)) 0 m (advanced m 2) m4 m4 m4
      (fetch_place (at_register 1) (literal 0) m h l)
      (fetch_source (at_register 1) (literal 0) m h l)
      (operand_lem (from (at_register 1)) m4 (omega arith, (omega arith, p)))
      (operand_lem (literal 0) m4 (omega arith))

-- Where a jump to a label goes.
abbrev pub landed : Bool → ℕ → ℕ → ℕ
landed taken target a = if taken then target else a

module _ (host : Host) (r : Region) (row : ℕ) (m : Machine) (a : ℕ) (on : IsOn r m)
    (at : m.process.pc ≡ r.start + a) where
  pub compare-Round :
      Lies r a compare_code
      → (p : Round host r row m (a + 5) (world m)) × (p.after.zero ≡ (here (tape m) == 0))
  unfolding decode find_instruction dispatch execute
  compare-Round h =
      let bytes = Lies-Holds r a compare_code m on at h in
      let sum : m.process.pc + 1 + 4 ≡ m.process.pc + 5 = omega arith in
      let m1 = compared (m.ram (pointed m)) 0 (advanced m 5) in
      (
        record {
          after = m1;
          goes = Lies-continues r a compare_code m on at (omega arith) h;
          steps =
              step-opcode host row 0xB2 m bytes.0 (omega (arith, h.in_ram, at))
              ∙ compare_lem (advanced m 1) bytes.1 (omega (arith, h.in_ram, at))
                  (omega (arith, pointer_below r m on, r.in_ram))
              ∙ rw sum refl;
          on = kept-IsOn r m (m.process.pc + 5) m.input m.output m1.zero m1.sign on;
          at = omega (arith, at);
          world_is = refl;
        },
        refl,
      )

  module _ (target : ℕ) (in_ram : r.start + target ≤ ram_size) where
    jumped : Bool → Machine
    jumped taken = record m {
      process = record m.process { pc = if taken then r.start + target else m.process.pc + 4 };
    }

    jumped-IsOn : (taken : Bool) → IsOn r (jumped taken)
    unfolding jumped
    jumped-IsOn taken = kept-IsOn r m _ m.input m.output m.zero m.sign on

    jumped-at : (taken : Bool) → (jumped taken).process.pc ≡ r.start + landed taken target (a + 4)
    unfolding jumped
    jumped-at true = refl
    jumped-at false = omega (arith, at)

    branch_lem :
        (opcode : ℕ) (test : Machine → Bool)
        → Holds m.ram m.process.pc (jump_code opcode target)
        → m.process.pc + 4 ≤ ram_size
        → branch_if test (advanced m 1) ≡ returned tt (jumped (test (advanced m 4)))
    unfolding jumped byte_of_type
    branch_lem opcode test h l =
        let value = word (target / 256 % 256) (target % 256) in
        let place : to_addr (m.process.first_sector + value) ≡ r.start + target =
          omega (arith, in_ram, on.first) in
        let behind : m.process.pc + 1 + 3 ≡ m.process.pc + 4 = omega arith in
        let fetched =
          fetch_argument_lem address ((target / 256 % 256) ∷ (target % 256) ∷ []) (advanced m 1)
            (tt, refl) h.1 (omega (arith, l)) in
        branch_if-label test value (advanced m 1) _ fetched ∙ rw (place, behind) refl

    -- JE and JNE, by the flag of the comparison.
    pub je-Round :
        Lies r a (jump_code 0x41 target)
        → Round host r row m (landed m.zero target (a + 4)) (world m)
    unfolding decode find_instruction dispatch execute je jumped
    je-Round h =
        let bytes = Lies-Holds r a (jump_code 0x41 target) m on at h in
        record {
          after = jumped m.zero;
          goes = Lies-continues r a (jump_code 0x41 target) m on at (omega arith) h;
          steps =
              step-opcode host row 0x41 m bytes.0 (omega (arith, h.in_ram, at))
              ∙ branch_lem 0x41 (λ m'. m'.zero) bytes (omega (arith, h.in_ram, at));
          on = jumped-IsOn m.zero;
          at = jumped-at m.zero;
          world_is = refl;
        }

    pub jne-Round :
        Lies r a (jump_code 0x51 target)
        → Round host r row m (landed (not m.zero) target (a + 4)) (world m)
    unfolding decode find_instruction dispatch execute jne jumped
    jne-Round h =
        let bytes = Lies-Holds r a (jump_code 0x51 target) m on at h in
        record {
          after = jumped (not m.zero);
          goes = Lies-continues r a (jump_code 0x51 target) m on at (omega arith) h;
          steps =
              step-opcode host row 0x51 m bytes.0 (omega (arith, h.in_ram, at))
              ∙ branch_lem 0x51 (λ m'. not m'.zero) bytes (omega (arith, h.in_ram, at));
          on = jumped-IsOn (not m.zero);
          at = jumped-at (not m.zero);
          world_is = refl;
        }
