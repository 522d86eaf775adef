-- ===== src/Program/Tree/Commands.antt =====
-- PRINT and INPUT on the cell under the pointer, in a round of the loop of `exec` of src/VM.cpp.
use custom_isa_8bit_vm.Base.{
  ℕ, ◌+◌, ◌≤◌, ◌<◌, ◌≡◌, refl, ◌∙◌, false, [], ◌∷◌, ◌++◌, List, ℤ, to_byte, arith,
}
use custom_isa_8bit_vm.Config.{ram_size}
use custom_isa_8bit_vm.Process.{to_addr}
use custom_isa_8bit_vm.Vm.State.{
  Machine, Outcome, returned, ram_cell, printed, get_gui, gui_cell, indirect_reg, byte_of_type,
}
use custom_isa_8bit_vm.Vm.Effects.{bind_lem, read_then}
use custom_isa_8bit_vm.Vm.Operand.{fetch_argument, operand_of, write_arg, resolve_writeable_arg}
use custom_isa_8bit_vm.Vm.Operand.Fetch.{Holds, advanced, fetch_argument_lem}
use custom_isa_8bit_vm.Vm.Host.{Host, has_window}
use custom_isa_8bit_vm.Vm.Alu.{print_value}
use custom_isa_8bit_vm.Vm.Framebuffer.{input, input_value, next_input}
use custom_isa_8bit_vm.Vm.Exec.{step, decode, find_instruction, dispatch, execute}
use custom_isa_8bit_vm.Vm.Exec.Places.{
  at_register, from, with_cell, operand_lem, resolve_lem, store_lem,
}
use custom_isa_8bit_vm.Program.Tape.{cell-written}
use custom_isa_8bit_vm.Program.Block.{SameMemory-path}
use custom_isa_8bit_vm.Program.Tree.{world, shown, entered}
use custom_isa_8bit_vm.Program.Tree.Reached.{
  Region, IsOn, kept-IsOn, Lies, Lies-Holds, Lies-continues, Round,
}
use custom_isa_8bit_vm.Program.Tree.Lines.{with_cell-IsOn, pointer_below, world_path}

-- A step on an opcode in the RAM is a step of its instruction on the bytes behind it.
pub step-opcode :
    (host : Host) (row opcode : ℕ) (m : Machine)
    → m.ram m.process.pc ≡ opcode
    → m.process.pc < ram_size
    → step host row m ≡ dispatch host row opcode (decode opcode) (advanced m 1)
unfolding step
step-opcode host row opcode m e l =
    let next : to_addr (m.process.pc + 1) ≡ m.process.pc + 1 = omega (arith, l) in
    read_then m.process.pc _ m l ∙ rw (e, next) refl

-- The cell that an instruction on `[A]` is about.
abbrev pub pointed : Machine → ℕ
pointed m = m.process.first_sector + m.registers 0

-- The machine behind an INPUT without a window: a number that is read is written to the cell.
abbrev pub typed : List ℤ → Machine → Machine
typed [] m = with_cell (ram_cell (pointed m)) 0 (advanced m 2)
typed (x ∷ xs) m =
    with_cell (ram_cell (pointed m)) (to_byte x) (record (advanced m 2) { input = xs })

-- The number that is read.
abbrev taken : List ℤ → Machine → Outcome ℕ
taken [] m = returned 0 m
taken (x ∷ xs) m = returned (to_byte x) (record m { input = xs })

three : (m : Machine) → m.process.pc + 1 + 2 ≡ m.process.pc + 3
three m = omega arith

module _ (m : Machine) (h : Holds m.ram m.process.pc (3 ∷ 1 ∷ []))
    (l : m.process.pc + 2 ≤ ram_size) where
  fetch_pointed :
      fetch_argument m ≡ returned (record { type = indirect_reg; value = 1 }) (advanced m 2)
  unfolding byte_of_type
  fetch_pointed = fetch_argument_lem indirect_reg (1 ∷ []) m (tt, refl) h (omega (arith, l))

  module _ (p : pointed m < ram_size) where
    print_lem :
        print_value m
        ≡ returned tt
            (record (advanced m 2) { output = m.output ++ printed (m.ram (pointed m)) ∷ [] })
    unfolding print_value
    print_lem =
        bind_lem fetch_argument _ m fetch_pointed
        ∙ bind_lem (operand_of indirect_reg 1) _ (advanced m 2)
            (operand_lem (from (at_register 1)) (advanced m 2) (omega arith, (omega arith, p)))

    write_lem :
        (v : ℕ) (xs : List ℤ)
        → write_arg
            (record { type = indirect_reg; value = 1 })
            v
            (record (advanced m 2) { input = xs })
          ≡ returned tt (with_cell (ram_cell (pointed m)) v (record (advanced m 2) { input = xs }))
    unfolding write_arg
    write_lem v xs =
        let m1 = record (advanced m 2) { input = xs } in
        bind_lem (resolve_writeable_arg indirect_reg 1) _ m1
          (resolve_lem (at_register 1) m1 (omega arith, (omega arith, p)))
        ∙ store_lem (ram_cell (pointed m)) v m1

    module _ (w : get_gui m ≡ false) where
      input_value_lem :
          (xs : List ℤ) → m.input ≡ xs → input_value (advanced m 2) ≡ taken xs (advanced m 2)
      unfolding input_value next_input
      input_value_lem [] e =
          bind_lem has_window _ (advanced m 2) {m' = advanced m 2} {a = false}
            (rw (w, has_window) refl)
          ∙ rw e refl
      input_value_lem (x ∷ xs) e =
          bind_lem has_window _ (advanced m 2) {m' = advanced m 2} {a = false}
            (rw (w, has_window) refl)
          ∙ rw e refl

      input_lem : (xs : List ℤ) → m.input ≡ xs → input m ≡ returned tt (typed xs m)
      unfolding input
      input_lem [] e =
          bind_lem fetch_argument _ m fetch_pointed
          ∙ bind_lem input_value _ (advanced m 2) (input_value_lem [] e)
          ∙ write_lem 0 m.input
      input_lem (x ∷ xs) e =
          bind_lem fetch_argument _ m fetch_pointed
          ∙ bind_lem input_value _ (advanced m 2) (input_value_lem (x ∷ xs) e)
          ∙ write_lem (to_byte x) xs

typed-IsOn :
    (r : Region) (xs : List ℤ) (m : Machine)
    → IsOn r m
    → pointed m < r.start + 256
    → IsOn r (typed xs m)
typed-IsOn r [] m on p = with_cell-IsOn r (ram_cell (pointed m)) 0 2 m p on
typed-IsOn r (x ∷ xs) m on p =
    with_cell-IsOn r (ram_cell (pointed m)) (to_byte x) 2 (record m { input = xs }) p
      (kept-IsOn r m m.process.pc xs m.output m.zero m.sign on)

typed-pc : (xs : List ℤ) (m : Machine) → (typed xs m).process.pc ≡ m.process.pc + 2
typed-pc [] m = refl
typed-pc (x ∷ xs) m = refl

typed-world : (xs : List ℤ) (m : Machine) → m.input ≡ xs → world (typed xs m) ≡ entered xs (world m)
typed-world [] m e =
    world_path
      (SameMemory-path
        (refl, (refl, (refl, cell-written m.ram m.process.first_sector (m.registers 0) _ _ refl))))
      refl refl
typed-world (x ∷ xs) m e =
    world_path
      (SameMemory-path
        (refl, (refl, (refl, cell-written m.ram m.process.first_sector (m.registers 0) _ _ refl))))
      refl refl

-- The rounds.
module _ (host : Host) (r : Region) (row : ℕ) (m : Machine) (a : ℕ) (on : IsOn r m)
    (at : m.process.pc ≡ r.start + a) where
  pub show-Round : Lies r a (0x01 ∷ 3 ∷ 1 ∷ []) → Round host r row m (a + 3) (shown (world m))
  unfolding decode find_instruction dispatch execute
  show-Round h =
      let bytes = Lies-Holds r a (0x01 ∷ 3 ∷ 1 ∷ []) m on at h in
      let m1 = record (advanced m 3) { output = m.output ++ printed (m.ram (pointed m)) ∷ [] } in
      record {
        after = m1;
        goes = Lies-continues r a (0x01 ∷ 3 ∷ 1 ∷ []) m on at (omega arith) h;
        steps =
            step-opcode host row 0x01 m bytes.0 (omega (arith, h.in_ram, at))
            ∙ print_lem (advanced m 1) bytes.1 (omega (arith, h.in_ram, at))
                (omega (arith, pointer_below r m on, r.in_ram))
            ∙ rw (three m) refl;
        on = kept-IsOn r m (m.process.pc + 3) m.input m1.output m.zero m.sign on;
        at = omega (arith, at);
        world_is = refl;
      }

  headless : get_gui m ≡ false
  unfolding get_gui
  headless = rw (on.same gui_cell r.in_ram) r.headless

  pub enter-Round :
      Lies r a (0x21 ∷ 3 ∷ 1 ∷ []) → Round host r row m (a + 3) (entered m.input (world m))
  unfolding decode find_instruction dispatch execute get_gui
  enter-Round h =
      let bytes = Lies-Holds r a (0x21 ∷ 3 ∷ 1 ∷ []) m on at h in
      record {
        after = typed m.input (advanced m 1);
        goes = Lies-continues r a (0x21 ∷ 3 ∷ 1 ∷ []) m on at (omega arith) h;
        steps =
            step-opcode host row 0x21 m bytes.0 (omega (arith, h.in_ram, at))
            ∙ input_lem (advanced m 1) bytes.1 (omega (arith, h.in_ram, at))
                (omega (arith, pointer_below r m on, r.in_ram)) headless m.input refl;
        on =
            typed-IsOn r m.input (advanced m 1)
              (kept-IsOn r m (m.process.pc + 1) m.input m.output m.zero m.sign on)
              (pointer_below r m on);
        at = typed-pc m.input (advanced m 1) ∙ omega (arith, at);
        world_is = typed-world m.input (advanced m 1) refl;
      }
