-- ===== src/Program/Whole/Finished.antt =====
-- The run of a program's binary in src/main.cpp, from the loading to the message at the end.
use custom_isa_8bit_vm.Base.{
  ℕ, ℤ, suc, ◌+◌, ◌≤◌, ◌≡◌, refl, ap, ◌∙◌, false, some, List, [], ◌∷◌, ◌++◌, arith,
}
use custom_isa_8bit_vm.Isa.{RegisterMap}
use custom_isa_8bit_vm.MemoryManager.View.{program_ram}
use custom_isa_8bit_vm.Process.{to_addr}
use custom_isa_8bit_vm.Vm.State.{
  ◌>>◌, Machine, returned, returned_control, register_cell, byte_of_type, get_gui, gui_cell,
}
use custom_isa_8bit_vm.Vm.Effects.{bind_lem}
use custom_isa_8bit_vm.Vm.Operand.Fetch.{advanced}
use custom_isa_8bit_vm.Vm.Host.{Host}
use custom_isa_8bit_vm.Vm.Exec.{step, loop, close_window, report, register_snapshot}
use custom_isa_8bit_vm.Vm.Exec.Halts.{
  halted, step-halt, loop-continues, loop-stops, close_window-headless,
}
use custom_isa_8bit_vm.Vm.Exec.Places.{in_register, literal, with_cell}
use custom_isa_8bit_vm.Vm.Exec.Compute.{step-Computes, moves}
use custom_isa_8bit_vm.Loader.{new_machine, run_program}
use custom_isa_8bit_vm.Program.{run_binary}
use custom_isa_8bit_vm.Program.Tape.{tape}
use custom_isa_8bit_vm.Program.Tree.{Tree, AllBytes, size, code, World, world, meaning}
use custom_isa_8bit_vm.Program.Tree.Reached.{
  Region, IsOn, Lies, Lies-front, Lies-drop, Lies-Holds, Lies-continues, Round, Reached, Round-then,
}
use custom_isa_8bit_vm.Program.Tree.Lines.{with_cell-IsOn}
use custom_isa_8bit_vm.Program.Tree.Loops.{length-code}
use custom_isa_8bit_vm.Program.Tree.Runs.{meaning-Runs}
use custom_isa_8bit_vm.Program.Listing.{origin, start_code, binary}
use custom_isa_8bit_vm.Program.Whole.{start_world}
use custom_isa_8bit_vm.Program.Whole.Loaded.{
  region, begun, begun-IsOn, begun-at, begun-Lies, begun-world, run_program-begun,
}

-- `MOV A, 2`.
abbrev pointer_two : Machine → World
pointer_two m = record (world m) { memory = record (tape m) { pointer = 2 } }

pub start-Round :
    (host : Host) (r : Region) (row : ℕ) (m : Machine) (a : ℕ)
    → IsOn r m
    → m.process.pc ≡ r.start + a
    → Lies r a start_code
    → Round host r row m (a + 5) (pointer_two m)
unfolding byte_of_type
start-Round host r row m a on at h = record {
  after = with_cell (register_cell 0) 2 (advanced m 5);
  goes = Lies-continues r a start_code m on at (omega arith) h;
  steps =
      step-Computes host row 0x12 (λ a b. b) (in_register 1) (literal 2) m moves
        (Lies-Holds r a start_code m on at h) (omega (arith, h.in_ram, at))
        (omega arith, omega arith) (omega arith);
  on = with_cell-IsOn r (register_cell 0) 2 5 m tt on;
  at = omega (arith, at);
  world_is = refl;
}

-- The loop behind a HALT.
halts :
    (host : Host) (r : Region) (row : ℕ) (m : Machine) (a k : ℕ)
    → IsOn r m
    → m.process.pc ≡ r.start + a
    → Lies r a (0xFF ∷ [])
    → loop host (suc (suc k)) row m ≡ returned tt (halted m.process.pc m)
halts host r row m a k on at h =
    loop-continues host (suc k) row m (Lies-continues r a (0xFF ∷ []) m on at (omega arith) h)
    ∙ bind_lem (step host row) _ m (
        step-halt host row m (omega (arith, h.in_ram, at)) (Lies-Holds r a (0xFF ∷ []) m on at h).0)
    ∙ loop-stops host k (row + 1) (halted m.process.pc m) refl

-- What `exec` leaves behind a loop without a window.
abbrev left : Machine → Machine
left m = record m {
  process = record m.process { pc = to_addr m.process.first_sector };
  output = m.output ++ returned_control ∷ [];
}

-- How the program ends: with enough fuel `main` prints the registers of a machine with this tape,
-- this input left, and this output in front of the message.
pub record Finished (host : Host) (t : Tree) (input : List ℤ) (w : World) : Type 0 where
  pub rounds : ℕ
  pub after : Machine
  pub prints :
      (elements : RegisterMap) (k : ℕ)
      → run_binary host elements (rounds + k) (binary t) (new_machine input)
        ≡ returned (register_snapshot elements after) after
  pub memory_is : tape after ≡ w.memory
  pub input_is : after.input ≡ w.input
  pub output_is : after.output ≡ w.output ++ returned_control ∷ []

module _ (host : Host) (t : Tree) (input : List ℤ) (bytes : AllBytes t)
    (room : origin + size t + 1 + 2000 ≤ program_ram) where
  abbrev pub on_tape : Region
  on_tape = region t input bytes room

  abbrev pub first : Machine
  first = begun t input bytes room

  pub program_Lies : Lies on_tape origin (code origin t ++ 0xFF ∷ [])
  program_Lies =
      Lies-drop on_tape 30002 origin start_code (code origin t ++ 0xFF ∷ []) refl
        (begun-Lies t input bytes room)

  halt_Lies : Lies on_tape (origin + size t) (0xFF ∷ [])
  halt_Lies =
      Lies-drop on_tape origin (origin + size t) (code origin t) (0xFF ∷ [])
        (ap (λ n. origin + n) (length-code t origin)) program_Lies

  -- The loop comes to HALT with what the program means.
  at_halt :
      (fuel : ℕ) (w : World)
      → meaning fuel t (start_world t input) ≡ some w
      → Reached host on_tape 1 first (origin + size t) w
  at_halt fuel w e =
      let start =
        start-Round host on_tape 1 first 30002 (begun-IsOn t input bytes room)
          (begun-at t input bytes room)
          (Lies-front on_tape 30002 start_code _ (begun-Lies t input bytes room)) in
      Round-then host on_tape 1 first origin (origin + size t) (pointer_two first) w start (
        meaning-Runs host on_tape fuel t 2 start.after origin w start.on start.at
          (Lies-front on_tape origin (code origin t) (0xFF ∷ []) program_Lies) bytes
          (ap (meaning fuel t) (start.world_is ∙ begun-world t input bytes room) ∙ e))

  headless_end : (m : Machine) → IsOn on_tape m → get_gui (halted m.process.pc m) ≡ false
  unfolding get_gui
  headless_end m on = rw (on.same gui_cell on_tape.in_ram) on_tape.headless

  ending :
      (row : ℕ) (m : Machine) (fuel : ℕ)
      → IsOn on_tape m
      → (close_window host fuel >> report) (halted m.process.pc m)
        ≡ returned tt (left (halted m.process.pc m))
  unfolding report
  ending row m fuel on =
      bind_lem (close_window host fuel) _ (halted m.process.pc m)
        (close_window-headless host fuel (halted m.process.pc m) (headless_end m on))

  -- For a program with operands below 256 and room for its binary, the heap and the stack in the RAM:
  -- where the program comes to an end, so does `main` without a window on its binary, with any
  -- fuel from some number on, whatever the host, and with the tape, the input that is left and the
  -- output as the program says, behind which stands the message that control is returned.
  pub run_binary-Finished :
      (fuel : ℕ) (w : World)
      → meaning fuel t (start_world t input) ≡ some w
      → Finished host t input w
  unfolding run_binary
  run_binary-Finished fuel w e =
      let r = at_halt fuel w e in
      let h = halted r.after.process.pc r.after in
      record {
        rounds = r.rounds + 2;
        after = left h;
        prints = λ elements k.
            let fuel_is : r.rounds + 2 + k ≡ r.rounds + suc (suc k) = omega arith in
            bind_lem (run_program host false (r.rounds + 2 + k) (binary t)) _ (new_machine input) (
              run_program-begun t input bytes room host (r.rounds + 2 + k)
              ∙ bind_lem (loop host (r.rounds + 2 + k) 1) _ first (
                  ap (λ n. loop host n 1 first) fuel_is
                  ∙ r.goes_on (suc (suc k))
                  ∙ halts host on_tape (1 + r.rounds) r.after (origin + size t) k r.on r.at
                      halt_Lies)
              ∙ ending 1 r.after (r.rounds + 2 + k) r.on);
        memory_is = ap (λ (v : World). v.memory) r.world_is;
        input_is = ap (λ (v : World). v.input) r.world_is;
        output_is = ap (λ (v : World). v.output ++ returned_control ∷ []) r.world_is;
      }
