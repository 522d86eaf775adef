-- ===== src/Vm/Exec/Halts.antt =====
-- Runs of `exec` of src/VM.cpp that come to HALT over bytes that are NOP, as `.skip` leaves them.
use custom_isa_8bit_vm.Base.{
  lt→ltb, ℕ, zero, suc, ◌+◌, ◌<◌, ◌≡◌, refl, sym, ap, ◌∙◌, true, false, [], ◌∷◌, ◌++◌, arith,
}
use custom_isa_8bit_vm.Vm.State.{Machine, returned, uninitialised, returned_control, get_gui, ◌>>◌}
use custom_isa_8bit_vm.Process.{to_addr}
use custom_isa_8bit_vm.Config.{ram_size}
use custom_isa_8bit_vm.Vm.Effects.{read_then, bind_lem}
use custom_isa_8bit_vm.Vm.Control
use custom_isa_8bit_vm.Vm.Host.{Host, open_window, has_window}
use custom_isa_8bit_vm.Vm.Exec.{
  decode, find_instruction, execute, dispatch, step, loop, continues, close_window, report, exec,
}

abbrev at : ℕ → Machine → Machine
at pc m = record m { process = record m.process { pc = to_addr pc } }

-- The machine behind a HALT that stands at `pc`.
abbrev pub halted : ℕ → Machine → Machine
halted pc m = record m { process = record m.process { pc = pc + 1; running = false } }

module _ (host : Host) (row : ℕ) (m : Machine) (inside : m.process.pc < ram_size) where
  step-nop : m.ram m.process.pc ≡ 0 → step host row m ≡ returned tt (at (m.process.pc + 1) m)
  unfolding step decode find_instruction dispatch execute
  step-nop e = read_then m.process.pc _ m inside ∙ rw e refl

  pub step-halt : m.ram m.process.pc ≡ 0xFF → step host row m ≡ returned tt (halted m.process.pc m)
  unfolding step decode find_instruction dispatch execute Control.halt
  step-halt e =
      let next : to_addr (m.process.pc + 1) ≡ m.process.pc + 1 = omega (arith, inside) in
      read_then m.process.pc _ m inside ∙ rw (e, next) refl

-- `k` bytes from the program counter on are 0, and a HALT is behind them, all inside the code.
pub record Sled (k : ℕ) (m : Machine) : Type 0 where
  pub running : m.process.running ≡ true
  pub zeros : (i : ℕ) → i < k → m.ram (m.process.pc + i) ≡ 0
  pub stop : m.ram (m.process.pc + k) ≡ 0xFF
  pub in_code : m.process.pc + k < m.process.last_code_sector
  pub in_ram : m.process.pc + k < ram_size

module _ (host : Host) (fuel row : ℕ) (m : Machine) where
  pub loop-continues :
      continues m.process ≡ true
      → loop host (suc fuel) row m ≡ (step host row >> loop host fuel (row + 1)) m
  unfolding loop
  loop-continues e = rw e refl

  pub loop-stops : continues m.process ≡ false → loop host (suc fuel) row m ≡ returned tt m
  unfolding loop
  loop-stops e = rw e refl

Sled-continues : (k : ℕ) (m : Machine) → Sled k m → continues m.process ≡ true
Sled-continues k m s =
    rw (s.running, lt→ltb m.process.pc m.process.last_code_sector (omega (arith, s.in_code))) refl

Sled-next : (k : ℕ) (m : Machine) → Sled (suc k) m → Sled k (at (m.process.pc + 1) m)
Sled-next k m s =
    let next : to_addr (m.process.pc + 1) ≡ m.process.pc + 1 = omega (arith, s.in_ram) in
    let over : (i : ℕ) → to_addr (m.process.pc + 1) + i ≡ m.process.pc + suc i =
      λ i. omega (arith, next) in
    record {
      running = s.running;
      zeros = λ i l. ap m.ram (over i) ∙ s.zeros (suc i) (omega (arith, l));
      stop = ap m.ram (over k) ∙ s.stop;
      in_code = omega (arith, over k, s.in_code);
      in_ram = omega (arith, over k, s.in_ram);
    }

loop-halts :
    (host : Host) (k fuel row : ℕ) (m : Machine)
    → Sled k m
    → loop host (suc (suc (k + fuel))) row m ≡ returned tt (halted (m.process.pc + k) m)
loop-halts host zero fuel row m s =
    let here : m.process.pc + 0 ≡ m.process.pc = omega arith in
    loop-continues host (suc (0 + fuel)) row m (Sled-continues 0 m s)
    ∙ bind_lem (step host row) _ m
        (step-halt host row m (omega (arith, s.in_ram)) (ap m.ram (sym here) ∙ s.stop))
    ∙ loop-stops host (0 + fuel) (row + 1) (halted m.process.pc m) refl
    ∙ rw here refl
loop-halts host (suc k) fuel row m s =
    let first : m.ram m.process.pc ≡ 0 = ap m.ram (omega arith) ∙ s.zeros 0 (omega arith) in
    let m1 = at (m.process.pc + 1) m in
    let count : suc (suc k + fuel) ≡ suc (suc (k + fuel)) = omega arith in
    let place : to_addr (m.process.pc + 1) + k ≡ m.process.pc + suc k = omega (arith, s.in_ram) in
    loop-continues host (suc (suc k + fuel)) row m (Sled-continues (suc k) m s)
    ∙ bind_lem (step host row) _ m (step-nop host row m (omega (arith, s.in_ram)) first)
    ∙ ap (λ n. loop host n (row + 1) m1) count
    ∙ loop-halts host k fuel (row + 1) m1 (Sled-next k m s)
    ∙ ap (λ q. returned tt (halted q m)) place

-- What `exec` leaves without a window.
abbrev pub ended : Machine → Machine
ended m = record m {
  process = record m.process { pc = m.process.first_sector; running = false };
  window = uninitialised;
  display = λ i. 0;
  host_calls = 0;
  output = m.output ++ returned_control ∷ [];
}

pub close_window-headless :
    (host : Host) (fuel : ℕ) (m : Machine)
    → get_gui m ≡ false
    → close_window host fuel m ≡ returned tt m
unfolding close_window has_window
close_window-headless host fuel m e =
    bind_lem has_window _ m {m' = m} {a = false} (rw (e, has_window) refl)

-- Without a window, a run that stands in front of `k` bytes that are 0, the opcode of NOP, with a HALT
-- behind them, all in the code and in the RAM, ends after k + 1 rounds: with the message that control is
-- returned, the process stopped and its program counter back at the start of the region, and RAM,
-- registers and flags as they were.
pub exec-halts :
    (host : Host) (k fuel : ℕ) (m : Machine)
    → Sled k m
    → get_gui m ≡ false
    → m.process.first_sector < ram_size
    → exec host (suc (suc (k + fuel))) m ≡ returned tt (ended m)
unfolding exec open_window close_window has_window report get_gui
exec-halts host k fuel m s e l =
    let m1 = record m { window = uninitialised; display = λ i. 0; host_calls = 0 } in
    let s1 : Sled k m1 = record {
      running = s.running;
      zeros = s.zeros;
      stop = s.stop;
      in_code = s.in_code;
      in_ram = s.in_ram;
    } in
    let home : to_addr m.process.first_sector ≡ m.process.first_sector = omega (arith, l) in
    rw e (
      bind_lem (loop host (suc (suc (k + fuel))) 1) _ m1 (loop-halts host k fuel 1 m1 s1)
      ∙ bind_lem (close_window host (suc (suc (k + fuel)))) _ (halted (m.process.pc + k) m1)
          (close_window-headless host (suc (suc (k + fuel))) (halted (m.process.pc + k) m1) e)
      ∙ rw home refl)
