-- ===== src/Program/Registers.antt =====
-- The registers that src/main.cpp prints.
use custom_isa_8bit_vm.Base.{
  false, ◌-◌, ap, sym, Bool, Bytes, ℕ, ◌≡◌, refl, ℤ, List, [], ◌∷◌, codes, arith, map,
}
use mathlib.Core.List.{Perm}
use mathlib.Core.List.Perm
use mathlib.Core.Path.{subst}
use custom_isa_8bit_vm.Exception.{Result, ok, err, undefined, >>=-eq-ok, ok-injective}
use custom_isa_8bit_vm.Exception
use custom_isa_8bit_vm.Isa.{RegisterMap, instruction_table, register_map}
use custom_isa_8bit_vm.MemoryManager.{MemoryBlock}
use custom_isa_8bit_vm.Process.{Process}
use custom_isa_8bit_vm.Vm.State.{Outcome, returned, thrown, Machine, set_gui, ◌>>=◌}
use custom_isa_8bit_vm.Vm.State
use custom_isa_8bit_vm.Vm.Host.{Host}
use custom_isa_8bit_vm.Vm.Exec.{exec, register_snapshot}
use custom_isa_8bit_vm.Vm.Invariant.Rules.{IsMachine, Ensures, returns, throws, undefines, runs_out}
use custom_isa_8bit_vm.Vm.Invariant.Run.{exec-Keeps}
use custom_isa_8bit_vm.Loader.{new_machine, run_program, load_program}
use custom_isa_8bit_vm.Brainfvck.Compile.{compile}
use custom_isa_8bit_vm.Program.{run_binary, main}
use custom_isa_8bit_vm.Program.Cells.{Cells, Gives, Gives-bind, Any, Addressed, load_program-Cells}

Ensures-Gives :
    (p : Process) (blocks : List MemoryBlock) {o : Outcome (Unit {0})}
    → Ensures (IsMachine p blocks) o
    → Gives Any Cells o
Ensures-Gives p blocks (returns h) = (tt, (h.ram_bytes, (h.register_bytes, h.key)))
Ensures-Gives p blocks (throws h) = (h.ram_bytes, (h.register_bytes, h.key))
Ensures-Gives p blocks undefines = tt
Ensures-Gives p blocks runs_out = tt

exec-Cells :
    (host : Host) (fuel : ℕ) (m : Machine)
    → Cells m
    → Addressed m.process
    → Gives Any Cells (exec host fuel m)
exec-Cells host fuel m h a = Ensures-Gives m.process m.free_list (
    exec-Keeps m.process m.free_list host fuel m (record {
      ram_bytes = h.0;
      register_bytes = h.1.0;
      key = h.1.1;
      pc_address = a.0;
      sp_address = a.1;
      region = record {
        pid = refl;
        first_sector = refl;
        last_code_sector = refl;
        entry_point = refl;
        allocated_memory = refl;
        heap_start = refl;
        stack_limit = refl;
        heap_limit = refl;
      };
      blocks_kept = refl;
    }))

set_gui-Cells : (gui : Bool) (m : Machine) → Cells m → Cells (set_gui gui m)
unfolding set_gui
set_gui-Cells gui m h = ((λ a. ground (arith, h.0 a)), h.1)

run_program-Cells :
    (host : Host) (gui : Bool) (fuel : ℕ) (bytecode : Bytes) (m : Machine)
    → Cells m
    → Gives Any Cells (run_program host gui fuel bytecode m)
unfolding run_program
run_program-Cells host gui fuel bytecode m h =
    Gives-bind Addressed Any Cells (load_program bytecode) _ (set_gui gui m)
      (load_program-Cells bytecode (set_gui gui m) (set_gui-Cells gui m h))
      (λ proc m' a k. exec-Cells host fuel (record m' { process = proc }) k a)

-- The four registers with what they hold.
abbrev pub registers_of : Machine → List (Bytes × ℕ)
registers_of m =
    (codes "A", m.registers 0)
    ∷ (codes "B", m.registers 1)
    ∷ (codes "C", m.registers 2)
    ∷ (codes "D", m.registers 3)
    ∷ []

-- What is printed is these, in some order; and a machine that is left behind has bytes everywhere.
abbrev pub IsSnapshot : Outcome (List (Bytes × ℕ)) → Type 0
IsSnapshot (returned snap m) = Perm snap (registers_of m) × Cells m
IsSnapshot (thrown e m) = Cells m
IsSnapshot _ = Unit

abbrev value_in : Machine → Bytes × ℕ → Bytes × ℕ
value_in m (name, code) = (name, m.registers (code - 1))

register_snapshot-map :
    (elements : RegisterMap) (m : Machine)
    → register_snapshot elements m ≡ map (value_in m) elements
unfolding register_snapshot
register_snapshot-map [] m = refl
register_snapshot-map ((name, code) ∷ rest) m =
    ap (λ l. (name, m.registers (code - 1)) ∷ l) (register_snapshot-map rest m)

register_snapshot-Perm :
    (elements : RegisterMap) (m : Machine)
    → Perm elements register_map
    → Perm (register_snapshot elements m) (registers_of m)
unfolding register_map
register_snapshot-Perm elements m p =
    subst (λ l. Perm l (registers_of m)) (sym (register_snapshot-map elements m))
      (Perm.map (value_in m) p)

-- How `main` may end: with an exception of the compiler, or as the machine ends.
abbrev pub Prints : Result (Outcome (List (Bytes × ℕ))) → Type 0
Prints (ok o) = IsSnapshot o
Prints _ = Unit

module _ (host : Host) (elements : RegisterMap) (same : Perm elements register_map) where
  after_run :
      (o : Outcome (Unit {0}))
      → Gives Any Cells o
      → IsSnapshot (elim o as (λ _. Outcome (List (Bytes × ℕ))) [
        | returned a m ↦ returned (register_snapshot elements m) m
        | thrown e m ↦ thrown e m
        | State.undefined ↦ State.undefined
        | State.timeout ↦ State.timeout
      ])
  after_run (returned a m) h = (register_snapshot-Perm elements m same, h.1)
  after_run (thrown e m) h = h
  after_run State.undefined h = tt
  after_run State.timeout h = tt

  run_binary-IsSnapshot :
      (fuel : ℕ) (bytecode : Bytes) (m : Machine)
      → Cells m
      → IsSnapshot (run_binary host elements fuel bytecode m)
  unfolding run_binary
  run_binary-IsSnapshot fuel bytecode m h =
      after_run (run_program host false fuel bytecode m)
        (run_program-Cells host false fuel bytecode m h)

  after_compile :
      (fuel : ℕ) (input : List ℤ) (binary : Result Bytes)
      → Prints (
          Exception.◌>>=◌ binary
            (λ bytecode. ok (run_binary host elements fuel bytecode (new_machine input))))
  unfolding new_machine
  after_compile fuel input (ok bytecode) =
      run_binary-IsSnapshot fuel bytecode (new_machine input)
        ((λ a. omega arith), ((λ i. omega arith), omega arith))
  after_compile fuel input (err e) = tt
  after_compile fuel input undefined = tt

  -- Whatever the Brainfvck program, the input, the host and the order of the elements of the register
  -- map: when `main` prints the registers, these are A, B, C and D, each once, with what the machine
  -- has in them; and whenever the machine has returned or thrown, all cells of the RAM and all
  -- registers are bytes and the last key code is below 5.
  pub main-IsSnapshot :
      (fuel : ℕ) (opens : Bool) (source : Bytes) (input : List ℤ)
      → Prints (main host elements fuel opens source input)
  unfolding main
  main-IsSnapshot fuel opens source input =
      after_compile fuel input (compile instruction_table register_map opens source)
