-- ===== src/Program/Whole/Endless.antt =====
-- A program that does not end, in src/main.cpp.
use custom_isa_8bit_vm.Base.{suc, ℕ, ℤ, ◌+◌, ◌≤◌, ◌≡◌, ap, ◌∙◌, false, none, List, [], ◌∷◌, arith}
use custom_isa_8bit_vm.Isa.{RegisterMap}
use custom_isa_8bit_vm.MemoryManager.View.{program_ram}
use custom_isa_8bit_vm.Vm.State.{Machine, M, ◌>>=◌, timeout}
use custom_isa_8bit_vm.Vm.Host.{Host}
use custom_isa_8bit_vm.Vm.Exec.{loop}
use custom_isa_8bit_vm.Loader.{new_machine, run_program}
use custom_isa_8bit_vm.Program.{run_binary}
use custom_isa_8bit_vm.Program.Tree.{Tree, AllBytes, size, code, meaning}
use custom_isa_8bit_vm.Program.Tree.Reached.{Lies-front}
use custom_isa_8bit_vm.Program.Tree.Late.{less_fuel, Round-late}
use custom_isa_8bit_vm.Program.Tree.Endless.{meaning-Lasts}
use custom_isa_8bit_vm.Program.Listing.{origin, start_code, binary}
use custom_isa_8bit_vm.Program.Whole.{start_world}
use custom_isa_8bit_vm.Program.Whole.Loaded.{
  begun-IsOn, begun-at, begun-Lies, begun-world, run_program-begun,
}
use custom_isa_8bit_vm.Program.Whole.Finished.{on_tape, first, program_Lies, start-Round}

-- A step that lacks fuel leaves none to the rest.
bind-timeout {ℓ κ} :
    {A : Type ℓ} {B : Type κ} (x : M A) (f : A → M B) (m : Machine)
    → x m ≡ timeout
    → (x >>= f) m ≡ timeout
bind-timeout x f m e = rw (e, ◌>>=◌)

module _ (host : Host) (t : Tree) (input : List ℤ) (bytes : AllBytes t)
    (room : origin + size t + 1 + 2000 ≤ program_ram) where
  loop_late :
      (fuel : ℕ)
      → meaning fuel t (start_world t input) ≡ none
      → loop host fuel 1 (first host t input bytes room) ≡ timeout
  loop_late fuel e =
      let r = on_tape host t input bytes room in
      let m = first host t input bytes room in
      let start =
        start-Round host r 1 m 30002 (begun-IsOn t input bytes room) (begun-at t input bytes room)
          (Lies-front r 30002 start_code _ (begun-Lies t input bytes room)) in
      let one_more : fuel + 1 ≡ suc fuel = omega arith in
      less_fuel host fuel 1 1 m (
        ap (λ n. loop host n 1 m) one_more
        ∙ Round-late host r fuel 1 m (30002 + 5) _ start (
            meaning-Lasts host r fuel t 2 start.after origin start.on start.at
              (Lies-front r origin (code origin t) (0xFF ∷ [])
                (program_Lies host t input bytes room))
              bytes (ap (meaning fuel t) (start.world_is ∙ begun-world t input bytes room) ∙ e)))

  -- For a program with operands below 256 and room for its binary, the heap and the stack in the
  -- RAM: fuel that is not enough for the program is not enough for `main` on its binary without a
  -- window, whatever the host and the order in which the registers are printed.
  pub run_binary-Endless :
      (elements : RegisterMap) (fuel : ℕ)
      → meaning fuel t (start_world t input) ≡ none
      → run_binary host elements fuel (binary t) (new_machine input) ≡ timeout
  unfolding run_binary
  run_binary-Endless elements fuel e =
      bind-timeout (run_program host false fuel (binary t)) _ (new_machine input) (
        run_program-begun t input bytes room host fuel
        ∙ bind-timeout (loop host fuel 1) _ (first host t input bytes room) (loop_late fuel e))
