-- ===== src/Program/Whole.antt =====
-- The machine of src/main.cpp with the binary of a program: what it holds when it begins to run.
pub mod Binary
pub mod Loaded
pub mod Finished
pub mod Endless
pub mod Source
use custom_isa_8bit_vm.Base.{◌+◌, ℕ, ℤ, List, length, false, [], ◌∷◌}
use custom_isa_8bit_vm.MemoryManager.{MemoryBlock, allocate, reset}
use custom_isa_8bit_vm.Exception
use custom_isa_8bit_vm.Process.{process}
use custom_isa_8bit_vm.Vm.State.{update, gui_cell}
use custom_isa_8bit_vm.Loader.{new_machine}
use custom_isa_8bit_vm.Loader.Image.{written, with_header}
use custom_isa_8bit_vm.Program.Tree.{Tree, World, world, size}
use custom_isa_8bit_vm.Program.Listing.{origin, binary}

-- The RAM with mode byte 0, the binary from its start on and the header of the heap behind it.
unfoldable pub loaded_ram : Tree → ℕ → ℕ
unfolding binary written
loaded_ram t =
    with_header (written (update (λ a. 0) gui_cell 0) 0 (binary t)) (0 + length (binary t))

-- The tape at the start: the pointer at cell 2, and the cells as the RAM has them.
unfoldable pub start_world : Tree → List ℤ → World
unfolding loaded_ram
start_world t input = record {
  memory = record { pointer = 2; b = 0; c = 0; cells = loaded_ram t };
  input = input;
  output = [];
}
