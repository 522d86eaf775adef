-- ===== src/Program/Whole/Loaded.antt =====
-- The machine of src/main.cpp behind the loading of a program's binary.
use custom_isa_8bit_vm.Base.{
  ◌==◌, if◌then◌else◌, le→leb, fun_ext, length, length-append, ℕ, ℤ, ◌+◌, ◌-◌, ◌%◌, ◌^◌, ◌≤◌, ◌<◌,
  ◌≡◌, refl, sym, ap, ◌∙◌, false, List, [], ◌∷◌, ◌++◌, arith,
}
use mathlib.Core.Path.{subst}
use custom_isa_8bit_vm.Exception
use custom_isa_8bit_vm.MemoryManager.{MemoryBlock, block, allocate}
use custom_isa_8bit_vm.MemoryManager
use custom_isa_8bit_vm.MemoryManager.View.{program_ram}
use custom_isa_8bit_vm.Process.{process}
use custom_isa_8bit_vm.Vm.State.{
  Machine, uninitialised, returned, word, gui_cell, get_gui, set_gui, ◌>>◌,
}
use custom_isa_8bit_vm.Vm.Operand.Fetch.{Holds}
use custom_isa_8bit_vm.Vm.Effects.{bind_lem}
use custom_isa_8bit_vm.Vm.Host.{Host, open_window}
use custom_isa_8bit_vm.Vm.Exec.{loop, close_window, report, exec}
use custom_isa_8bit_vm.Loader.{new_machine, load_program, run_program}
use custom_isa_8bit_vm.Loader.Image
use custom_isa_8bit_vm.Loader.Image.{written, with_header}
use custom_isa_8bit_vm.Program.Cells.{Cells, Gives, Addressed, load_program-Cells}
use custom_isa_8bit_vm.Program.Tree.{Tree, AllBytes, size, code, World, world}
use custom_isa_8bit_vm.Program.Tape.{tape}
use custom_isa_8bit_vm.Program.Tree.Loops.{length-code}
use custom_isa_8bit_vm.Program.Tree.Reached.{Region, IsOn, Lies}
use custom_isa_8bit_vm.Program.Listing.{origin, start_code, binary}
use custom_isa_8bit_vm.Program.Whole.{loaded_ram, start_world}
use custom_isa_8bit_vm.Program.Whole.Binary.{
  length-binary, binary-bytes, Holds-slice, binary-zeros, binary-start,
}

-- The free list behind the allocation.
blocks_left : ℕ → List MemoryBlock
blocks_left n = if program_ram - n == 0 then [] else block ((0 + n) % 2 ^ 16) (program_ram - n) ∷ []

allocate-reset :
    (n : ℕ) → n ≤ program_ram → allocate n MemoryManager.reset ≡ Exception.ok (0, blocks_left n)
unfolding allocate MemoryManager.reset blocks_left
allocate-reset n h = rw (le→leb n program_ram h) refl

module _ (t : Tree) (input : List ℤ) (bytes : AllBytes t)
    (room : origin + size t + 1 + 2000 ≤ program_ram) where
  -- `main` sets the mode and loads the program.
  abbrev fresh : Machine
  fresh = set_gui false (new_machine input)

  two_bytes : 2 ≤ length (binary t)
  two_bytes = omega (arith, length-binary t)

  given :
      allocate (length (binary t) + 1000 + 1000) fresh.free_list
      ≡ Exception.ok (0, blocks_left (length (binary t) + 1000 + 1000))
  unfolding set_gui new_machine
  given = allocate-reset (length (binary t) + 1000 + 1000) (omega (arith, length-binary t, room))

  fits : 0 + (length (binary t) + 1000 + 1000) ≤ program_ram
  fits = omega (arith, length-binary t, room)

  abbrev blocks : List MemoryBlock
  blocks = blocks_left (length (binary t) + 1000 + 1000)

  entry : ℕ
  entry = Image.entry (binary t) 0 blocks fresh

  -- The machine that runs.
  ready : Machine
  ready = record (Image.after (binary t) 0 blocks fresh) {
    process = process fresh.next_ready_pid 0 (length (binary t)) entry;
  }

  binary_loaded :
      load_program (binary t) fresh
      ≡ returned
          (process fresh.next_ready_pid 0 (length (binary t)) entry)
          (Image.after (binary t) 0 blocks fresh)
  unfolding entry
  binary_loaded =
      Image.load_program-after (binary t) 0 blocks fresh (binary-bytes t bytes) two_bytes given fits

  ram_is : ready.ram ≡ loaded_ram t
  unfolding loaded_ram set_gui new_machine ready
  ram_is = refl

  stands : Holds ready.ram 0 (binary t)
  unfolding ready
  stands =
      Holds-slice ready.ram 0 (binary t)
        (Image.code_stands (binary t) 0 blocks fresh (binary-bytes t bytes) two_bytes given fits)

  entry_stands : (ready.ram 0 ≡ 0x75) × (ready.ram (0 + 1) ≡ 0x32)
  unfolding binary
  entry_stands = (stands.0, stands.1.0)

  entry_is : entry ≡ 30002
  unfolding entry ready
  entry_is =
      let off =
        Image.header_off (binary t) 0 blocks fresh (binary-bytes t bytes) two_bytes given fits in
      let high = sym (off 0 (omega (arith, length-binary t))) ∙ entry_stands.0 in
      let low = sym (off (0 + 1) (omega (arith, length-binary t))) ∙ entry_stands.1 in
      ap (λ h. word h (written fresh.ram 0 (binary t) (0 + 1))) high ∙ ap (λ l. word 0x75 l) low

  ready_bytes : (a : ℕ) → ready.ram a < 256
  unfolding ready set_gui new_machine
  ready_bytes =
      let cells : Cells fresh = ((λ a. ground arith), ((λ i. omega arith), omega arith)) in
      (subst (Gives Addressed Cells) binary_loaded (load_program-Cells (binary t) fresh cells)).1.0

  no_window : (ready.ram gui_cell == 1) ≡ false
  unfolding ready set_gui new_machine
  no_window =
      ap (λ b. b == 1)
        (Image.gui_byte (binary t) 0 blocks fresh (binary-bytes t bytes) two_bytes given fits)
      ∙ refl

  -- The region of the program, and the machine when its loop begins.
  pub region : Region
  region = record {
    start = 0;
    limit = origin + size t + 1;
    image = ready.ram;
    in_ram = omega arith;
    headless = no_window;
  }

  pub begun : Machine
  begun = record ready { window = uninitialised; display = λ i. 0; host_calls = 0 }

  pub begun-IsOn : IsOn region begun
  unfolding begun region ready process set_gui new_machine
  begun-IsOn = record {
    running = refl;
    first = refl;
    last = omega (arith, length-binary t, room);
    same = λ a l. refl;
    register_bytes = λ i. omega arith;
    ram_bytes = ready_bytes;
  }

  pub begun-at : begun.process.pc ≡ region.start + 30002
  unfolding begun region ready process
  begun-at = omega (arith, entry_is)

  pub begun-Lies : Lies region 30002 (start_code ++ (code origin t ++ 0xFF ∷ []))
  unfolding region
  begun-Lies =
      let sum = length-append (code origin t) (0xFF ∷ []) in
      let all = length-code t origin in
      record {
        holds = binary-start ready.ram t stands;
        behind = omega arith;
        in_code = omega (arith, sum, all);
        in_ram = omega (arith, sum, all, room);
      }

  -- The pointer stands at cell 2 behind the first instruction.
  pub begun-world :
      ◌≡◌ {A = World}
        (record (world begun) { memory = record (tape begun) { pointer = 2 } })
        (start_world t input)
  unfolding begun ready process set_gui new_machine start_world loaded_ram
  begun-world =
      let cells : ◌≡◌ {A = ℕ → ℕ} (λ x. loaded_ram t (0 + x)) (loaded_ram t) =
        fun_ext (λ x. let same : 0 + x ≡ x = omega arith in ap (loaded_ram t) same) in
      λ i. record {
        memory = record { pointer = 2; b = 0; c = 0; cells = cells i };
        input = input;
        output = [];
      }

  -- The tape is empty from cell 2 on, where the program starts.
  pub zero_cells : (x : ℕ) → 2 ≤ x → x < 256 → loaded_ram t x ≡ 0
  zero_cells x l u =
      ap (λ (f : ℕ → ℕ). f x) (sym ram_is) ∙ binary-zeros ready.ram t stands x l (omega (arith, u))

  -- From the start of `main` on to the loop of `exec`.
  pub run_program-begun :
      (host : Host) (fuel : ℕ)
      → run_program host false fuel (binary t) (new_machine input)
        ≡ (loop host fuel 1 >> (close_window host fuel >> report)) begun
  unfolding run_program exec open_window get_gui begun ready
  run_program-begun host fuel =
      bind_lem (load_program (binary t)) _ fresh binary_loaded ∙ rw no_window refl
