-- ===== src/Tests/Machines.antt =====
-- The machines on which the theorems are applied: a program of twenty bytes at address 0, with its
-- heap from 20 on and its stack from 1020 on.
use custom_isa_8bit_vm.Base.{ℕ, true, false, List, [], ◌∷◌}
use custom_isa_8bit_vm.Vm.State.{Machine, uninitialised, update, gui_cell}
use custom_isa_8bit_vm.Vm.Host.{Host}
use custom_isa_8bit_vm.Process.{Process}
use custom_isa_8bit_vm.MemoryManager.{MemoryBlock, block}

abbrev pub quiet : Host
quiet = record { opens = false; reply = λ n. record { success = false; events = [] } }

abbrev pub twenty_bytes : ℕ → Process
twenty_bytes sp = record {
  pid = 1;
  running = true;
  first_sector = 0;
  last_code_sector = 20;
  entry_point = 2;
  allocated_memory = 2020;
  pc = 2;
  sp = sp;
  heap_start = 20;
  stack_limit = 1020;
  heap_limit = 1020;
}

abbrev pub rest_of_ram : List MemoryBlock
rest_of_ram = block 2020 57_883 ∷ []

abbrev pub machine : (ℕ → ℕ) → ℕ → Machine
machine ram sp = record {
  ram = ram;
  registers = λ i. 0;
  zero = false;
  sign = false;
  last_key = 0;
  free_list = rest_of_ram;
  next_ready_pid = 2;
  process = twenty_bytes sp;
  window = uninitialised;
  display = λ i. 0;
  input = [];
  output = [];
  host_calls = 0;
}

abbrev pub zeros : ℕ → ℕ
zeros a = 0

-- One free chunk of 1000 bytes.
abbrev pub one_chunk : ℕ → ℕ
one_chunk = update (update zeros 20 3) 21 232

-- A chunk of 10 bytes in use, and a free one of 987 behind it.
abbrev pub two_chunks : ℕ → ℕ
two_chunks = update (update (update (update zeros 21 10) 22 1) 33 3) 34 219

-- `CMP 5, 3`, and `JG` with the label 20.
abbrev pub comparison : ℕ → ℕ
comparison =
    update (update (update (update (update (update zeros 2 0xB2) 4 5) 6 3) 7 0x61) 8 2) 10 20

abbrev pub gui_ram : ℕ → ℕ
gui_ram = update zeros gui_cell 1
