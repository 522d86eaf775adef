-- ===== src/Process.antt =====
-- custom-isa-8bit-vm/include/Process.hpp: the region, the heap and the stack of a program.
-- Every `MemAddr` is a 16-bit number, so what is assigned to one is taken modulo 2 ^ 16.
pub mod Region
use custom_isa_8bit_vm.Base.{ℕ, ◌+◌, ◌-◌, ◌%◌, ◌^◌, Bool, true}
use custom_isa_8bit_vm.Config.{program_stack_size_bytes, program_heap_starting_size_bytes}

abbrev pub to_addr : ℕ → ℕ
to_addr n = n % 2 ^ 16

pub record Process : Type 0 where
  pub pid : ℕ
  pub running : Bool
  pub first_sector : ℕ
  pub last_code_sector : ℕ
  pub entry_point : ℕ
  pub allocated_memory : ℕ
  pub pc : ℕ
  pub sp : ℕ
  pub heap_start : ℕ
  pub stack_limit : ℕ
  pub heap_limit : ℕ

-- The constructor.
unfoldable pub process : ℕ → ℕ → ℕ → ℕ → Process
process pid base_address bytecode_size entry_point =
    let allocated = bytecode_size + program_heap_starting_size_bytes + program_stack_size_bytes in
    let sp = to_addr (base_address + allocated) in
    let heap_start = to_addr (base_address + bytecode_size) in
    record {
      pid = pid;
      running = true;
      first_sector = base_address;
      last_code_sector = to_addr (base_address + bytecode_size);
      entry_point = entry_point;
      allocated_memory = allocated;
      pc = to_addr (base_address + entry_point);
      sp = sp;
      heap_start = heap_start;
      stack_limit = to_addr (sp + 2 ^ 16 - program_stack_size_bytes);
      heap_limit = to_addr (heap_start + program_heap_starting_size_bytes);
    }

-- `a - b` of `size_t`, where `a` and `b` are below 2 ^ 64.
abbrev pub sub_size : ℕ → ℕ → ℕ
sub_size a b = (a + 2 ^ 64 - b) % 2 ^ 64

-- `update`: the assignments in the source's order, each on the fields as they then are. The two
-- differences `heap_limit - heap_start` are of type `int`: in the first and second they are
-- converted to `size_t`, in the last they are added modulo 2 ^ 16.
unfoldable pub update : ℕ → Process → Process
update base_address p =
    let heap_size = sub_size p.heap_limit p.heap_start in
    let bytecode_size = sub_size (sub_size p.allocated_memory heap_size) program_stack_size_bytes in
    let sp = to_addr (base_address + (p.sp + 2 ^ 16 - p.first_sector)) in
    let heap_start = to_addr (base_address + bytecode_size) in
    record p {
      first_sector = base_address;
      last_code_sector = to_addr (base_address + bytecode_size);
      allocated_memory = (p.allocated_memory + heap_size) % 2 ^ 64;
      pc = to_addr (base_address + (p.pc + 2 ^ 16 - p.first_sector));
      heap_start = heap_start;
      sp = sp;
      stack_limit = to_addr (sp + 2 ^ 16 - program_stack_size_bytes);
      heap_limit = to_addr (heap_start + (p.heap_limit + 2 ^ 16 - p.heap_start));
    }
