-- ===== src/Process/Region.antt =====
-- The parts of a program's region, by include/Process.hpp.
use custom_isa_8bit_vm.Base.{ℕ, ◌+◌, ◌%◌, ◌^◌, ◌≤◌, ◌<◌, ◌≡◌, arith}
use custom_isa_8bit_vm.Process.{Process, process, update}

-- Code, heap and stack lie one behind the other, the stack's bound is the heap's limit, and the
-- stack pointer is at the end of the region.
pub record IsLaidOut (base size : ℕ) (p : Process) : Type 0 where
  pub starts : p.first_sector ≡ base
  pub code_end : p.last_code_sector ≡ base + size
  pub heap_behind_code : p.heap_start ≡ base + size
  pub heap_size : p.heap_limit ≡ p.heap_start + 1000
  pub stack_behind_heap : p.stack_limit ≡ p.heap_limit
  pub stack_size : p.sp ≡ p.stack_limit + 1000
  pub stack_top : p.sp ≡ p.first_sector + p.allocated_memory

-- In a region that fits below 2 ^ 16 a new process has code, heap and stack one behind the other,
-- with 1000 bytes each for heap and stack, the bound of the stack at the heap's limit and the stack
-- pointer at the region's end; the program counter is at the entry point.
pub process-IsLaidOut :
    (pid base size entry : ℕ)
    → base + size + 2000 < 2 ^ 16
    → IsLaidOut base size (process pid base size entry)
      × ((process pid base size entry).pc ≡ (base + entry) % 2 ^ 16)
unfolding process
process-IsLaidOut pid base size entry h = omega arith

-- `update` of a process that is laid out as a new one but for up to 1000 bytes on its stack, from
-- and to a region below 2 ^ 16, gives a stack bound that lies below the heap's limit by as many
-- bytes.
pub update-stack_limit :
    (base old_base size pushed : ℕ) (p : Process)
    → IsLaidOut old_base size (record p { sp = p.sp + pushed })
    → pushed ≤ 1000
    → old_base + size + 2000 < 2 ^ 16
    → base + size + 2000 < 2 ^ 16
    → (update base p).stack_limit + pushed ≡ (update base p).heap_limit
unfolding update
update-stack_limit base old_base size pushed p h l b c = omega (
  arith, h.heap_size, h.stack_behind_heap, h.stack_size, h.stack_top, h.heap_behind_code, h.starts,
)
