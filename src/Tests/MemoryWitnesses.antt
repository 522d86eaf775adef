-- ===== src/Tests/MemoryWitnesses.antt =====
-- The theorems on the memory manager, the process and the loader, applied.
use custom_isa_8bit_vm.Base.{◌+◌, ◌%◌, ◌^◌, ◌||◌, ◌≡◌, ◌↔◌, refl, true, List, [], ◌∷◌, Bytes, arith}
use custom_isa_8bit_vm.Exception.{err, allocation_failed}
use custom_isa_8bit_vm.MemoryManager.{MemoryBlock, block, allocate, free, check_integrity, reset}
use custom_isa_8bit_vm.MemoryManager.View.{within, is_free}
use custom_isa_8bit_vm.MemoryManager.Allocate.{AllSmaller, allocate-fails}
use custom_isa_8bit_vm.MemoryManager.Free.{is_free-free, free-allocate}
use custom_isa_8bit_vm.MemoryManager.Integrity.{InOrder, check_integrity-InOrder}
use custom_isa_8bit_vm.MemoryManager.Partition.{
  allocates, releases, start, next, IsPartition, Reach-IsPartition,
}
use custom_isa_8bit_vm.Process.{process, update}
use custom_isa_8bit_vm.Process.Region.{IsLaidOut, process-IsLaidOut, update-stack_limit}
use custom_isa_8bit_vm.Tests.Machines.{twenty_bytes, machine, zeros}
use custom_isa_8bit_vm.Loader.Image.{Loaded, load_program-Loaded}

-- A hole of 10 bytes between two regions, and the rest of the RAM.
abbrev two_blocks : List MemoryBlock
two_blocks = block 5 10 ∷ block 100 1000 ∷ []

Reach-IsPartition_example : IsPartition (reset, [])
unfolding allocate free reset
Reach-IsPartition_example = Reach-IsPartition (
    next (next (start refl) (allocates 2020 {s = 0} (omega arith) refl))
      (releases 0 2020 [] [] refl refl refl))

free-allocate_example : free 100 20 (block 5 10 ∷ block 120 980 ∷ []) ≡ two_blocks
unfolding allocate
free-allocate_example = free-allocate 20 two_blocks (omega arith) (omega arith) refl

is_free-free_example :
    is_free (free 15 85 two_blocks) 40 ≡ (within 15 85 40 || is_free two_blocks 40)
is_free-free_example = is_free-free 15 85 two_blocks 40

allocate-fails_example :
    (allocate 1001 two_blocks ≡ err (allocation_failed 1001)) ↔ AllSmaller 1001 two_blocks
allocate-fails_example = allocate-fails 1001 two_blocks

check_integrity-InOrder_example : (check_integrity two_blocks ≡ true) ↔ InOrder two_blocks
check_integrity-InOrder_example = check_integrity-InOrder two_blocks

process-IsLaidOut_example :
    IsLaidOut 30 20 (process 1 30 20 2) × ((process 1 30 20 2).pc ≡ (30 + 2) % 2 ^ 16)
process-IsLaidOut_example = process-IsLaidOut 1 30 20 2 (omega arith)

update-stack_limit_example :
    (update 3000 (twenty_bytes 1990)).stack_limit + 30
    ≡ (update 3000 (twenty_bytes 1990)).heap_limit
update-stack_limit_example =
    update-stack_limit 3000 0 20 30 (twenty_bytes 1990)
      (record {
        starts = refl;
        code_end = refl;
        heap_behind_code = refl;
        heap_size = refl;
        stack_behind_heap = refl;
        stack_size = refl;
        stack_top = refl;
      })
      (omega arith) (omega arith) (omega arith)

-- Three bytes: the entry address 2, and HALT.
abbrev halting : Bytes
halting = 0 ∷ 2 ∷ 255 ∷ []

load_program-Loaded_example : Loaded halting 2020 (block 4023 55_880 ∷ []) (machine zeros 2020)
unfolding allocate
load_program-Loaded_example =
    load_program-Loaded halting 2020 (block 4023 55_880 ∷ []) (machine zeros 2020) (omega arith)
      (omega arith) refl (omega arith)
