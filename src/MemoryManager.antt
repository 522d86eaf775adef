-- ===== src/MemoryManager.antt =====
-- custom-isa-8bit-vm/src/MemoryManager.cpp: the list of free blocks from which a program's region
-- is taken. `size` is a `size_t`, which no sum here overflows; `start_address` wraps at 16 bits.
pub mod View
pub mod Allocate
pub mod Free
pub mod Integrity
pub mod Partition
use custom_isa_8bit_vm.Base.{
  ℕ, ◌+◌, ◌-◌, ◌%◌, ◌^◌, Bool, true, false, List, [], ◌∷◌, ltb, leb, ◌==◌, if◌then◌else◌,
}
use custom_isa_8bit_vm.Exception.{Result, ok, err, ◌>>=◌, allocation_failed}
use custom_isa_8bit_vm.Config.{ram_size, framebuffer_tot_size}

pub record MemoryBlock : Type 0 where
  pub start_address : ℕ
  pub size : ℕ

abbrev pub block : ℕ → ℕ → MemoryBlock
block start size = record { start_address = start; size = size }

-- The walk of `allocate`: the first block that is large enough gives its first bytes.
unfoldable pub allocate : ℕ → List MemoryBlock → Result (ℕ × List MemoryBlock)
allocate bytes [] = err (allocation_failed bytes)
allocate bytes (b ∷ bs) =
    if leb bytes b.size
    then ok (
      b.start_address,
      if b.size - bytes == 0
          then bs
          else block ((b.start_address + bytes) % 2 ^ 16) (b.size - bytes) ∷ bs,
    )
    else (allocate bytes bs >>= λ r. ok (r.0, b ∷ r.1))

-- `free` at the iterator `it`, the list's head here, where no block stands before it.
unfoldable pub free_first : ℕ → ℕ → List MemoryBlock → List MemoryBlock
free_first start size [] = block start size ∷ []
free_first start size (b ∷ bs) =
    if b.start_address == start + size
    then block start (b.size + size) ∷ bs
    else block start size ∷ b ∷ bs

-- `free` once `std::prev(it)` is the block `prev`.
unfoldable pub free_after : MemoryBlock → ℕ → ℕ → List MemoryBlock → List MemoryBlock
free_after prev start size [] =
    if prev.start_address + prev.size == start
    then block prev.start_address (prev.size + size) ∷ []
    else prev ∷ block start size ∷ []
free_after prev start size (b ∷ bs) =
    if ltb b.start_address start
    then prev ∷ free_after b start size bs
    else if prev.start_address + prev.size == start
    then (if b.start_address == prev.start_address + (prev.size + size)
        then block prev.start_address (prev.size + size + b.size) ∷ bs
        else block prev.start_address (prev.size + size) ∷ b ∷ bs)
    else if b.start_address == start + size
    then prev ∷ block start (b.size + size) ∷ bs
    else prev ∷ block start size ∷ b ∷ bs

unfoldable pub free : ℕ → ℕ → List MemoryBlock → List MemoryBlock
unfolding free_first free_after
free start size [] = free_first start size []
free start size (b ∷ bs) =
    if ltb b.start_address start then free_after b start size bs else free_first start size (b ∷ bs)

-- The loop of `check_integrity` from `prev_it` on.
unfoldable pub check_from : MemoryBlock → List MemoryBlock → Bool
check_from prev [] = true
check_from prev (b ∷ bs) =
    if ltb b.start_address prev.start_address
    then false
    else if ltb b.start_address (prev.start_address + prev.size)
    then false
    else check_from b bs

unfoldable pub check_integrity : List MemoryBlock → Bool
unfolding check_from
check_integrity [] = true
check_integrity (b ∷ bs) = check_from b bs

-- The one block that holds all of the RAM below the control byte and the framebuffer.
unfoldable pub reset : List MemoryBlock
reset = block 0 (ram_size - framebuffer_tot_size - 1) ∷ []
