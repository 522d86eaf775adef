-- ===== src/MemoryManager/Free.antt =====
-- `MemoryManager::free` of src/MemoryManager.cpp on the set of free addresses, and after `allocate`.
use custom_isa_8bit_vm.Base.{ℕ, ◌+◌, ◌^◌, ◌≤◌, ◌<◌, ◌≡◌, ◌⊎◌, ◌||◌, List, [], ◌∷◌, arith}
use custom_isa_8bit_vm.Exception.{ok}
use custom_isa_8bit_vm.MemoryManager.{MemoryBlock, allocate, free, free_first, free_after}
use custom_isa_8bit_vm.MemoryManager.View.{within, is_free, Ascending, IsFreeList, program_ram}
use custom_isa_8bit_vm.MemoryManager.Allocate.{
  Takes, whole, part, later, allocate-Takes, Takes-is_free,
}

module _ (start size : ℕ) where
  is_free-free_first :
      (bs : List MemoryBlock) (a : ℕ)
      → is_free (free_first start size bs) a ≡ (within start size a || is_free bs a)
  unfolding free_first is_free
  is_free-free_first [] a = ground arith
  is_free-free_first (b ∷ bs) a = ground arith

  is_free-free_after :
      (prev : MemoryBlock) (bs : List MemoryBlock) (a : ℕ)
      → is_free (free_after prev start size bs) a ≡ (within start size a || is_free (prev ∷ bs) a)
  unfolding free_after is_free
  is_free-free_after prev [] a = ground arith
  is_free-free_after prev (b ∷ bs) a = ground (arith, is_free-free_after b bs a)

  -- The addresses that are free after `free` are those free before and those of the released region.
  pub is_free-free :
      (bs : List MemoryBlock) (a : ℕ)
      → is_free (free start size bs) a ≡ (within start size a || is_free bs a)
  unfolding free is_free
  is_free-free [] a = is_free-free_first [] a
  is_free-free (b ∷ bs) a = ground (arith, is_free-free_first (b ∷ bs) a, is_free-free_after b bs a)

-- No byte of the region is free.
abbrev pub Apart : ℕ → ℕ → List MemoryBlock → Type 0
Apart start size [] = Unit
Apart start size (b ∷ bs) =
    ((b.start_address + b.size ≤ start) ⊎ (start + size ≤ b.start_address)) × Apart start size bs

module _ (limit start size : ℕ) (positive : 0 < size) (below : start + size ≤ limit) where
  free_first-Ascending :
      (lo : ℕ) (bs : List MemoryBlock)
      → Ascending lo limit bs
      → lo ≤ start
      → Ascending start limit bs
      → Apart start size bs
      → Ascending lo limit (free_first start size bs)
  unfolding free_first
  free_first-Ascending lo [] h l f d = ground arith
  free_first-Ascending lo (b ∷ bs) h l f d = ground arith

  free_after-Ascending :
      (lo : ℕ) (prev : MemoryBlock) (bs : List MemoryBlock)
      → Ascending lo limit (prev ∷ bs)
      → prev.start_address < start
      → Apart start size (prev ∷ bs)
      → Ascending lo limit (free_after prev start size bs)
  unfolding free_after
  free_after-Ascending lo prev [] h l d = ground arith
  free_after-Ascending lo prev (b ∷ bs) h l d =
      ground (arith, free_after-Ascending (prev.start_address + prev.size + 1) b bs h.3)

  -- Releasing bytes that are not free keeps the blocks ascending, apart and merged.
  pub free-Ascending :
      (lo : ℕ) (bs : List MemoryBlock)
      → Ascending lo limit bs
      → lo ≤ start
      → Apart start size bs
      → Ascending lo limit (free start size bs)
  unfolding free
  free-Ascending lo [] h l d = free_first-Ascending lo [] h l tt d
  free-Ascending lo (b ∷ bs) h l d =
      ground (arith, free_first-Ascending lo (b ∷ bs) h l, free_after-Ascending lo b bs h)

module _ (limit bytes : ℕ) (fits : limit < 2 ^ 16) (positive : 0 < bytes) where
  free_after-Takes :
      (prev : MemoryBlock) {s : ℕ} {bs bs' : List MemoryBlock}
      → Takes bytes bs s bs'
      → Ascending (prev.start_address + prev.size + 1) limit bs
      → free_after prev s bytes bs' ≡ prev ∷ bs
  unfolding free_after
  free_after-Takes prev (whole {bs = []} p q) h = ground arith
  free_after-Takes prev (whole {bs = c ∷ bs} p q) h = ground arith
  free_after-Takes prev (part p q u v) h = ground arith
  free_after-Takes prev (later {b} p t) h = ground (
    arith,
    Takes-is_free bytes (b.start_address + b.size + 1) limit 0 t fits h.3,
    free_after-Takes b t h.3,
  )

  free-Takes :
      {s : ℕ} {bs bs' : List MemoryBlock} (lo : ℕ)
      → Takes bytes bs s bs'
      → Ascending lo limit bs
      → free s bytes bs' ≡ bs
  unfolding free free_first free_after
  free-Takes lo (whole {bs = []} p q) h = ground arith
  free-Takes lo (whole {bs = c ∷ bs} p q) h = ground arith
  free-Takes lo (part p q u v) h = ground arith
  free-Takes lo (later {b} p t) h = ground (
    arith,
    Takes-is_free bytes (b.start_address + b.size + 1) limit 0 t fits h.3,
    free_after-Takes b t h.3,
  )

-- On a free list of ascending, separate blocks, freeing a region of at least one byte right after
-- its allocation restores the list.
pub free-allocate :
    (bytes : ℕ) (bs : List MemoryBlock) {s : ℕ} {bs' : List MemoryBlock}
    → 0 < bytes
    → IsFreeList bs
    → allocate bytes bs ≡ ok (s, bs')
    → free s bytes bs' ≡ bs
free-allocate bytes bs positive h e =
    free-Takes program_ram bytes (omega arith) positive 0 (allocate-Takes bytes bs e) h
