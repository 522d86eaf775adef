-- ===== src/MemoryManager/View.antt =====
-- The abstract view of the free list: which addresses are free; and the invariant that the
-- list keeps.
use custom_isa_8bit_vm.Base.{ℕ, ◌+◌, ◌≤◌, ◌<◌, Bool, false, ◌&&◌, ◌||◌, List, [], ◌∷◌, ltb, leb}
use custom_isa_8bit_vm.MemoryManager.{MemoryBlock}

-- `lo ≤ a < lo + n`
abbrev pub within : ℕ → ℕ → ℕ → Bool
within lo n a = leb lo a && ltb a (lo + n)

unfoldable pub is_free : List MemoryBlock → ℕ → Bool
is_free [] a = false
is_free (b ∷ bs) a = within b.start_address b.size a || is_free bs a

-- Blocks that are not empty, in ascending order from `lo` on, with at least one byte that is
-- not free between two of them, and none beyond `limit`.
abbrev pub Ascending : ℕ → ℕ → List MemoryBlock → Type 0
Ascending lo limit [] = Unit
Ascending lo limit (b ∷ bs) =
    (lo ≤ b.start_address)
    × (0 < b.size)
    × (b.start_address + b.size ≤ limit)
    × Ascending (b.start_address + b.size + 1) limit bs

-- The RAM that programs share: the 59,903 bytes below the control byte.
abbrev pub program_ram : ℕ
program_ram = 59_903

abbrev pub IsFreeList : List MemoryBlock → Type 0
IsFreeList bs = Ascending 0 program_ram bs
