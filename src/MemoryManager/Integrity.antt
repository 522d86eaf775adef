-- ===== src/MemoryManager/Integrity.antt =====
-- `MemoryManager::check_integrity` of src/MemoryManager.cpp.
use custom_isa_8bit_vm.Base.{ℕ, ◌+◌, ◌≤◌, ◌≡◌, ◌↔◌, true, List, [], ◌∷◌, arith}
use custom_isa_8bit_vm.MemoryManager.{MemoryBlock, check_from, check_integrity}
use custom_isa_8bit_vm.MemoryManager.View.{Ascending, IsFreeList}

-- Each block ends before the next one starts.
abbrev pub InOrder : List MemoryBlock → Type 0
InOrder [] = Unit
InOrder (b ∷ []) = Unit
InOrder (b ∷ c ∷ bs) = (b.start_address + b.size ≤ c.start_address) × InOrder (c ∷ bs)

check_from-InOrder :
    (b : MemoryBlock) (bs : List MemoryBlock) → (check_from b bs ≡ true) ↔ InOrder (b ∷ bs)
unfolding check_from
check_from-InOrder b [] = ground arith
check_from-InOrder b (c ∷ bs) = ground (arith, check_from-InOrder c bs)

-- `check_integrity` passes exactly when no block reaches into the next.
pub check_integrity-InOrder : (bs : List MemoryBlock) → (check_integrity bs ≡ true) ↔ InOrder bs
unfolding check_integrity
check_integrity-InOrder [] = ground arith
check_integrity-InOrder (b ∷ bs) = check_from-InOrder b bs

Ascending-InOrder : (lo limit : ℕ) (bs : List MemoryBlock) → Ascending lo limit bs → InOrder bs
Ascending-InOrder lo limit [] h = tt
Ascending-InOrder lo limit (b ∷ []) h = tt
Ascending-InOrder lo limit (b ∷ c ∷ bs) h =
    (omega arith, Ascending-InOrder (b.start_address + b.size + 1) limit (c ∷ bs) h.3)

-- A list that keeps the invariant passes the check.
pub check_integrity-IsFreeList : (bs : List MemoryBlock) → IsFreeList bs → check_integrity bs ≡ true
check_integrity-IsFreeList bs h = (check_integrity-InOrder bs).1 (Ascending-InOrder 0 _ bs h)
