-- ===== src/MemoryManager/Allocate.antt =====
-- `MemoryManager::allocate` of src/MemoryManager.cpp: which bytes it takes, and when it fails.
use custom_isa_8bit_vm.Base.{
  leb, ◌==◌, if◌then◌else◌, leb→le, Bool-cases, ℕ, ◌+◌, ◌-◌, ◌%◌, ◌^◌, ◌≤◌, ◌<◌, ◌≡◌, refl, ◌↔◌,
  inl, inr, Bool, true, false, ◌&&◌, ◌||◌, List, [], ◌∷◌, arith,
}
use mathlib.Core.Path.{subst}
use custom_isa_8bit_vm.Exception.{Exception, ok, err, >>=-eq-ok, ok-injective, allocation_failed}
use custom_isa_8bit_vm.MemoryManager.{MemoryBlock, block, allocate}
use custom_isa_8bit_vm.MemoryManager.View.{within, is_free, Ascending}

pub Ascending-weaken :
    (limit lo : ℕ) {lo' : ℕ} (bs : List MemoryBlock)
    → lo' ≤ lo
    → Ascending lo limit bs
    → Ascending lo' limit bs
Ascending-weaken limit lo [] h a = tt
Ascending-weaken limit lo (b ∷ bs) h a = ground arith

module _ (limit : ℕ) where
  -- Nothing below the first bound is free.
  pub is_free-below :
      (lo : ℕ) (bs : List MemoryBlock) (a : ℕ)
      → Ascending lo limit bs
      → a < lo
      → is_free bs a ≡ false
  unfolding is_free
  is_free-below lo [] a h l = refl
  is_free-below lo (b ∷ bs) a h l =
      ground (arith, is_free-below (b.start_address + b.size + 1) bs a h.3)

  -- Nothing from the limit on is free.
  pub is_free-beyond :
      (lo : ℕ) (bs : List MemoryBlock) (a : ℕ)
      → Ascending lo limit bs
      → limit ≤ a
      → is_free bs a ≡ false
  unfolding is_free
  is_free-beyond lo [] a h l = refl
  is_free-beyond lo (b ∷ bs) a h l =
      ground (arith, is_free-beyond (b.start_address + b.size + 1) bs a h.3)

-- First fit: `bytes` bytes at `s`, from the first block that has as many.
pub data Takes (bytes : ℕ) : List MemoryBlock → ℕ → List MemoryBlock → Type 0 where
  whole :
      {b : MemoryBlock} {bs : List MemoryBlock} {s : ℕ}
      → s ≡ b.start_address
      → b.size ≡ bytes
      → Takes bytes (b ∷ bs) s bs
  part :
      {b c : MemoryBlock} {bs : List MemoryBlock} {s : ℕ}
      → s ≡ b.start_address
      → bytes < b.size
      → c.start_address ≡ (b.start_address + bytes) % 2 ^ 16
      → c.size ≡ b.size - bytes
      → Takes bytes (b ∷ bs) s (c ∷ bs)
  later :
      {b : MemoryBlock} {bs bs' : List MemoryBlock} {s : ℕ}
      → b.size < bytes
      → Takes bytes bs s bs'
      → Takes bytes (b ∷ bs) s (b ∷ bs')

allocate-Takes_fits :
    (bytes : ℕ) (b : MemoryBlock) (bs : List MemoryBlock)
    → bytes ≤ b.size
    → (d : Bool) → (b.size - bytes == 0) ≡ d
    → Takes bytes
        (b ∷ bs)
        b.start_address
        (if d then bs else block ((b.start_address + bytes) % 2 ^ 16) (b.size - bytes) ∷ bs)
allocate-Takes_fits bytes b bs h true e = whole refl (ground arith)
allocate-Takes_fits bytes b bs h false e = part refl (ground arith) refl refl

-- What `allocate` returns is the first fit.
pub allocate-Takes :
    (bytes : ℕ) (bs : List MemoryBlock) {s : ℕ} {bs' : List MemoryBlock}
    → allocate bytes bs ≡ ok (s, bs')
    → Takes bytes bs s bs'
unfolding allocate
allocate-Takes bytes [] e = cc
allocate-Takes bytes (b ∷ bs) {s} {bs'} e = elim (Bool-cases (leb bytes b.size)) [
  | inl fits ↦
      subst (λ r. Takes bytes (b ∷ bs) r.0 r.1) (ok-injective (rw fits at e))
        (allocate-Takes_fits bytes b bs (leb→le bytes b.size fits) (b.size - bytes == 0) refl)
  | inr small ↦
      let (r, found, same) = >>=-eq-ok (allocate bytes bs) _ (rw small at e) in
      subst (λ r. Takes bytes (b ∷ bs) r.0 r.1) (ok-injective same)
        (later (ground arith) (allocate-Takes bytes bs {s = r.0} {bs' = r.1} found))
]

-- An allocation keeps the blocks ascending.
pub Takes-Ascending :
    (bytes : ℕ) {s : ℕ} (lo limit : ℕ) {bs bs' : List MemoryBlock}
    → Takes bytes bs s bs'
    → limit < 2 ^ 16
    → Ascending lo limit bs
    → Ascending lo limit bs'
Takes-Ascending bytes lo limit (whole {b = b} {bs = bs} p q) l h =
    Ascending-weaken limit (b.start_address + b.size + 1) bs (omega arith) h.3
Takes-Ascending bytes lo limit (part p q u v) l h = ground arith
Takes-Ascending bytes lo limit (later {b = b} p t) l h =
    ground (arith, Takes-Ascending bytes (b.start_address + b.size + 1) limit t l h.3)

-- The free addresses before are those after and the allocated ones, and these two are disjoint.
pub Takes-is_free :
    (bytes : ℕ) {s : ℕ} (lo limit : ℕ) {bs bs' : List MemoryBlock} (a : ℕ)
    → Takes bytes bs s bs'
    → limit < 2 ^ 16
    → Ascending lo limit bs
    → (is_free bs a ≡ (within s bytes a || is_free bs' a))
      × ((within s bytes a && is_free bs' a) ≡ false)
      × (lo ≤ s)
      × (s + bytes ≤ limit)
unfolding is_free
Takes-is_free bytes lo limit a (whole {b = b} {bs = bs} p q) l h =
    ground (arith, is_free-below limit (b.start_address + b.size + 1) bs a h.3)
Takes-is_free bytes lo limit a (part {b = b} {bs = bs} p q u v) l h =
    ground (arith, is_free-below limit (b.start_address + b.size + 1) bs a h.3)
Takes-is_free bytes lo limit a (later {b = b} {bs = bs} p t) l h =
    ground (arith, Takes-is_free bytes (b.start_address + b.size + 1) limit a t l h.3)

-- Every block has fewer bytes.
abbrev pub AllSmaller : ℕ → List MemoryBlock → Type 0
AllSmaller bytes [] = Unit
AllSmaller bytes (b ∷ bs) = (b.size < bytes) × AllSmaller bytes bs

allocate-eq-err :
    (bytes : ℕ) (bs : List MemoryBlock)
    → AllSmaller bytes bs
    → allocate bytes bs ≡ err (allocation_failed bytes)
unfolding allocate
allocate-eq-err bytes [] h = refl
allocate-eq-err bytes (b ∷ bs) h = ground (arith, allocate-eq-err bytes bs h.1)

AllSmaller-of_err :
    (bytes : ℕ) (bs : List MemoryBlock) (e : Exception)
    → allocate bytes bs ≡ err e
    → AllSmaller bytes bs
unfolding allocate
AllSmaller-of_err bytes [] e h = tt
AllSmaller-of_err bytes (b ∷ bs) e h = elim (Bool-cases (leb bytes b.size)) [
  | inl fits ↦ absurd (ground arith)
  | inr small ↦ (ground arith, AllSmaller-of_err bytes bs e (ground arith))
]

-- Allocation throws, with the size asked for, exactly when no free block has as many bytes.
pub allocate-fails :
    (bytes : ℕ) (bs : List MemoryBlock)
    → (allocate bytes bs ≡ err (allocation_failed bytes)) ↔ AllSmaller bytes bs
allocate-fails bytes bs =
    (AllSmaller-of_err bytes bs (allocation_failed bytes), allocate-eq-err bytes bs)
