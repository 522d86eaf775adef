-- ===== src/MemoryManager/Partition.antt =====
-- The regions of all programs over time, under the calls of src/MemoryManager.cpp.
use custom_isa_8bit_vm.Base.{
  ltb, if◌then◌else◌, ℕ, ◌+◌, ◌-◌, ◌<◌, ◌≡◌, ap, false, ◌&&◌, List, [], ◌∷◌, ◌++◌, arith,
}
use mathlib.Core.Path.{subst}
use custom_isa_8bit_vm.Exception.{ok}
use custom_isa_8bit_vm.MemoryManager.{MemoryBlock, allocate, free, reset}
use custom_isa_8bit_vm.MemoryManager.View.{within, is_free, Ascending, IsFreeList, program_ram}
use custom_isa_8bit_vm.MemoryManager.Allocate.{Takes-is_free, allocate-Takes, Takes-Ascending}
use custom_isa_8bit_vm.MemoryManager.Free.{Apart, is_free-free, free-Ascending}

-- A region in use: its first address and its number of bytes.
abbrev pub Region : Type 0
Region = ℕ × ℕ

-- The free list and the regions in use.
abbrev pub Memory : Type 0
Memory = List MemoryBlock × List Region

-- One call of the manager: an allocation that succeeds, or the release of a region in use.
pub data Step : Memory → Memory → Type 0 where
  allocates :
      {bs bs' : List MemoryBlock} {live : List Region} (bytes : ℕ) {s : ℕ}
      → 0 < bytes
      → allocate bytes bs ≡ ok (s, bs')
      → Step (bs, live) (bs', (s, bytes) ∷ live)
  releases :
      {bs bs' : List MemoryBlock} {live live' : List Region} (s bytes : ℕ)
      (before after : List Region)
      → live ≡ before ++ ((s, bytes) ∷ after)
      → live' ≡ before ++ after
      → bs' ≡ free s bytes bs
      → Step (bs, live) (bs', live')

pub data Reach : Memory → Type 0 where
  start : {bs : List MemoryBlock} → bs ≡ reset → Reach (bs, [])
  next : {m n : Memory} → Reach m → Step m n → Reach n

-- How many regions hold the address.
unfoldable pub owners : List Region → ℕ → ℕ
owners [] a = 0
owners ((s, n) ∷ rs) a = (if within s n a then 1 else 0) + owners rs a

unfoldable pub holders : Memory → ℕ → ℕ
unfolding owners
holders (bs, live) a = (if is_free bs a then 1 else 0) + owners live a

abbrev pub AllPositive : List Region → Type 0
AllPositive [] = Unit
AllPositive ((s, n) ∷ rs) = (0 < n) × AllPositive rs

-- The free list keeps its invariant, and every address below the limit has one holder, every
-- other none.
pub record IsPartition (m : Memory) : Type 0 where
  pub free_list : IsFreeList m.0
  pub positive : AllPositive m.1
  pub one_holder : (a : ℕ) → holders m a ≡ (if ltb a program_ram then 1 else 0)

owners-append : (xs ys : List Region) (a : ℕ) → owners (xs ++ ys) a ≡ owners xs a + owners ys a
unfolding owners
owners-append [] ys a = omega arith
owners-append ((s, n) ∷ xs) ys a = omega (arith, owners-append xs ys a)

AllPositive-append :
    (xs : List Region) (r : Region) (ys : List Region)
    → AllPositive (xs ++ r ∷ ys)
    → (0 < r.1) × AllPositive (xs ++ ys)
AllPositive-append [] (s, n) ys h = h
AllPositive-append ((t, m) ∷ xs) r ys h = ground (arith, AllPositive-append xs r ys h.1)

-- A region none of whose bytes is free is apart from every block.
Apart-not_free :
    (s n lo : ℕ) (bs : List MemoryBlock)
    → 0 < n
    → Ascending lo program_ram bs
    → ((a : ℕ) → (within s n a && is_free bs a) ≡ false)
    → Apart s n bs
unfolding is_free
Apart-not_free s n lo [] p h d = tt
Apart-not_free s n lo (b ∷ bs) p h d = (
  ground (arith, d s, d b.start_address),
  Apart-not_free s n (b.start_address + b.size + 1) bs p h.3 (λ a. ground (arith, d a)),
)

reset-IsPartition : IsPartition (reset, [])
unfolding reset holders is_free
reset-IsPartition = record {
  free_list = omega arith;
  positive = tt;
  one_holder = λ a. ground arith;
}

module _ (bs : List MemoryBlock) (live : List Region) (v : IsPartition (bs, live)) where
  allocates-IsPartition :
      (bytes s : ℕ) (bs' : List MemoryBlock)
      → 0 < bytes
      → allocate bytes bs ≡ ok (s, bs')
      → IsPartition (bs', (s, bytes) ∷ live)
  unfolding holders
  allocates-IsPartition bytes s bs' p e =
      let t = allocate-Takes bytes bs e in
      record {
        free_list = Takes-Ascending bytes 0 program_ram t (omega arith) v.free_list;
        positive = (p, v.positive);
        one_holder = λ a. ground (
          arith,
          v.one_holder a,
          Takes-is_free bytes 0 program_ram a t (omega arith) v.free_list,
        );
      }

  module _ (s bytes : ℕ) (before after : List Region)
      (same : live ≡ before ++ ((s, bytes) ∷ after)) where
    released :
        (a : ℕ)
        → (if is_free bs a then 1 else 0)
            + (owners before a + ((if within s bytes a then 1 else 0) + owners after a))
          ≡ (if ltb a program_ram then 1 else 0)
    unfolding holders
    released a = omega (
      arith,
      v.one_holder a,
      owners-append before ((s, bytes) ∷ after) a,
      ap (λ l. owners l a) same,
    )

    releases-IsPartition : IsPartition (free s bytes bs, before ++ after)
    unfolding holders
    releases-IsPartition =
        let p = AllPositive-append before (s, bytes) after (subst AllPositive same v.positive) in
        record {
          free_list =
              free-Ascending program_ram s bytes p.0 (ground (arith, released (s + bytes - 1))) 0 bs
                v.free_list (omega arith)
                (Apart-not_free s bytes 0 bs p.0 v.free_list (λ a. ground (arith, released a)));
          positive = p.1;
          one_holder = λ a.
              ground (arith, released a, is_free-free s bytes bs a, owners-append before after a);
        }

Step-IsPartition : {m n : Memory} → Step m n → IsPartition m → IsPartition n
Step-IsPartition (allocates {bs} {bs'} {live} bytes {s} p e) v =
    allocates-IsPartition bs live v bytes s bs' p e
Step-IsPartition (releases {bs} {bs'} {live} {live'} s bytes before after e f g) v =
    rw (f, g) (releases-IsPartition bs live v s bytes before after e)

-- Whatever programs are loaded and released, in whatever order, every byte of the shared RAM is
-- either free or in exactly one region, no byte beyond it is given out, and the free list stays
-- ascending and merged.
pub Reach-IsPartition : {m : Memory} → Reach m → IsPartition m
Reach-IsPartition (start e) = rw e reset-IsPartition
Reach-IsPartition (next r st) = Step-IsPartition st (Reach-IsPartition r)
