-- ===== src/Vm/Heap/Release.antt =====
-- HFREE on a heap of well-formed chunks.
use custom_isa_8bit_vm.Base.{
  ℕ, ◌+◌, ◌-◌, ◌^◌, ◌≤◌, ◌<◌, ◌≡◌, refl, ◌∙◌, ◌≢◌, true, false, List, [], ◌∷◌, ◌++◌, arith,
}
use custom_isa_8bit_vm.Vm.State.{Machine, thrown, update}
use custom_isa_8bit_vm.Process.{to_addr}
use custom_isa_8bit_vm.Exception.{freed_free_region}
use custom_isa_8bit_vm.Config.{ram_size}
use custom_isa_8bit_vm.Vm.Effects.{write_then, read_then}
use custom_isa_8bit_vm.Vm.Heap.{release, coalesce, heap_fuel}
use custom_isa_8bit_vm.Vm.Heap.Chunks.{
  Chunk, chunk, HasHeader, Chunks, merge, Chunks-length, Chunks-frame,
}
use custom_isa_8bit_vm.Vm.Heap.Coalesce.{
  Merged, coalesce-merge_into, IsMerged, merge-IsMerged, extent, merge-extent,
}

-- The address behind the chunks that start at `a`.
unfoldable pub end_of : ℕ → List Chunk → ℕ
end_of a [] = a
end_of a (c ∷ cs) = end_of (a + 3 + c.size) cs

le-end_of : (a : ℕ) (cs : List Chunk) → a ≤ end_of a cs
unfolding end_of
le-end_of a [] = omega arith
le-end_of a (c ∷ cs) = omega (arith, le-end_of (a + 3 + c.size) cs)

module _ (limit : ℕ) (f : ℕ → ℕ) (c : Chunk) (after : List Chunk) where
  -- The chunk behind `before` has its header there.
  header_at :
      (a : ℕ) (before : List Chunk)
      → Chunks limit f a (before ++ c ∷ after)
      → HasHeader f (end_of a before) c × (end_of a before < limit)
  unfolding end_of
  header_at a [] h = (h.1, h.0)
  header_at a (b ∷ before) h = header_at (a + 3 + b.size) before h.2

  -- Clearing its flag frees it and changes no other chunk.
  clear-Chunks :
      (a : ℕ) (before : List Chunk)
      → Chunks limit f a (before ++ c ∷ after)
      → Chunks limit (update f (end_of a before + 2) 0) a (before ++ chunk c.size false ∷ after)
  unfolding end_of
  clear-Chunks a [] h =
      (h.0, ground arith, Chunks-frame limit f _ (a + 3 + c.size) after (λ x l. ground arith) h.2)
  clear-Chunks a (b ∷ before) h =
      let far = le-end_of (a + 3 + b.size) before in
      (h.0, ground arith, clear-Chunks (a + 3 + b.size) before h.2)

coalesce-Merged :
    (limit a : ℕ) (m : Machine) (cs : List Chunk)
    → limit + 3 ≤ ram_size
    → m.process.heap_limit ≡ limit
    → Chunks limit m.ram a cs
    → cs ≢ []
    → Merged limit a m (merge cs) (coalesce heap_fuel a m)
unfolding merge
coalesce-Merged limit a m [] small e h ne = absurd (ne refl)
coalesce-Merged limit a m (c ∷ cs) small e h ne =
    coalesce-merge_into limit small heap_fuel m a c cs
      (omega (arith, Chunks-length limit m.ram a (c ∷ cs) h)) e h

extent-freed :
    (before : List Chunk) (c : Chunk) (after : List Chunk)
    → extent (before ++ chunk c.size false ∷ after) ≡ extent (before ++ c ∷ after)
unfolding extent
extent-freed [] c after = refl
extent-freed (b ∷ before) c after = omega (arith, extent-freed before c after)

concat_ne_nil : (xs : List Chunk) (c : Chunk) (ys : List Chunk) → xs ++ c ∷ ys ≢ []
concat_ne_nil [] c ys = ground arith
concat_ne_nil (x ∷ xs) c ys = ground arith

-- The machine once the flag of the chunk behind `before` is cleared.
abbrev pub cleared : Machine → List Chunk → Machine
cleared m before = record m { ram = update m.ram (end_of m.process.heap_start before + 2) 0 }

module _ (m : Machine) (c : Chunk) (before after : List Chunk)
    (small : m.process.heap_limit + 3 ≤ ram_size)
    (h : Chunks m.process.heap_limit m.ram m.process.heap_start (before ++ c ∷ after)) where
  abbrev payload : ℕ
  payload = end_of m.process.heap_start before + 3

  release-cleared :
      c.in_use ≡ true
      → release payload m ≡ coalesce heap_fuel m.process.heap_start (cleared m before)
  unfolding release
  release-cleared used =
      let (header, low) =
        header_at m.process.heap_limit m.ram c after m.process.heap_start before h in
      let start : to_addr (payload + 2 ^ 16 - 3) ≡ end_of m.process.heap_start before =
        omega arith in
      rw start (
        read_then (end_of m.process.heap_start before + 2) _ m (omega arith)
        ∙ rw (header.state, used)
            (write_then (end_of m.process.heap_start before + 2) _ _ m (omega arith)))

  release-Merged :
      c.in_use ≡ true
      → Merged m.process.heap_limit m.process.heap_start
          (cleared m before)
          (merge (before ++ chunk c.size false ∷ after))
          (release payload m)
  release-Merged used = rw (release-cleared used) (
      coalesce-Merged m.process.heap_limit m.process.heap_start (cleared m before) _ small refl
        (clear-Chunks m.process.heap_limit m.ram c after m.process.heap_start before h)
        (concat_ne_nil before (chunk c.size false) after))

  -- Releasing the payload of a chunk in use, on a heap of well-formed chunks, ends and returns with
  -- that chunk free and the free chunks of the heap merged: the heap is again of well-formed chunks,
  -- no two free ones stand side by side, no byte is lost, and of the machine only the RAM from the
  -- heap's start on has changed.
  pub release-merge :
      c.in_use ≡ true
      → Merged m.process.heap_limit m.process.heap_start
          (cleared m before)
          (merge (before ++ chunk c.size false ∷ after))
          (release payload m)
        × IsMerged (merge (before ++ chunk c.size false ∷ after))
        × (extent (merge (before ++ chunk c.size false ∷ after)) ≡ extent (before ++ c ∷ after))
  release-merge used = (
    release-Merged used,
    merge-IsMerged (before ++ chunk c.size false ∷ after),
    merge-extent (before ++ chunk c.size false ∷ after) ∙ extent-freed before c after,
  )

  -- Releasing the payload of a chunk that is free already, on a heap of well-formed chunks, throws
  -- and changes nothing.
  pub release-double_free : c.in_use ≡ false → release payload m ≡ thrown freed_free_region m
  unfolding release
  release-double_free unused =
      let (header, low) =
        header_at m.process.heap_limit m.ram c after m.process.heap_start before h in
      let start : to_addr (payload + 2 ^ 16 - 3) ≡ end_of m.process.heap_start before =
        omega arith in
      rw start (
        read_then (end_of m.process.heap_start before + 2) _ m (omega arith)
        ∙ rw (header.state, unused))
