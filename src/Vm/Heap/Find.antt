-- ===== src/Vm/Heap/Find.antt =====
-- The search of HALLOC in src/VM.cpp, on chunks.
use custom_isa_8bit_vm.Base.{
  ltb, leb, if◌then◌else◌, ltb→lt, lt→ltb, le→ltb, leb→le, le→leb, lt→leb, Bool-cases, if_both,
  length, ℕ, zero, suc, ◌+◌, ◌-◌, ◌*◌, ◌/◌, ◌%◌, ◌≤◌, ◌<◌, ◌≡◌, refl, ap, ◌∙◌, inl, inr, Option,
  none, some, List, [], ◌∷◌, arith,
}
use custom_isa_8bit_vm.Vm.State.{Machine, Outcome, returned, thrown, update}
use custom_isa_8bit_vm.Process.{to_addr}
use custom_isa_8bit_vm.Exception.{heap_overflow}
use custom_isa_8bit_vm.Config.{ram_size}
use mathlib.Core.Path.{subst}
use custom_isa_8bit_vm.Vm.Effects.{write_then, read_then}
use custom_isa_8bit_vm.Vm.Heap.{take_chunk, find_chunk, heap_fuel}
use custom_isa_8bit_vm.Vm.Heap.Chunks.{
  Chunk, Chunks, first_fit, take_from, put_behind, Chunks-bound, Chunks-length, Chunks-frame,
}

-- What HALLOC's search does where first fit finds nothing, or an address with new chunks. `only_ram`
-- and `below`: nothing but cells from `a` on has changed.
pub record Took (limit n a : ℕ) (m : Machine) (payload : ℕ) (cs : List Chunk) (o : Outcome ℕ)
    : Type 0 where
  pub after : Machine
  pub same : o ≡ returned payload after
  pub chunks : Chunks limit after.ram a cs
  pub only_ram : after ≡ record m { ram = after.ram }
  pub below : (x : ℕ) → after.ram x ≡ (if ltb x a then m.ram x else after.ram x)

abbrev pub Found : ℕ → ℕ → ℕ → Machine → Option (ℕ × List Chunk) → Outcome ℕ → Type 0
Found limit n a m none o = o ≡ thrown heap_overflow m
Found limit n a m (some (payload, cs)) o = Took limit n a m payload cs o

module _ (n : ℕ) (m : Machine) (small : m.process.heap_limit + 3 ≤ ram_size) where
  abbrev limit : ℕ
  limit = m.process.heap_limit

  abbrev with_header : (ℕ → ℕ) → ℕ → ℕ → ℕ → ℕ → ℕ
  with_header f a size state =
      update (update (update f a (size / 256 % 256 % 256)) (a + 1) (size % 256 % 256)) (a + 2) state

  abbrev after_split : ℕ → ℕ → Machine
  after_split a size = record m {
    ram = with_header (with_header m.ram (a + 3 + n) (size - 3 - n) 0) a n 1;
  }

  take_chunk-split :
      (a size : ℕ)
      → a + size ≤ limit
      → n + 3 < size
      → take_chunk n a size m ≡ returned (a + 3) (after_split a size)
  unfolding take_chunk
  take_chunk-split a size h l = rw (lt→ltb _ _ l) (
      write_then (a + 3 + n) _ _ _ (omega arith)
      ∙ write_then (a + 3 + n + 1) _ _ _ (omega arith)
      ∙ write_then (a + 3 + n + 2) _ _ _ (omega arith)
      ∙ write_then a _ _ _ (omega arith)
      ∙ write_then (a + 1) _ _ _ (omega arith)
      ∙ write_then (a + 2) _ _ _ (omega arith)
      ∙ ap (λ p. returned p (after_split a size)) (omega arith))

  abbrev after_whole : ℕ → ℕ → Machine
  after_whole a size = record m { ram = with_header m.ram a size 1 }

  take_chunk-whole :
      (a size : ℕ)
      → a + size ≤ limit
      → size ≤ n + 3
      → take_chunk n a size m ≡ returned (a + 3) (after_whole a size)
  unfolding take_chunk
  take_chunk-whole a size h l = rw (le→ltb _ _ l) (
      write_then a _ _ _ (omega arith)
      ∙ write_then (a + 1) _ _ _ (omega arith)
      ∙ write_then (a + 2) _ _ _ (omega arith)
      ∙ ap (λ p. returned p (after_whole a size)) (omega arith))

  take_chunk-Took :
      (a : ℕ) (c : Chunk) (cs : List Chunk)
      → Chunks limit m.ram a (c ∷ cs)
      → n ≤ c.size
      → Took limit n a m (a + 3) (take_from n c.size cs) (take_chunk n a c.size m)
  unfolding take_from
  take_chunk-Took a c cs h l =
      let b = Chunks-bound limit m.ram (a + 3 + c.size) cs h.2 in
      elim (Bool-cases (ltb (n + 3) c.size)) [
        | inl big ↦ rw big (record {
          after = after_split a c.size;
          same = take_chunk-split a c.size (omega arith) (ltb→lt _ _ big);
          chunks = (
            h.0,
            ground arith,
            (
              ground arith,
              ground arith,
              subst (λ e. Chunks limit (after_split a c.size).ram e cs)
                  (omega (arith, ltb→lt _ _ big))
                  (Chunks-frame limit m.ram _ (a + 3 + c.size) cs (λ x e. ground arith) h.2),
            ),
          );
          only_ram = refl;
          below = λ x. ground arith;
        })
        | inr fits ↦ rw fits (record {
          after = after_whole a c.size;
          same = take_chunk-whole a c.size (omega arith) (ground arith);
          chunks = (
            h.0,
            ground arith,
            Chunks-frame limit m.ram _ (a + 3 + c.size) cs (λ x e. ground arith) h.2,
          );
          only_ram = refl;
          below = λ x. ground arith;
        })
      ]

  -- What was found behind a chunk is found with the chunk in front.
  later-Found :
      (a : ℕ) (c : Chunk) (cs : List Chunk) (found : Option (ℕ × List Chunk)) (o : Outcome ℕ)
      → Chunks limit m.ram a (c ∷ cs)
      → Found limit n (a + 3 + c.size) m found o
      → Found limit n a m (put_behind c found) o
  unfolding put_behind
  later-Found a c cs none o h t = t
  later-Found a c cs (some (payload, cs')) o h t = record {
    after = t.after;
    same = t.same;
    chunks = (h.0, ground (arith, t.below a, t.below (a + 1), t.below (a + 2)), t.chunks);
    only_ram = t.only_ram;
    below = λ x. ground (arith, t.below x);
  }

  -- One round of the search, at a chunk.
  find_chunk-chunk :
      (fuel a : ℕ) (c : Chunk) (cs : List Chunk)
      → Chunks limit m.ram a (c ∷ cs)
      → find_chunk (suc fuel) n a m ≡ (
          if c.in_use
          then find_chunk fuel n (a + 3 + c.size) m
          else if leb n c.size
          then take_chunk n a c.size m
          else find_chunk fuel n (a + 3 + c.size) m)
  unfolding find_chunk
  find_chunk-chunk fuel a c cs h =
      let b = Chunks-bound limit m.ram (a + 3 + c.size) cs h.2 in
      let size : m.ram a * 256 + m.ram (a + 1) ≡ c.size = omega arith in
      let next : to_addr (a + (c.size + 3)) ≡ a + 3 + c.size = omega arith in
      rw (lt→leb _ _ h.0) (
        read_then a _ m (omega arith)
        ∙ read_then (a + 1) _ m (omega arith)
        ∙ read_then (a + 2) _ m (omega arith)
        ∙ rw (h.1.state, size, next)
            (elim (Bool-cases c.in_use) [
              | inl used ↦ rw used
              | inr unused ↦
                  rw unused
                    (elim (Bool-cases (leb n c.size)) [ inl big ↦ rw big | inr little ↦ rw little ])
            ]))

  pub find_chunk-first_fit :
      (fuel a : ℕ) (cs : List Chunk)
      → length cs < fuel
      → Chunks limit m.ram a cs
      → Found limit n a m (first_fit n a cs) (find_chunk fuel n a m)
  unfolding first_fit find_chunk
  find_chunk-first_fit zero a cs l h = absurd (omega arith)
  find_chunk-first_fit (suc fuel) a [] l h =
      rw (find_chunk, le→leb m.process.heap_limit a (omega arith))
  find_chunk-first_fit (suc fuel) a (c ∷ cs) l h =
      let later =
        later-Found a c cs _ _ h
          (find_chunk-first_fit fuel (a + 3 + c.size) cs (omega arith) h.2) in
      rw (find_chunk-chunk fuel a c cs h) (
        if_both (Found limit n a m) c.in_use (λ _. later)
          (λ _.
            if_both (Found limit n a m) (leb n c.size)
              (λ big. take_chunk-Took a c cs h (leb→le _ _ big)) (λ _. later)))

-- HALLOC's search from the start of a heap of well-formed chunks, at least 3 bytes below the end of
-- the RAM, ends and is first fit on the chunks: it returns the payload of the first free chunk that
-- is large enough, the heap then holds the chunks that first fit leaves, and only RAM from the
-- heap's start on has changed; where there is none it throws and changes nothing.
pub find_chunk-heap :
    (n : ℕ) (m : Machine) (cs : List Chunk)
    → m.process.heap_limit + 3 ≤ ram_size
    → Chunks m.process.heap_limit m.ram m.process.heap_start cs
    → Found m.process.heap_limit n m.process.heap_start m
        (first_fit n m.process.heap_start cs)
        (find_chunk heap_fuel n m.process.heap_start m)
find_chunk-heap n m cs small h =
    find_chunk-first_fit n m small heap_fuel m.process.heap_start cs
      (omega (arith, Chunks-length m.process.heap_limit m.ram m.process.heap_start cs h)) h
