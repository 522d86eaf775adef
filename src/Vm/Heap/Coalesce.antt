-- ===== src/Vm/Heap/Coalesce.antt =====
-- The loop of HFREE in src/VM.cpp, on chunks.
use custom_isa_8bit_vm.Base.{
  ltb, ◌==◌, if◌then◌else◌, le→leb, lt→leb, Bool-cases, if_both, length, ℕ, zero, suc, ◌+◌, ◌*◌,
  ◌/◌, ◌%◌, ◌≤◌, ◌<◌, ◌≡◌, refl, ◌∙◌, ◌⊎◌, inl, inr, Bool, true, false, not, ◌&&◌, List, [], ◌∷◌,
  arith,
}
use custom_isa_8bit_vm.Vm.State.{Machine, Outcome, returned, update}
use custom_isa_8bit_vm.Process.{to_addr}
use custom_isa_8bit_vm.Config.{ram_size}
use mathlib.Core.Path.{subst}
use custom_isa_8bit_vm.Vm.Effects.{write_then, read_then}
use custom_isa_8bit_vm.Vm.Heap.{coalesce}
use custom_isa_8bit_vm.Vm.Heap.Chunks.{
  Chunk, chunk, flag, Chunks, merge_into, merge, Chunks-bound, Chunks-frame,
}

-- The loop returns, with the chunks `cs` from `a` on and nothing below `a` changed.
pub record Merged (limit a : ℕ) (m : Machine) (cs : List Chunk) (o : Outcome (Unit {0}))
    : Type 0 where
  pub after : Machine
  pub same : o ≡ returned tt after
  pub chunks : Chunks limit after.ram a cs
  pub only_ram : after ≡ record m { ram = after.ram }
  pub below : (x : ℕ) → after.ram x ≡ (if ltb x a then m.ram x else after.ram x)

flag_test : (b : Bool) → (flag b == 0) ≡ not b
flag_test true = refl
flag_test false = refl

module _ (limit : ℕ) (small : limit + 3 ≤ ram_size) where
  -- The machine after two free chunks at `a` have become one of `size` bytes.
  abbrev joined : Machine → ℕ → ℕ → Machine
  joined m a size = record m {
    ram = update (update m.ram a (size / 256 % 256 % 256)) (a + 1) (size % 256 % 256);
  }

  joined-Chunks :
      (m : Machine) (a : ℕ) (c d : Chunk) (cs : List Chunk)
      → Chunks limit m.ram a (c ∷ d ∷ cs)
      → c.in_use ≡ false
      → Chunks limit
          (joined m a (c.size + 3 + d.size)).ram
          a
          (chunk (c.size + 3 + d.size) false ∷ cs)
  joined-Chunks m a c d cs h e =
      let b = Chunks-bound limit m.ram (a + 3 + c.size + 3 + d.size) cs h.2.2 in
      (
        h.0,
        ground arith,
        subst (λ x. Chunks limit (joined m a (c.size + 3 + d.size)).ram x cs) (omega arith)
            (Chunks-frame limit m.ram _ (a + 3 + c.size + 3 + d.size) cs (λ x l. ground arith)
              h.2.2),
      )

  -- The last chunk: the next one would start behind the limit.
  coalesce-last :
      (fuel : ℕ) (m : Machine) (a : ℕ) (c : Chunk)
      → m.process.heap_limit ≡ limit
      → Chunks limit m.ram a (c ∷ [])
      → coalesce (suc fuel) a m ≡ returned tt m
  unfolding coalesce
  coalesce-last fuel m a c e h =
      let size : m.ram a * 256 + m.ram (a + 1) ≡ c.size = omega arith in
      let next : to_addr (a + 3 + c.size) ≡ a + 3 + c.size = omega arith in
      rw (lt→leb m.process.heap_limit a (omega arith)) (
        read_then a _ m (omega arith)
        ∙ read_then (a + 1) _ m (omega arith)
        ∙ read_then (a + 2) _ m (omega arith)
        ∙ rw (size, next, le→leb m.process.heap_limit (a + 3 + c.size) (omega arith)))

  -- One round at a chunk with another one behind it.
  coalesce-round :
      (fuel : ℕ) (m : Machine) (a : ℕ) (c d : Chunk) (cs : List Chunk)
      → m.process.heap_limit ≡ limit
      → Chunks limit m.ram a (c ∷ d ∷ cs)
      → coalesce (suc fuel) a m ≡ (
          if not c.in_use && not d.in_use
          then coalesce fuel a (joined m a (c.size + 3 + d.size))
          else coalesce fuel (a + 3 + c.size) m)
  unfolding coalesce
  coalesce-round fuel m a c d cs e h =
      let b = Chunks-bound limit m.ram (a + 3 + c.size + 3 + d.size) cs h.2.2 in
      let size : m.ram a * 256 + m.ram (a + 1) ≡ c.size = omega arith in
      let next : to_addr (a + 3 + c.size) ≡ a + 3 + c.size = omega arith in
      let size' : m.ram (a + 3 + c.size) * 256 + m.ram (a + 3 + c.size + 1) ≡ d.size =
        omega arith in
      rw (lt→leb m.process.heap_limit a (omega arith)) (
        read_then a _ m (omega arith)
        ∙ read_then (a + 1) _ m (omega arith)
        ∙ read_then (a + 2) _ m (omega arith)
        ∙ rw (size, next, lt→leb m.process.heap_limit (a + 3 + c.size) (omega arith))
            (read_then (a + 3 + c.size) _ m (omega arith)
              ∙ read_then (a + 3 + c.size + 1) _ m (omega arith)
              ∙ read_then (a + 3 + c.size + 2) _ m (omega arith)
              ∙ rw (size', h.1.state, h.2.1.state)
                  (rw (flag_test c.in_use, flag_test d.in_use)
                    (elim (Bool-cases (not c.in_use && not d.in_use)) [
                      | inl both ↦ rw both (
                          write_then a _ _ m (omega arith) ∙ write_then (a + 1) _ _ _ (omega arith))
                      | inr apart ↦ rw apart
                    ]))))

  -- What the loop does to a merged chunk, seen from the machine before the merge.
  joined-Merged :
      (m : Machine) (a size : ℕ) (cs : List Chunk) (o : Outcome (Unit {0}))
      → Merged limit a (joined m a size) cs o
      → Merged limit a m cs o
  joined-Merged m a size cs o t = record {
    after = t.after;
    same = t.same;
    chunks = t.chunks;
    only_ram = t.only_ram;
    below = λ x. ground (arith, t.below x);
  }

  -- What the loop does behind a chunk that stays.
  behind-Merged :
      (m : Machine) (a : ℕ) (c : Chunk) (cs ds : List Chunk) (o : Outcome (Unit {0}))
      → Chunks limit m.ram a (c ∷ cs)
      → Merged limit (a + 3 + c.size) m ds o
      → Merged limit a m (c ∷ ds) o
  behind-Merged m a c cs ds o h t = record {
    after = t.after;
    same = t.same;
    chunks = (h.0, ground (arith, t.below a, t.below (a + 1), t.below (a + 2)), t.chunks);
    only_ram = t.only_ram;
    below = λ x. ground (arith, t.below x);
  }

  pub coalesce-merge_into :
      (fuel : ℕ) (m : Machine) (a : ℕ) (c : Chunk) (cs : List Chunk)
      → length cs < fuel
      → m.process.heap_limit ≡ limit
      → Chunks limit m.ram a (c ∷ cs)
      → Merged limit a m (merge_into c cs) (coalesce fuel a m)
  unfolding merge_into
  coalesce-merge_into zero m a c cs l e h = absurd (omega arith)
  coalesce-merge_into (suc fuel) m a c [] l e h = record {
    after = m;
    same = coalesce-last fuel m a c e h;
    chunks = h;
    only_ram = refl;
    below = λ x. ground arith;
  }
  coalesce-merge_into (suc fuel) m a c (d ∷ cs) l e h = rw (coalesce-round fuel m a c d cs e h) (
      if_both (Merged limit a m) (not c.in_use && not d.in_use)
        (λ both. joined-Merged m a (c.size + 3 + d.size) _ _ (
          coalesce-merge_into fuel (joined m a (c.size + 3 + d.size)) a
            (chunk (c.size + 3 + d.size) false) cs (omega arith) e
            (joined-Chunks m a c d cs h (ground arith))))
        (λ apart.
          behind-Merged m a c (d ∷ cs) _ _ h
            (coalesce-merge_into fuel m (a + 3 + c.size) d cs (omega arith) e h.2)))

-- No two chunks that stand side by side are free.
abbrev pub IsMerged : List Chunk → Type 0
IsMerged [] = Unit
IsMerged (c ∷ []) = Unit
IsMerged (c ∷ d ∷ cs) = ((c.in_use ≡ true) ⊎ (d.in_use ≡ true)) × IsMerged (d ∷ cs)

-- The payload bytes with their headers, over all chunks.
unfoldable pub extent : List Chunk → ℕ
extent [] = 0
extent (c ∷ cs) = 3 + c.size + extent cs

-- Merging keeps the state of the first chunk, so what stands in front stays merged.
merge_into-head :
    (c : Chunk) (cs : List Chunk)
    → (d : Chunk) × (ds : List Chunk) × (merge_into c cs ≡ d ∷ ds) × (d.in_use ≡ c.in_use)
unfolding merge_into
merge_into-head c [] = (c, [], refl, refl)
merge_into-head c (d ∷ cs) =
    let (j, js, e, u) = merge_into-head (chunk (c.size + 3 + d.size) false) cs in
    elim (Bool-cases (not c.in_use && not d.in_use)) [
      | inl both ↦ (j, js, rw both e, u ∙ ground arith)
      | inr apart ↦ (c, merge_into d cs, rw apart, refl)
    ]

IsMerged-cons :
    (c d : Chunk) (ds : List Chunk) (cs : List Chunk)
    → cs ≡ d ∷ ds
    → ((c.in_use ≡ true) ⊎ (d.in_use ≡ true))
    → IsMerged cs
    → IsMerged (c ∷ cs)
IsMerged-cons c d ds cs e u h = rw e (u, rw e at h)

merge_into-IsMerged : (c : Chunk) (cs : List Chunk) → IsMerged (merge_into c cs)
unfolding merge_into
merge_into-IsMerged c [] = tt
merge_into-IsMerged c (d ∷ cs) =
    let (j, js, e, u) = merge_into-head d cs in
    elim (Bool-cases (not c.in_use && not d.in_use)) [
      | inl both ↦ rw both (merge_into-IsMerged (chunk (c.size + 3 + d.size) false) cs)
      | inr apart ↦
          rw apart
            (IsMerged-cons c j js (merge_into d cs) e (ground arith) (merge_into-IsMerged d cs))
    ]

-- Merging leaves no two free chunks side by side.
pub merge-IsMerged : (cs : List Chunk) → IsMerged (merge cs)
unfolding merge
merge-IsMerged [] = tt
merge-IsMerged (c ∷ cs) = merge_into-IsMerged c cs

merge_into-extent : (c : Chunk) (cs : List Chunk) → extent (merge_into c cs) ≡ extent (c ∷ cs)
unfolding merge_into extent
merge_into-extent c [] = refl
merge_into-extent c (d ∷ cs) =
    ground (arith, merge_into-extent (chunk (c.size + 3 + d.size) false) cs, merge_into-extent d cs)

-- Merging loses no byte.
pub merge-extent : (cs : List Chunk) → extent (merge cs) ≡ extent cs
unfolding merge
merge-extent [] = refl
merge-extent (c ∷ cs) = merge_into-extent c cs
