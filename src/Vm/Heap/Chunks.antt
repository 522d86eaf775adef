-- ===== src/Vm/Heap/Chunks.antt =====
-- The heap as a list of chunks, and first fit and merging on such a list.
use custom_isa_8bit_vm.Base.{
  ltb, leb, if◌then◌else◌, length, ℕ, ◌+◌, ◌-◌, ◌/◌, ◌%◌, ◌≤◌, ◌<◌, ◌≡◌, Bool, true, false, not,
  ◌&&◌, Option, none, some, List, [], ◌∷◌, arith,
}

pub record Chunk : Type 0 where
  pub size : ℕ
  pub in_use : Bool

abbrev pub chunk : ℕ → Bool → Chunk
chunk size in_use = record { size = size; in_use = in_use }

abbrev pub flag : Bool → ℕ
flag true = 1
flag false = 0

-- The three bytes of a header at `a`.
pub record HasHeader (f : ℕ → ℕ) (a : ℕ) (c : Chunk) : Type 0 where
  pub high : f a ≡ c.size / 256
  pub low : f (a + 1) ≡ c.size % 256
  pub state : f (a + 2) ≡ flag c.in_use

-- The RAM `f` holds the chunks one behind the other from `a` on. Each starts below the heap's
-- limit, and the last one ends three bytes behind it, since the loader counts the header of the
-- first chunk twice.
abbrev pub Chunks : ℕ → (ℕ → ℕ) → ℕ → List Chunk → Type 0
Chunks limit f a [] = a ≡ limit + 3
Chunks limit f a (c ∷ cs) = (a < limit) × HasHeader f a c × Chunks limit f (a + 3 + c.size) cs

-- HALLOC on chunks from the address `a` on: the payload's address and the chunks then.
unfoldable pub put_behind : Chunk → Option (ℕ × List Chunk) → Option (ℕ × List Chunk)
put_behind c none = none
put_behind c (some (payload, cs)) = some (payload, c ∷ cs)

-- A chunk that is taken: its payload, and the rest split off if it has room for a byte.
unfoldable pub take_from : ℕ → ℕ → List Chunk → List Chunk
take_from n size cs =
    if ltb (n + 3) size
    then chunk n true ∷ chunk (size - 3 - n) false ∷ cs
    else chunk size true ∷ cs

unfoldable pub first_fit : ℕ → ℕ → List Chunk → Option (ℕ × List Chunk)
unfolding put_behind take_from
first_fit n a [] = none
first_fit n a (c ∷ cs) =
    let later = put_behind c (first_fit n (a + 3 + c.size) cs) in
    if c.in_use then later else if leb n c.size then some (a + 3, take_from n c.size cs) else later

-- HFREE's merging: a free chunk swallows the free chunks behind it.
unfoldable pub merge_into : Chunk → List Chunk → List Chunk
merge_into c [] = c ∷ []
merge_into c (d ∷ cs) =
    let joined = merge_into (chunk (c.size + 3 + d.size) false) cs in
    let apart = c ∷ merge_into d cs in if not c.in_use && not d.in_use then joined else apart

unfoldable pub merge : List Chunk → List Chunk
unfolding merge_into
merge [] = []
merge (c ∷ cs) = merge_into c cs

pub Chunks-bound :
    (limit : ℕ) (f : ℕ → ℕ) (a : ℕ) (cs : List Chunk) → Chunks limit f a cs → a ≤ limit + 3
Chunks-bound limit f a [] h = omega arith
Chunks-bound limit f a (c ∷ cs) h = omega arith

pub Chunks-length :
    (limit : ℕ) (f : ℕ → ℕ) (a : ℕ) (cs : List Chunk)
    → Chunks limit f a cs
    → a + length cs ≤ limit + 3
Chunks-length limit f a [] h = omega arith
Chunks-length limit f a (c ∷ cs) h = omega (arith, Chunks-length limit f (a + 3 + c.size) cs h.2)

-- Chunks depend on the cells from `a` on only.
pub Chunks-frame :
    (limit : ℕ) (f g : ℕ → ℕ) (a : ℕ) (cs : List Chunk)
    → ((x : ℕ) → a ≤ x → g x ≡ f x)
    → Chunks limit f a cs
    → Chunks limit g a cs
Chunks-frame limit f g a [] e h = h
Chunks-frame limit f g a (c ∷ cs) e h = (
  h.0,
  ground (arith, e a, e (a + 1), e (a + 2)),
  Chunks-frame limit f g (a + 3 + c.size) cs (λ x l. e x (omega arith)) h.2,
)
