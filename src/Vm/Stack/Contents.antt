-- ===== src/Vm/Stack/Contents.antt =====
-- The stack as a list of bytes.
use mathlib.Core.Path.{subst₂}
use custom_isa_8bit_vm.Base.{ℕ, zero, suc, ◌+◌, ◌-◌, ◌≤◌, ◌<◌, ◌≡◌, refl, List, [], ◌∷◌, arith}
use custom_isa_8bit_vm.Vm.State.{Machine, update}
use custom_isa_8bit_vm.Process.{Process}
use custom_isa_8bit_vm.Config.{ram_size}

-- The `n` bytes from `a` on.
unfoldable pub slice : (ℕ → ℕ) → ℕ → ℕ → List ℕ
slice f a zero = []
slice f a (suc n) = f a ∷ slice f (suc a) n

pub slice-update : (f : ℕ → ℕ) (i v a n : ℕ) → i < a → slice (update f i v) a n ≡ slice f a n
unfolding slice
slice-update f i v a zero h = refl
slice-update f i v a (suc n) h = ground (arith, slice-update f i v (suc a) n)

-- The end of the process's region, where an empty stack begins.
abbrev pub top : Process → ℕ
top p = p.first_sector + p.allocated_memory

-- From the stack pointer up to the end of the region.
unfoldable pub contents : Machine → List ℕ
unfolding slice
contents m = slice m.ram m.process.sp (top m.process - m.process.sp)

-- The stack pointer is between its limit and the end of the region, which is in the RAM.
pub record IsStack (p : Process) : Type 0 where
  pub above_limit : p.stack_limit ≤ p.sp
  pub below_top : p.sp ≤ top p
  pub in_ram : top p ≤ ram_size

-- A byte pushed below `sp`.
pub slice_push :
    (f : ℕ → ℕ) (sp t v : ℕ)
    → 0 < sp
    → sp ≤ t
    → slice (update f (sp - 1) v) (sp - 1) (t - (sp - 1)) ≡ v ∷ slice f sp (t - sp)
unfolding slice
slice_push f sp t v p h =
    let n : t - (sp - 1) ≡ suc (t - sp) = omega arith in
    let s : suc (sp - 1) ≡ sp = omega arith in
    rw n (ground (arith, slice-update f (sp - 1) v sp (t - sp), s))

-- Two bytes pushed below `sp`.
pub slice_push_word :
    (f : ℕ → ℕ) (sp t high low : ℕ)
    → 1 < sp
    → sp ≤ t
    → slice (update (update f (sp - 2) high) (sp - 2 + 1) low) (sp - 2) (t - (sp - 2))
      ≡ high ∷ low ∷ slice f sp (t - sp)
unfolding slice
slice_push_word f sp t high low p h =
    let n : t - (sp - 2) ≡ suc (suc (t - sp)) = omega arith in
    let s : suc (suc (sp - 2)) ≡ sp = omega arith in
    rw n (
      ground (
        arith,
        slice-update (update f (sp - 2) high) (sp - 2 + 1) low sp (t - sp),
        slice-update f (sp - 2) high sp (t - sp),
        s,
      ))

-- What a slice says of its first byte.
pub slice_cons :
    (f : ℕ → ℕ) (a n v : ℕ) (vs : List ℕ)
    → slice f a n ≡ v ∷ vs
    → (0 < n) × (f a ≡ v) × (slice f (suc a) (n - 1) ≡ vs)
unfolding slice
slice_cons f a zero v vs e = cc
slice_cons f a (suc n) v vs e =
    let k : suc n - 1 ≡ n = omega arith in (omega arith, ground arith, rw k (ground arith))

pub slice_nil : (f : ℕ → ℕ) (a n : ℕ) → slice f a n ≡ [] → n ≡ 0
unfolding slice
slice_nil f a zero e = refl
slice_nil f a (suc n) e = cc

-- What the contents say of the byte on top.
pub contents-top :
    (m : Machine) (v : ℕ) (vs : List ℕ)
    → contents m ≡ v ∷ vs
    → (m.process.sp < top m.process)
      × (m.ram m.process.sp ≡ v)
      × (slice m.ram (m.process.sp + 1) (top m.process - (m.process.sp + 1)) ≡ vs)
unfolding contents
contents-top m v vs e =
    let (l, first, rest) = slice_cons m.ram m.process.sp (top m.process - m.process.sp) v vs e in
    let n : top m.process - m.process.sp - 1 ≡ top m.process - (m.process.sp + 1) = omega arith in
    let a : suc m.process.sp ≡ m.process.sp + 1 = omega arith in
    (omega arith, first, subst₂ (λ x y. slice m.ram x y ≡ vs) a n rest)
