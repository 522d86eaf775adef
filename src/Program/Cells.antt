-- ===== src/Program/Cells.antt =====
-- The cells and registers while a program is loaded, for src/main.cpp.
use custom_isa_8bit_vm.Base.{
  if◌then◌else◌, ltb, true, false, Bytes, ℕ, ◌%◌, ◌^◌, ◌+◌, ◌<◌, [], ◌∷◌, arith, suc,
}
use custom_isa_8bit_vm.Exception.{ok, err, undefined}
use custom_isa_8bit_vm.Config.{ram_size}
use custom_isa_8bit_vm.MemoryManager.{MemoryBlock}
use custom_isa_8bit_vm.MemoryManager
use custom_isa_8bit_vm.Process.{Process, process}
use custom_isa_8bit_vm.Vm.State.{
  M, ◌>>=◌, Outcome, returned, thrown, Machine, read, write, update, set_gui,
}
use custom_isa_8bit_vm.Vm.State
use custom_isa_8bit_vm.Loader.{
  load_program, allocate_region, copy_bytes, take_pid, write_heap_header,
}

-- Cells and registers are bytes, and the key code is one of the five.
abbrev pub Cells : Machine → Type 0
Cells m = ((a : ℕ) → m.ram a < 256) × (((i : ℕ) → m.registers i < 256) × (m.last_key < 5))

-- What is true of the value that is returned, and of the machine that is left behind.
abbrev pub Gives {ℓ} : {A : Type ℓ} → (A → Type 0) → (Machine → Type 0) → Outcome A → Type 0
Gives Q P (returned a m) = Q a × P m
Gives Q P (thrown e m) = P m
Gives Q P _ = Unit

abbrev pub Any {ℓ} : {A : Type ℓ} → A → Type 0
Any a = Unit

module _ {ℓ κ} {A : Type ℓ} {B : Type κ} (Q : A → Type 0) (R : B → Type 0)
    (P : Machine → Type 0) where
  Gives-outcome :
      (f : A → M B) (o : Outcome A)
      → Gives Q P o
      → ((a : A) (m : Machine) → Q a → P m → Gives R P (f a m))
      → Gives R P (elim o as (λ _. Outcome B) [
        | returned a m' ↦ f a m'
        | thrown e m' ↦ thrown e m'
        | State.undefined ↦ State.undefined
        | State.timeout ↦ State.timeout
      ])
  Gives-outcome f (returned a m) h k = k a m h.0 h.1
  Gives-outcome f (thrown e m) h k = h
  Gives-outcome f State.undefined h k = tt
  Gives-outcome f State.timeout h k = tt

  pub Gives-bind :
      (x : M A) (f : A → M B) (m : Machine)
      → Gives Q P (x m)
      → ((a : A) (m : Machine) → Q a → P m → Gives R P (f a m))
      → Gives R P ((x >>= f) m)
  Gives-bind x f m h k = Gives-outcome f (x m) h k

read-Cells : (a : ℕ) (m : Machine) → Cells m → Gives Any Cells (read a m)
unfolding read
read-Cells a m h =
    elim (ltb a ram_size)
      as (λ b. Gives Any Cells (if b then returned (m.ram a) m else State.undefined)) [
        | true ↦ (tt, h)
        | false ↦ tt
      ]

write-Cells : (a v : ℕ) (m : Machine) → Cells m → Gives Any Cells (write a v m)
unfolding write
write-Cells a v m h =
    elim (ltb a ram_size)
      as (λ b. Gives Any Cells (
        if b then returned tt (record m { ram = update m.ram a (v % 256) }) else State.undefined)) [
          | true ↦ (tt, ((λ x. ground (arith, h.0 x)), h.1))
          | false ↦ tt
        ]

allocate_region-Cells : (n : ℕ) (m : Machine) → Cells m → Gives Any Cells (allocate_region n m)
unfolding allocate_region
allocate_region-Cells n m h =
    elim (MemoryManager.allocate n m.free_list)
      as (λ o. Gives Any Cells (elim o as (λ _. Outcome ℕ) [
        | undefined ↦ State.undefined
        | err e ↦ thrown e m
        | ok x ↦ returned x.0 (record m { free_list = x.1 })
      ])) [ undefined ↦ tt | err e ↦ h | ok x ↦ (tt, h) ]

copy_bytes-Cells :
    (a : ℕ) (bs : Bytes) (m : Machine) → Cells m → Gives Any Cells (copy_bytes a bs m)
unfolding copy_bytes
copy_bytes-Cells a [] m h = (tt, h)
copy_bytes-Cells a (b ∷ bs) m h =
    Gives-bind Any Any Cells (write a b) _ m (write-Cells a b m h)
      (λ u m' q k. copy_bytes-Cells (suc a) bs m' k)

write_heap_header-Cells : (a : ℕ) (m : Machine) → Cells m → Gives Any Cells (write_heap_header a m)
unfolding write_heap_header
write_heap_header-Cells a m h =
    Gives-bind Any Any Cells (write a _) _ m (write-Cells a _ m h) (λ u m' q k.
      Gives-bind Any Any Cells (write (a + 1) _) _ m' (write-Cells (a + 1) _ m' k)
        (λ u' m'' q' k'. write-Cells (a + 2) 0 m'' k'))

-- A process of which the program counter and the stack pointer are addresses.
abbrev pub Addressed : Process → Type 0
Addressed p = (p.pc < 2 ^ 16) × (p.sp < 2 ^ 16)

process-Addressed : (pid start size entry : ℕ) → Addressed (process pid start size entry)
unfolding process
process-Addressed pid start size entry = (omega arith, omega arith)

pub load_program-Cells :
    (bytecode : Bytes) (m : Machine) → Cells m → Gives Addressed Cells (load_program bytecode m)
unfolding load_program take_pid
load_program-Cells bytecode m h =
    Gives-bind Any Addressed Cells (allocate_region _) _ m (allocate_region-Cells _ m h)
      (λ start m1 q1 h1.
        Gives-bind Any Addressed Cells (copy_bytes start bytecode) _ m1
          (copy_bytes-Cells start bytecode m1 h1)
          (λ u2 m2 q2 h2.
            Gives-bind Any Addressed Cells (read start) _ m2 (read-Cells start m2 h2)
              (λ high m3 q3 h3.
                Gives-bind Any Addressed Cells (read (start + 1)) _ m3
                  (read-Cells (start + 1) m3 h3)
                  (λ low m4 q4 h4.
                    Gives-bind Any Addressed Cells (write_heap_header _) _ _
                      (write_heap_header-Cells _ _ h4)
                      (λ u5 m5 q5 h5. (process-Addressed _ _ _ _, h5))))))
