-- ===== src/Vm/Invariant/Rules.antt =====
-- The invariant of a run, and the rules by which a method keeps it.
use custom_isa_8bit_vm.Base.{
  ltb, leb, if◌then◌else◌, ℕ, ◌-◌, ◌%◌, ◌^◌, ◌<◌, ◌≡◌, refl, Bool, true, false, ◌&&◌, List, arith,
}
use custom_isa_8bit_vm.Vm.State.{
  Output, Machine, Outcome, returned, thrown, undefined, timeout, M, ◌>>=◌, pure, throw, get,
  get_process, set_pc, set_sp, print, update, read, write, Cell, register_cell, ram_cell,
  register_at, ram_at, load, store,
}
use custom_isa_8bit_vm.Process.{Process}
use custom_isa_8bit_vm.Exception.{Exception}
use custom_isa_8bit_vm.Config.{ram_size, register_count}
use custom_isa_8bit_vm.MemoryManager.{MemoryBlock}

-- Two processes with the same region, heap, stack bounds and identity: all but the program counter,
-- the stack pointer and whether the process runs.
pub record SameRegion (p q : Process) : Type 0 where
  pub pid : q.pid ≡ p.pid
  pub first_sector : q.first_sector ≡ p.first_sector
  pub last_code_sector : q.last_code_sector ≡ p.last_code_sector
  pub entry_point : q.entry_point ≡ p.entry_point
  pub allocated_memory : q.allocated_memory ≡ p.allocated_memory
  pub heap_start : q.heap_start ≡ p.heap_start
  pub stack_limit : q.stack_limit ≡ p.stack_limit
  pub heap_limit : q.heap_limit ≡ p.heap_limit

-- Cells and registers are bytes, addresses have 16 bits, and the process keeps its region; the free
-- list is the loader's alone.
pub record IsMachine (p : Process) (blocks : List MemoryBlock) (m : Machine) : Type 0 where
  pub ram_bytes : (a : ℕ) → m.ram a < 256
  pub register_bytes : (i : ℕ) → m.registers i < 256
  pub key : m.last_key < 5
  pub pc_address : m.process.pc < 2 ^ 16
  pub sp_address : m.process.sp < 2 ^ 16
  pub region : SameRegion p m.process
  pub blocks_kept : m.free_list ≡ blocks

-- The machine that a method leaves behind, if any, satisfies `P`.
pub data Ensures {ℓ} {A : Type ℓ} (P : Machine → Type 0) : Outcome A → Type ℓ where
  returns : {a : A} {m : Machine} → P m → Ensures P (returned a m)
  throws : {e : Exception} {m : Machine} → P m → Ensures P (thrown e m)
  undefines : Ensures P undefined
  runs_out : Ensures P timeout

abbrev pub Keeps {ℓ} : {A : Type ℓ} → (Machine → Type 0) → M A → Type ℓ
Keeps P x = (m : Machine) → P m → Ensures P (x m)

bind_outcome {ℓ κ} :
    {A : Type ℓ} {B : Type κ} (P : Machine → Type 0) (f : A → M B) {o : Outcome A}
    → Ensures P o
    → ((a : A) → Keeps P (f a))
    → Ensures P (elim o as (λ _. Outcome B) [
      | returned a m' ↦ f a m'
      | thrown e m' ↦ thrown e m'
      | undefined ↦ undefined
      | timeout ↦ timeout
    ])
bind_outcome P f (returns h) k = k _ _ h
bind_outcome P f (throws h) k = throws h
bind_outcome P f undefines k = undefines
bind_outcome P f runs_out k = runs_out

module _ {ℓ κ} {A : Type ℓ} {B : Type κ} (P : Machine → Type 0) where
  pub bind : (x : M A) (f : A → M B) → Keeps P x → ((a : A) → Keeps P (f a)) → Keeps P (x >>= f)
  bind x f h k m hm = bind_outcome P f (h m hm) k

module _ {ℓ} {A : Type ℓ} (P : Machine → Type 0) where
  pub branch : (b : Bool) {x y : M A} → Keeps P x → Keeps P y → Keeps P (if b then x else y)
  branch true h k = h
  branch false h k = k

  pub pure-Keeps : (a : A) → Keeps P (pure a)
  pure-Keeps a m h = returns h

  pub throw-Keeps : (e : Exception) → Keeps P (throw {A = A} e)
  throw-Keeps e m h = throws h

module _ (p : Process) (blocks : List MemoryBlock) where
  abbrev pub Inv : Machine → Type 0
  Inv = IsMachine p blocks

  pub get-Keeps : Keeps Inv get
  get-Keeps m h = returns h

  pub get_process-Keeps : Keeps Inv get_process
  get_process-Keeps m h = returns h

  pub set_pc-Keeps : (pc : ℕ) → Keeps Inv (set_pc pc)
  set_pc-Keeps pc m h = returns (record {
    ram_bytes = h.ram_bytes;
    register_bytes = h.register_bytes;
    key = h.key;
    pc_address = omega arith;
    sp_address = h.sp_address;
    region = ground arith;
    blocks_kept = h.blocks_kept;
  })

  pub set_sp-Keeps : (sp : ℕ) → Keeps Inv (set_sp sp)
  set_sp-Keeps sp m h = returns (record {
    ram_bytes = h.ram_bytes;
    register_bytes = h.register_bytes;
    key = h.key;
    pc_address = h.pc_address;
    sp_address = omega arith;
    region = ground arith;
    blocks_kept = h.blocks_kept;
  })

  pub halt-Keeps :
      Keeps {0} {A = Unit {0}} Inv
        (λ m. returned tt (record m { process = record m.process { running = false } }))
  halt-Keeps m h = returns (record {
    ram_bytes = h.ram_bytes;
    register_bytes = h.register_bytes;
    key = h.key;
    pc_address = h.pc_address;
    sp_address = h.sp_address;
    region = ground arith;
    blocks_kept = h.blocks_kept;
  })

  -- An effect on the fields that the invariant does not read.
  pub same-Keeps :
      (m m' : Machine)
      → m'.ram ≡ m.ram
      → m'.registers ≡ m.registers
      → m'.last_key < 5
      → m'.process ≡ m.process
      → m'.free_list ≡ m.free_list
      → Inv m
      → Inv m'
  same-Keeps m m' r g k q f h = record {
    ram_bytes = λ a. rw r (h.ram_bytes a);
    register_bytes = λ i. rw g (h.register_bytes i);
    key = k;
    pc_address = rw q h.pc_address;
    sp_address = rw q h.sp_address;
    region = rw q h.region;
    blocks_kept = rw f h.blocks_kept;
  }

  pub print-Keeps : (o : Output) → Keeps Inv (print o)
  print-Keeps o m h = returns (same-Keeps m _ refl refl h.key refl refl h)

  pub read-Keeps : (a : ℕ) → Keeps Inv (read a)
  unfolding read
  read-Keeps a m h =
      elim (ltb a ram_size) as (λ b. Ensures Inv (if b then returned (m.ram a) m else undefined)) [
        | true ↦ returns h
        | false ↦ undefines
      ]

  set_ram-Inv : (a v : ℕ) (m : Machine) → Inv m → Inv (record m { ram = update m.ram a (v % 256) })
  set_ram-Inv a v m h = record {
    ram_bytes = λ b. ground (arith, h.ram_bytes b);
    register_bytes = h.register_bytes;
    key = h.key;
    pc_address = h.pc_address;
    sp_address = h.sp_address;
    region = h.region;
    blocks_kept = h.blocks_kept;
  }

  set_register-Inv :
      (i v : ℕ) (m : Machine)
      → Inv m
      → Inv (record m { registers = update m.registers i (v % 256) })
  set_register-Inv i v m h = record {
    ram_bytes = h.ram_bytes;
    register_bytes = λ b. ground (arith, h.register_bytes b);
    key = h.key;
    pc_address = h.pc_address;
    sp_address = h.sp_address;
    region = h.region;
    blocks_kept = h.blocks_kept;
  }

  pub write-Keeps : (a v : ℕ) → Keeps Inv (write a v)
  unfolding write
  write-Keeps a v m h =
      elim (ltb a ram_size)
        as (λ b.
          Ensures Inv
            (if b then returned tt (record m { ram = update m.ram a (v % 256) }) else undefined)) [
              | true ↦ returns (set_ram-Inv a v m h)
              | false ↦ undefines
            ]

  pub register_at-Keeps : (arg : ℕ) → Keeps Inv (register_at arg)
  unfolding register_at
  register_at-Keeps arg m h =
      elim (ltb 0 arg && leb arg register_count)
        as (λ b. Ensures Inv (if b then returned (register_cell (arg - 1)) m else undefined)) [
          | true ↦ returns h
          | false ↦ undefines
        ]

  pub ram_at-Keeps : (a : ℕ) → Keeps Inv (ram_at a)
  unfolding ram_at
  ram_at-Keeps a m h =
      elim (ltb a ram_size)
        as (λ b. Ensures Inv (if b then returned (ram_cell a) m else undefined)) [
          | true ↦ returns h
          | false ↦ undefines
        ]

  pub load-Keeps : (c : Cell) → Keeps Inv (load c)
  unfolding load
  load-Keeps (register_cell i) m h = returns h
  load-Keeps (ram_cell a) m h = returns h

  pub store-Keeps : (c : Cell) (v : ℕ) → Keeps Inv (store c v)
  unfolding store
  store-Keeps (register_cell i) v m h = returns (set_register-Inv i v m h)
  store-Keeps (ram_cell a) v m h = returns (set_ram-Inv a v m h)

pub ruleset keeps = (
  bind, branch, pure-Keeps, throw-Keeps, get-Keeps, get_process-Keeps, set_pc-Keeps, set_sp-Keeps,
  halt-Keeps, print-Keeps, read-Keeps, write-Keeps, register_at-Keeps, ram_at-Keeps, load-Keeps,
  store-Keeps,
)
