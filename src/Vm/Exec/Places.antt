-- ===== src/Vm/Exec/Places.antt =====
-- Registers, and cells that registers point to, as operands of src/VM.cpp.
use custom_isa_8bit_vm.Base.{ℕ, ◌+◌, ◌-◌, ◌%◌, ◌≤◌, ◌<◌, ◌≡◌, refl, ap, ◌∙◌, [], ◌∷◌, arith}
use custom_isa_8bit_vm.Config.{ram_size, register_count}
use custom_isa_8bit_vm.Vm.State.{
  ArgType, number, register, indirect_reg, Machine, returned, update, Cell, register_cell, ram_cell,
  register_at, load, store,
}
use custom_isa_8bit_vm.Vm.Effects.{bind_lem, register_at_lem, ram_at_lem}
use custom_isa_8bit_vm.Vm.Operand.{resolve_writeable_arg, operand_of}
use custom_isa_8bit_vm.Vm.Operand.Fetch.{Fits, advanced}

-- A register, or the cell that a register points to, by the register's number.
pub data Place : Type 0 where
  in_register at_register : ℕ → Place

-- What is read: a place, or a number.
pub data Source : Type 0 where
  from : Place → Source
  literal : ℕ → Source

abbrev pub place_type : Place → ArgType
place_type (in_register r) = register
place_type (at_register r) = indirect_reg

abbrev pub place_value : Place → ℕ
place_value (in_register r) = r
place_value (at_register r) = r

abbrev pub source_type : Source → ArgType
source_type (from p) = place_type p
source_type (literal n) = number

abbrev pub source_value : Source → ℕ
source_value (from p) = place_value p
source_value (literal n) = n

abbrev pub cell_of : Place → Machine → Cell
cell_of (in_register r) m = register_cell (r - 1)
cell_of (at_register r) m = ram_cell (m.process.first_sector + m.registers (r - 1))

-- The register exists, and what it points to is in the RAM.
abbrev pub IsInRange : Place → Machine → Type 0
IsInRange (in_register r) m = (0 < r) × (r ≤ register_count)
IsInRange (at_register r) m =
    (0 < r) × ((r ≤ register_count) × (m.process.first_sector + m.registers (r - 1) < ram_size))

abbrev pub IsReadable : Source → Machine → Type 0
IsReadable (from p) m = IsInRange p m
IsReadable (literal n) m = n < 256

abbrev pub contents : Cell → Machine → ℕ
contents (register_cell i) m = m.registers i
contents (ram_cell a) m = m.ram a

abbrev pub with_cell : Cell → ℕ → Machine → Machine
with_cell (register_cell i) v m = record m { registers = update m.registers i (v % 256) }
with_cell (ram_cell a) v m = record m { ram = update m.ram a (v % 256) }

abbrev pub read_source : Source → Machine → ℕ
read_source (from p) m = contents (cell_of p m) m
read_source (literal n) m = n

pub load_lem : (c : Cell) (m : Machine) → load c m ≡ returned (contents c m) m
unfolding load
load_lem (register_cell i) m = refl
load_lem (ram_cell a) m = refl

pub store_lem : (c : Cell) (v : ℕ) (m : Machine) → store c v m ≡ returned tt (with_cell c v m)
unfolding store
store_lem (register_cell i) v m = refl
store_lem (ram_cell a) v m = refl

pub resolve_lem :
    (p : Place) (m : Machine)
    → IsInRange p m
    → resolve_writeable_arg (place_type p) (place_value p) m ≡ returned (cell_of p m) m
unfolding resolve_writeable_arg load
resolve_lem (in_register r) m h = register_at_lem r h.0 h.1
resolve_lem (at_register r) m h =
    bind_lem (register_at r) _ m (register_at_lem r h.0 h.1.0)
    ∙ ram_at_lem (m.process.first_sector + m.registers (r - 1)) h.1.1

pub operand_lem :
    (s : Source) (m : Machine)
    → IsReadable s m
    → operand_of (source_type s) (source_value s) m ≡ returned (read_source s m) m
unfolding operand_of
operand_lem (literal n) m h =
    let small : n % 256 ≡ n = omega (arith, h) in ap (λ k. returned k m) small
operand_lem (from (in_register r)) m h =
    bind_lem (resolve_writeable_arg register r) load m (resolve_lem (in_register r) m h)
    ∙ load_lem (cell_of (in_register r) m) m
operand_lem (from (at_register r)) m h =
    bind_lem (resolve_writeable_arg indirect_reg r) load m (resolve_lem (at_register r) m h)
    ∙ load_lem (cell_of (at_register r) m) m

pub place-Fits : (p : Place) → Fits (place_type p) (place_value p ∷ [])
place-Fits (in_register r) = (tt, refl)
place-Fits (at_register r) = (tt, refl)

pub source-Fits : (s : Source) → Fits (source_type s) (source_value s ∷ [])
source-Fits (from (in_register r)) = (tt, refl)
source-Fits (from (at_register r)) = (tt, refl)
source-Fits (literal n) = (tt, refl)

-- Operands do not depend on the program counter.
module _ (m : Machine) (n : ℕ) where
  pub advanced-IsInRange : (p : Place) → IsInRange p m → IsInRange p (advanced m n)
  advanced-IsInRange (in_register r) h = h
  advanced-IsInRange (at_register r) h = h

  pub advanced-IsReadable : (s : Source) → IsReadable s m → IsReadable s (advanced m n)
  advanced-IsReadable (from p) h = advanced-IsInRange p h
  advanced-IsReadable (literal k) h = h

  pub cell_of-advanced : (p : Place) → cell_of p (advanced m n) ≡ cell_of p m
  cell_of-advanced (in_register r) = refl
  cell_of-advanced (at_register r) = refl

  pub contents-advanced : (c : Cell) → contents c (advanced m n) ≡ contents c m
  contents-advanced (register_cell i) = refl
  contents-advanced (ram_cell a) = refl

  pub read_source-advanced : (s : Source) → read_source s (advanced m n) ≡ read_source s m
  read_source-advanced (from (in_register r)) = refl
  read_source-advanced (from (at_register r)) = refl
  read_source-advanced (literal k) = refl
