-- ===== src/Vm/Effects.antt =====
-- The primitive effects on addresses that are in range, as equations.
use custom_isa_8bit_vm.Base.{lt→ltb, le→ltb, ℕ, ◌-◌, ◌%◌, ◌≤◌, ◌<◌, ◌≡◌, arith}
use custom_isa_8bit_vm.Vm.State.{
  register, RawArgument, Machine, returned, undefined, M, ◌>>=◌, update, read, write, register_cell,
  ram_cell, register_at, ram_at, load, store,
}
use custom_isa_8bit_vm.Config.{ram_size, register_count}
use custom_isa_8bit_vm.Vm.Operand.{resolve_writeable_arg, write_arg}

pub write_lem :
    (a v : ℕ) (m : Machine)
    → a < ram_size
    → write a v m ≡ returned tt (record m { ram = update m.ram a (v % 256) })
unfolding write
write_lem a v m h = rw (lt→ltb _ _ h)

pub read_lem : (a : ℕ) {m : Machine} → a < ram_size → read a m ≡ returned (m.ram a) m
unfolding read
read_lem a h = rw (lt→ltb _ _ h)

pub ram_at_lem : (a : ℕ) {m : Machine} → a < ram_size → ram_at a m ≡ returned (ram_cell a) m
unfolding ram_at
ram_at_lem a h = rw (lt→ltb _ _ h)

pub register_at_lem :
    (r : ℕ) {m : Machine}
    → 0 < r
    → r ≤ register_count
    → register_at r m ≡ returned (register_cell (r - 1)) m
unfolding register_at
register_at_lem r h k = ground arith

-- A step that returns hands its result to the rest.
pub bind_lem {ℓ κ} :
    {A : Type ℓ} {B : Type κ} (x : M A) (f : A → M B) (m : Machine) {m' : Machine} {a : A}
    → x m ≡ returned a m'
    → (x >>= f) m ≡ f a m'
bind_lem x f m e = rw (e, ◌>>=◌)

module _ {ℓ} {B : Type ℓ} where
  pub write_then :
      (a v : ℕ) (f : Unit {0} → M B) (m : Machine)
      → a < ram_size
      → (write a v >>= f) m ≡ f tt (record m { ram = update m.ram a (v % 256) })
  write_then a v f m h = bind_lem (write a v) f m (write_lem a v m h)

  pub read_then :
      (a : ℕ) (f : ℕ → M B) (m : Machine) → a < ram_size → (read a >>= f) m ≡ f (m.ram a) m
  read_then a f m h = bind_lem (read a) f m (read_lem a h)

abbrev pub in_register : ℕ → RawArgument
in_register r = record { type = register; value = r }

-- A register operand is written by its number, from 1 on.
pub write_register :
    (r v : ℕ) (m : Machine)
    → 0 < r
    → r ≤ register_count
    → write_arg (in_register r) v m
      ≡ returned tt (record m { registers = update m.registers (r - 1) (v % 256) })
unfolding write_arg resolve_writeable_arg store
write_register r v m h k = bind_lem (register_at r) (λ cell. store cell v) m (register_at_lem r h k)

-- A register operand is read by its number.
pub load_register :
    (r : ℕ) (m : Machine)
    → 0 < r
    → r ≤ register_count
    → (resolve_writeable_arg register r >>= load) m ≡ returned (m.registers (r - 1)) m
unfolding resolve_writeable_arg load
load_register r m h k = bind_lem (register_at r) load m (register_at_lem r h k)

-- Outside the RAM a write is undefined.
pub write_beyond : (a v : ℕ) (m : Machine) → ram_size ≤ a → write a v m ≡ undefined
unfolding write
write_beyond a v m h = rw (le→ltb a ram_size h)
