-- ===== src/Vm/State.antt =====
-- custom-isa-8bit-vm/include/VM.hpp with include/Type.hpp and include/RawArgument.hpp: the VM object
-- with the process that it runs and the locals of `exec`, and what its methods do to them. A
-- method returns, throws, has undefined behaviour (an index out of range, an uninitialised
-- pointer), or runs out of the fuel of a loop.
use custom_isa_8bit_vm.Base.{
  ℕ, ◌+◌, ◌*◌, ◌%◌, ◌-◌, Bool, ◌&&◌, List, ◌++◌, [], ◌∷◌, ltb, leb, ◌==◌, if◌then◌else◌, ℤ,
}
use custom_isa_8bit_vm.Exception.{Exception}
use custom_isa_8bit_vm.Config.{ram_size, register_count, framebuffer_tot_size}
use custom_isa_8bit_vm.MemoryManager.{MemoryBlock}
use custom_isa_8bit_vm.Process.{Process, to_addr}

-- The enumerators of `Type`. Its underlying byte may also be none of them.
pub data ArgType : Type 0 where
  number register address indirect_reg indirect_mem indirect_lbl number_16 : ArgType
  other : ℕ → ArgType

-- `static_cast<Type>`
unfoldable pub type_of_byte : ℕ → ArgType
type_of_byte b =
    if b == 0
    then number
    else if b == 1
    then register
    else if b == 2
    then address
    else if b == 3
    then indirect_reg
    else if b == 4
    then indirect_mem
    else if b == 5
    then indirect_lbl
    else if b == 6
    then number_16
    else other b

-- `static_cast<int>` of a `Type`
unfoldable pub byte_of_type : ArgType → ℕ
byte_of_type number = 0
byte_of_type register = 1
byte_of_type address = 2
byte_of_type indirect_reg = 3
byte_of_type indirect_mem = 4
byte_of_type indirect_lbl = 5
byte_of_type number_16 = 6
byte_of_type (other b) = b

pub record RawArgument : Type 0 where
  pub type : ArgType
  pub value : ℕ

-- The local `window` of `exec`, a pointer that is set in GUI mode only.
pub data Window : Type 0 where
  uninitialised null opened : Window

-- What is written to the standard streams.
pub data Output : Type 0 where
  printed : ℕ → Output
  flushed window_closed waiting_for_close returned_control terminated_forcefully : Output

pub record Machine : Type 0 where
  pub ram : ℕ → ℕ
  pub registers : ℕ → ℕ
  pub zero : Bool
  pub sign : Bool
  pub last_key : ℕ
  pub free_list : List MemoryBlock
  pub next_ready_pid : ℕ
  pub process : Process
  pub window : Window
  pub display : ℕ → ℕ
  pub input : List ℤ
  pub output : List Output
  pub host_calls : ℕ

pub data Outcome {ℓ} (A : Type ℓ) : Type ℓ where
  returned : A → Machine → Outcome A
  thrown : Exception → Machine → Outcome A
  undefined timeout : Outcome A

abbrev pub M {ℓ} : Type ℓ → Type ℓ
M A = Machine → Outcome A

infixl 5 ◌>>=◌ ◌>>◌
abbrev pub ◌>>=◌ {ℓ κ} : {A : Type ℓ} {B : Type κ} → M A → (A → M B) → M B
◌>>=◌ x f m = elim (x m) [
  | returned a m' ↦ f a m'
  | thrown e m' ↦ thrown e m'
  | undefined ↦ undefined
  | timeout ↦ timeout
]

abbrev pub ◌>>◌ {ℓ} : {B : Type ℓ} → M (Unit {0}) → M B → M B
x >> y = x >>= λ _. y

abbrev pub pure {ℓ} : {A : Type ℓ} → A → M A
pure a m = returned a m

abbrev pub throw {ℓ} : {A : Type ℓ} → Exception → M A
throw e m = thrown e m

abbrev pub undefined_behaviour {ℓ} : {A : Type ℓ} → M A
undefined_behaviour m = undefined

-- The object and the process, to read their fields.
abbrev pub get : M Machine
get m = returned m m

abbrev pub get_process : M Process
get_process m = returned m.process m

abbrev pub set_pc : ℕ → M (Unit {0})
set_pc pc m = returned tt (record m { process = record m.process { pc = to_addr pc } })

abbrev pub set_sp : ℕ → M (Unit {0})
set_sp sp m = returned tt (record m { process = record m.process { sp = to_addr sp } })

abbrev pub print : Output → M (Unit {0})
print o m = returned tt (record m { output = m.output ++ o ∷ [] })

abbrev pub update : (ℕ → ℕ) → ℕ → ℕ → ℕ → ℕ
update f i v j = if j == i then v else f j

-- `RAM[a]`, on a vector of `ram_size` cells.
unfoldable pub read : ℕ → M ℕ
read a m = if ltb a ram_size then returned (m.ram a) m else undefined

-- `RAM[a] = v`, where the conversion to `MemCell` keeps the low byte.
unfoldable pub write : ℕ → ℕ → M (Unit {0})
write a v m =
    if ltb a ram_size then returned tt (record m { ram = update m.ram a (v % 256) }) else undefined

-- `(high << 8) | low` of two bytes, as a `MemAddr`
abbrev pub word : ℕ → ℕ → ℕ
word high low = to_addr (high * 256 + low)

-- What a `MemCell &` refers to.
pub data Cell : Type 0 where
  register_cell ram_cell : ℕ → Cell

-- `registers[arg - 1]`: the index is out of range for 0 and from `register_count + 1` on.
unfoldable pub register_at : ℕ → M Cell
register_at arg m =
    if ltb 0 arg && leb arg register_count then returned (register_cell (arg - 1)) m else undefined

unfoldable pub ram_at : ℕ → M Cell
ram_at a m = if ltb a ram_size then returned (ram_cell a) m else undefined

unfoldable pub load : Cell → M ℕ
load (register_cell i) m = returned (m.registers i) m
load (ram_cell a) m = returned (m.ram a) m

unfoldable pub store : Cell → ℕ → M (Unit {0})
store (register_cell i) v m = returned tt (record m { registers = update m.registers i (v % 256) })
store (ram_cell a) v m = returned tt (record m { ram = update m.ram a (v % 256) })

abbrev pub framebuffer_start : ℕ
framebuffer_start = ram_size - framebuffer_tot_size

-- The cell before the framebuffer, which switches between headless and GUI mode.
abbrev pub gui_cell : ℕ
gui_cell = ram_size - framebuffer_tot_size - 1

unfoldable pub set_gui : Bool → Machine → Machine
set_gui gui_status m = record m { ram = update m.ram gui_cell (if gui_status then 1 else 0) }

unfoldable pub get_gui : Machine → Bool
get_gui m = m.ram gui_cell == 1
