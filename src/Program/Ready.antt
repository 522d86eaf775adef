-- ===== src/Program/Ready.antt =====
-- When the code of a line can run in the loop of `exec` of src/VM.cpp.
use custom_isa_8bit_vm.Base.{
  lt→ltb, length, Bytes, ℕ, ◌+◌, ◌%◌, ◌≤◌, ◌<◌, ◌≡◌, refl, ap, ◌∙◌, true, [], ◌∷◌, ◌++◌, arith,
}
use mathlib.Core.Path.{subst}
use custom_isa_8bit_vm.Config.{ram_size}
use custom_isa_8bit_vm.Process.{Process}
use custom_isa_8bit_vm.Vm.State.{Machine, update, Cell, register_cell, ram_cell}
use custom_isa_8bit_vm.Vm.Operand.Fetch.{Holds, advanced}
use custom_isa_8bit_vm.Vm.Exec.{continues}
use custom_isa_8bit_vm.Vm.Exec.Places.{cell_of, with_cell}
use custom_isa_8bit_vm.Program.TapeLines.{
  TapeLine, up, down, raise, lower, times_b, times_c, keep_b, clear, keep_c, add_b, sub_b, add_c,
  place, code_of,
}
use custom_isa_8bit_vm.Program.Tape.{stepped}

-- A running machine of bytes with the code at the program counter, behind the 256 cells of the tape
-- and within the region's code and the RAM.
pub record IsReady (code : Bytes) (m : Machine) : Type 0 where
  pub running : m.process.running ≡ true
  pub holds : Holds m.ram m.process.pc code
  pub behind : m.process.first_sector + 256 ≤ m.process.pc
  pub in_code : m.process.pc + length code ≤ m.process.last_code_sector
  pub in_ram : m.process.pc + length code ≤ ram_size
  pub register_bytes : (i : ℕ) → m.registers i < 256
  pub ram_bytes : (a : ℕ) → m.ram a < 256

-- Bytes that are not written stay.
Holds-update :
    (f : ℕ → ℕ) (a b v : ℕ) (code : Bytes) → b < a → Holds f a code → Holds (update f b v) a code
Holds-update f a b v [] l h = tt
Holds-update f a b v (c ∷ code) l h =
    (ground (arith, h.0), Holds-update f (a + 1) b v code (omega (arith, l)) h.1)

pub Holds-drop :
    (f : ℕ → ℕ) (a : ℕ) (xs ys : Bytes) → Holds f a (xs ++ ys) → Holds f (a + length xs) ys
Holds-drop f a [] ys h = subst (λ q. Holds f q ys) (omega arith) h
Holds-drop f a (x ∷ xs) ys h =
    subst (λ q. Holds f q ys) (omega arith) (Holds-drop f (a + 1) xs ys h.1)

pub Holds-front : (f : ℕ → ℕ) (a : ℕ) (xs ys : Bytes) → Holds f a (xs ++ ys) → Holds f a xs
Holds-front f a [] ys h = tt
Holds-front f a (x ∷ xs) ys h = (h.0, Holds-front f (a + 1) xs ys h.1)

-- A step keeps what is not the line's.
pub with_cell-register_bytes :
    (c : Cell) (v : ℕ) (m : Machine)
    → ((i : ℕ) → m.registers i < 256)
    → (i : ℕ) → (with_cell c v m).registers i < 256
with_cell-register_bytes (register_cell k) v m h i = ground (arith, h i)
with_cell-register_bytes (ram_cell a) v m h i = h i

pub with_cell-ram_bytes :
    (c : Cell) (v : ℕ) (m : Machine)
    → ((a : ℕ) → m.ram a < 256)
    → (a : ℕ) → (with_cell c v m).ram a < 256
with_cell-ram_bytes (register_cell k) v m h a = h a
with_cell-ram_bytes (ram_cell b) v m h a = ground (arith, h a)

pub with_cell-process : (c : Cell) (v : ℕ) (m : Machine) → (with_cell c v m).process ≡ m.process
with_cell-process (register_cell k) v m = refl
with_cell-process (ram_cell b) v m = refl

-- The cell that a line writes is a register, or lies below the code.
abbrev pub Below : ℕ → Cell → Type 0
Below limit (register_cell k) = Unit
Below limit (ram_cell a) = a < limit

with_cell-Holds :
    (c : Cell) (v a : ℕ) (m : Machine) (code : Bytes)
    → Below a c
    → Holds m.ram a code
    → Holds (with_cell c v m).ram a code
with_cell-Holds (register_cell k) v a m code b h = h
with_cell-Holds (ram_cell x) v a m code b h = Holds-update m.ram a x (v % 256) code b h

pub place-Below :
    (l : TapeLine) (m : Machine) (limit : ℕ)
    → m.process.first_sector + m.registers 0 < limit
    → Below limit (cell_of (place l) m)
place-Below (up n) m limit h = tt
place-Below (down n) m limit h = tt
place-Below (raise n) m limit h = h
place-Below (lower n) m limit h = h
place-Below (times_b n) m limit h = tt
place-Below (times_c n) m limit h = tt
place-Below keep_b m limit h = tt
place-Below clear m limit h = h
place-Below keep_c m limit h = tt
place-Below add_b m limit h = h
place-Below sub_b m limit h = h
place-Below add_c m limit h = h

code_of-length : (l : TapeLine) → length (code_of l) ≡ 5
code_of-length l = refl

pub stepped-IsReady :
    (l : TapeLine) (rest : Bytes) (m : Machine)
    → IsReady (code_of l ++ rest) m
    → IsReady rest (stepped l m)
stepped-IsReady l rest m h =
    let same : (stepped l m).process ≡ (advanced m 5).process =
      with_cell-process (cell_of (place l) m) _ (advanced m 5) in
    let below : m.process.first_sector + m.registers 0 < m.process.pc + 5 =
      omega (arith, h.behind, h.register_bytes 0) in
    let kept : Holds m.ram (m.process.pc + 5) rest =
      Holds-drop m.ram m.process.pc (code_of l) rest h.holds in
    record {
      running = ap (λ (p : Process). p.running) same ∙ h.running;
      holds = rw same (
          with_cell-Holds (cell_of (place l) m) _ (m.process.pc + 5) (advanced m 5) rest
            (place-Below l m (m.process.pc + 5) below) kept);
      behind = rw same (omega (arith, h.behind));
      in_code = rw same (omega (arith, h.in_code));
      in_ram = rw same (omega (arith, h.in_ram));
      register_bytes =
          with_cell-register_bytes (cell_of (place l) m) _ (advanced m 5) h.register_bytes;
      ram_bytes = with_cell-ram_bytes (cell_of (place l) m) _ (advanced m 5) h.ram_bytes;
    }

pub continues-IsReady :
    (code : Bytes) (m : Machine) → 0 < length code → IsReady code m → continues m.process ≡ true
continues-IsReady code m p h =
    rw (h.running, lt→ltb m.process.pc m.process.last_code_sector (omega (arith, h.in_code, p)))
      refl
