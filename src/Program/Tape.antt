-- ===== src/Program/Tape.antt =====
-- The lines that src/Brainfvck.cpp writes for the tape, assembled by src/Assembler.cpp and run by
-- src/VM.cpp.
use custom_isa_8bit_vm.Base.{
  ◌==◌, ==_iff, Bool-cases, equal, ℕ, ◌+◌, ◌-◌, ◌*◌, ◌%◌, ◌≤◌, ◌<◌, ◌≡◌, refl, sym, ap, inl, inr,
  true, false, arith,
}
use custom_isa_8bit_vm.Base.{pos, to_byte}
use mathlib.Core.Path.{subst}
use custom_isa_8bit_vm.Assembler.Text.{from_chars}
use custom_isa_8bit_vm.Config.{ram_size}
use custom_isa_8bit_vm.Vm.State.{Machine, returned, update, Cell, register_cell, ram_cell}
use custom_isa_8bit_vm.Vm.Operand.Fetch.{Holds, advanced}
use custom_isa_8bit_vm.Vm.Host.{Host}
use custom_isa_8bit_vm.Vm.Exec.{step}
use custom_isa_8bit_vm.Vm.Exec.Compute.{step-Computes}
use custom_isa_8bit_vm.Vm.Exec.Places.{
  IsInRange, IsReadable, cell_of, contents, with_cell, read_source,
}
use custom_isa_8bit_vm.Brainfvck.Format.{starts_with}
use custom_isa_8bit_vm.Brainfvck.Format.Decimal.{from_chars-format_int}
use custom_isa_8bit_vm.Brainfvck.LoopShape.{body_line, parse_instr_arg, negated}
use custom_isa_8bit_vm.Brainfvck.LoopReplace.Memory.{
  Memory, line_effect, other_effect, here, set_cell, move, change,
}
use custom_isa_8bit_vm.Brainfvck.LoopReplace.Delta.{to_byte-sub}
use custom_isa_8bit_vm.Program.TapeLines.{
  TapeLine, up, down, raise, lower, times_b, times_c, keep_b, clear, keep_c, add_b, sub_b, add_c,
  text, place, source, opcode, operation, IsByteLine, code_of, operation-Computes,
}

-- The tape in a machine: cell 0 is the first byte of the program's region.
abbrev pub tape : Machine → Memory
tape m = record {
  pointer = m.registers 0;
  b = m.registers 1;
  c = m.registers 2;
  cells = λ x. m.ram (m.process.first_sector + x);
}

-- The same pointer, registers and cells.
abbrev pub SameMemory : Memory → Memory → Type 0
SameMemory m m' =
    (m.pointer ≡ m'.pointer) × ((m.b ≡ m'.b) × ((m.c ≡ m'.c) × ((x : ℕ) → m.cells x ≡ m'.cells x)))

-- The machine behind the line.
abbrev pub stepped : TapeLine → Machine → Machine
stepped l m =
    with_cell (cell_of (place l) m)
      (operation l (contents (cell_of (place l) m) m) (read_source (source l) m)) (advanced m 5)

-- A write through the pointer, seen on the tape.
pub cell-written :
    (f : ℕ → ℕ) (start p v w : ℕ)
    → v ≡ w
    → (x : ℕ) → update f (start + p) v (start + x) ≡ update (λ y. f (start + y)) p w x
cell-written f start p v w e x = elim (Bool-cases (x == p)) [
  | inl f' ↦
      let there : (start + x == start + p) ≡ true =
        (==_iff _ _).1 (ap (λ q. start + q) ((==_iff x p).0 f')) in
      rw (f', there) e
  | inr f' ↦ let off : (start + x == start + p) ≡ false = ground arith in rw (f', off) refl
]

in_range :
    (l : TapeLine) (m : Machine)
    → m.process.first_sector + m.registers 0 < ram_size
    → IsInRange (place l) m
in_range (raise n) m h = (omega arith, (omega arith, h))
in_range (lower n) m h = (omega arith, (omega arith, h))
in_range clear m h = (omega arith, (omega arith, h))
in_range add_b m h = (omega arith, (omega arith, h))
in_range sub_b m h = (omega arith, (omega arith, h))
in_range add_c m h = (omega arith, (omega arith, h))
in_range (up n) m h = (omega arith, omega arith)
in_range (down n) m h = (omega arith, omega arith)
in_range (times_b n) m h = (omega arith, omega arith)
in_range (times_c n) m h = (omega arith, omega arith)
in_range keep_b m h = (omega arith, omega arith)
in_range keep_c m h = (omega arith, omega arith)

readable :
    (l : TapeLine) (m : Machine)
    → IsByteLine l
    → m.process.first_sector + m.registers 0 < ram_size
    → IsReadable (source l) m
readable (up n) m b h = b
readable (down n) m b h = b
readable (raise n) m b h = b
readable (lower n) m b h = b
readable (times_b n) m b h = b
readable (times_c n) m b h = b
readable keep_b m b h = (omega arith, (omega arith, h))
readable clear m b h = omega arith
readable keep_c m b h = (omega arith, omega arith)
readable add_b m b h = (omega arith, omega arith)
readable sub_b m b h = (omega arith, omega arith)
readable add_c m b h = (omega arith, omega arith)

-- What the text of a line does.
abbrev pub effect_of : TapeLine → Memory → Memory
effect_of (up n) t = move (pos n) t
effect_of (down n) t = move (negated (pos n)) t
effect_of (raise n) t = change (pos n) t
effect_of (lower n) t = change (negated (pos n)) t
effect_of (times_b n) t = record t { b = t.b * to_byte (pos n) % 256 }
effect_of (times_c n) t = record t { c = t.c * to_byte (pos n) % 256 }
effect_of keep_b t = record t { b = here t }
effect_of clear t = set_cell 0 t
effect_of keep_c t = record t { c = t.b }
effect_of add_b t = set_cell (here t + t.b) t
effect_of sub_b t = set_cell (here t + 256 - t.b) t
effect_of add_c t = set_cell (here t + t.c) t

text-effect_of :
    (l : TapeLine) (t : Memory)
    → IsByteLine l
    → line_effect (text l) (body_line (text l)) t ≡ effect_of l t
unfolding body_line parse_instr_arg starts_with other_effect equal from_chars
text-effect_of (up n) t b = rw (from_chars-format_int (pos n) (omega (arith, b))) refl
text-effect_of (down n) t b = rw (from_chars-format_int (pos n) (omega (arith, b))) refl
text-effect_of (raise n) t b = rw (from_chars-format_int (pos n) (omega (arith, b))) refl
text-effect_of (lower n) t b = rw (from_chars-format_int (pos n) (omega (arith, b))) refl
text-effect_of (times_b n) t b = rw (from_chars-format_int (pos n) (omega (arith, b))) refl
text-effect_of (times_c n) t b = rw (from_chars-format_int (pos n) (omega (arith, b))) refl
text-effect_of keep_b t b = refl
text-effect_of clear t b = refl
text-effect_of keep_c t b = refl
text-effect_of add_b t b = refl
text-effect_of sub_b t b = refl
text-effect_of add_c t b = refl

product_byte : (a n : ℕ) → n < 256 → a * n % 256 % 256 ≡ a * to_byte (pos n) % 256
product_byte a n h =
    let same : to_byte (pos n) ≡ n = omega (arith, h) in
    let product : a * to_byte (pos n) ≡ a * n = ap (λ q. a * q) same in omega (arith, product)

byte_back : (a n : ℕ) → n < 256 → (a + 256 - n) % 256 % 256 ≡ (a + to_byte (negated (pos n))) % 256
byte_back a n h = omega (arith, to_byte-sub (pos 0) (pos n), h)

pub stepped-effect_of :
    (l : TapeLine) (m : Machine)
    → IsByteLine l
    → ((i : ℕ) → m.registers i < 256)
    → ((a : ℕ) → m.ram a < 256)
    → SameMemory (tape (stepped l m)) (effect_of l (tape m))
stepped-effect_of (up n) m b r f = (omega arith, (refl, (refl, λ x. refl)))
stepped-effect_of (down n) m b r f = (byte_back (m.registers 0) n b, (refl, (refl, λ x. refl)))
stepped-effect_of (raise n) m b r f = (
  refl,
  (refl, (refl, cell-written m.ram m.process.first_sector (m.registers 0) _ _ (omega arith))),
)
stepped-effect_of (lower n) m b r f = (
  refl,
  (refl, (refl, cell-written m.ram m.process.first_sector (m.registers 0) _ _ (byte_back _ n b))),
)
stepped-effect_of (times_b n) m b r f =
    (refl, (product_byte (m.registers 1) n b, (refl, λ x. refl)))
stepped-effect_of (times_c n) m b r f =
    (refl, (refl, (product_byte (m.registers 2) n b, λ x. refl)))
stepped-effect_of keep_b m b r f =
    (refl, (omega (arith, f (m.process.first_sector + m.registers 0)), (refl, λ x. refl)))
stepped-effect_of clear m b r f =
    (refl, (refl, (refl, cell-written m.ram m.process.first_sector (m.registers 0) _ _ refl)))
stepped-effect_of keep_c m b r f = (refl, (refl, (omega (arith, r 1), λ x. refl)))
stepped-effect_of add_b m b r f = (
  refl,
  (refl, (refl, cell-written m.ram m.process.first_sector (m.registers 0) _ _ (omega arith))),
)
stepped-effect_of sub_b m b r f = (
  refl,
  (refl, (refl, cell-written m.ram m.process.first_sector (m.registers 0) _ _ (omega arith))),
)
stepped-effect_of add_c m b r f = (
  refl,
  (refl, (refl, cell-written m.ram m.process.first_sector (m.registers 0) _ _ (omega arith))),
)

with_cell-pc : (c : Cell) (v : ℕ) (m : Machine) → (with_cell c v m).process.pc ≡ m.process.pc
with_cell-pc (register_cell i) v m = refl
with_cell-pc (ram_cell a) v m = refl

pub step-stepped :
    (host : Host) (row : ℕ) (l : TapeLine) (m : Machine)
    → IsByteLine l
    → Holds m.ram m.process.pc (code_of l)
    → m.process.pc + 5 ≤ ram_size
    → m.process.first_sector + m.registers 0 < ram_size
    → step host row m ≡ returned tt (stepped l m)
step-stepped host row l m b h p s =
    step-Computes host row (opcode l) (operation l) (place l) (source l) m (operation-Computes l) h
      p (in_range l m s) (readable l m b s)

pub stepped-line_effect :
    (l : TapeLine) (m : Machine)
    → IsByteLine l
    → ((i : ℕ) → m.registers i < 256)
    → ((a : ℕ) → m.ram a < 256)
    → SameMemory (tape (stepped l m)) (line_effect (text l) (body_line (text l)) (tape m))
stepped-line_effect l m b r f =
    subst (SameMemory (tape (stepped l m))) (sym (text-effect_of l (tape m) b))
      (stepped-effect_of l m b r f)
