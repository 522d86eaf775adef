-- ===== src/Program/Tree/Lines.antt =====
-- A line that changes the tape, in a round of the loop of `exec` of src/VM.cpp.
use custom_isa_8bit_vm.Base.{ℕ, ◌+◌, ◌≤◌, ◌<◌, ◌≡◌, refl, ◌∙◌, arith}
use custom_isa_8bit_vm.Vm.State.{Machine, Cell, register_cell, ram_cell}
use custom_isa_8bit_vm.Vm.Operand.Fetch.{advanced}
use custom_isa_8bit_vm.Vm.Host.{Host}
use custom_isa_8bit_vm.Vm.Exec.Places.{cell_of, contents, with_cell, read_source}
use custom_isa_8bit_vm.Program.TapeLines.{TapeLine, place, source, operation, IsByteLine, code_of}
use custom_isa_8bit_vm.Program.Tape.{stepped, step-stepped, stepped-effect_of}
use custom_isa_8bit_vm.Program.Ready.{
  Below, place-Below, with_cell-register_bytes, with_cell-ram_bytes, with_cell-process,
}
use custom_isa_8bit_vm.Program.Block.{SameMemory-path}
use custom_isa_8bit_vm.Program.Tree.{World, world, changed}
use custom_isa_8bit_vm.Program.Tree.Reached.{Region, IsOn, Lies, Lies-Holds, Lies-continues, Round}

with_cell-same :
    (c : Cell) (v low : ℕ) (m : Machine)
    → Below low c
    → (a : ℕ) → low ≤ a
    → (with_cell c v m).ram a ≡ m.ram a
with_cell-same (register_cell i) v low m b a l = refl
with_cell-same (ram_cell x) v low m b a l = ground (arith, b)

-- A write to a register, or on the tape, behind which the program counter has moved on.
pub with_cell-IsOn :
    (r : Region) (c : Cell) (v n : ℕ) (m : Machine)
    → Below (r.start + 256) c
    → IsOn r m
    → IsOn r (with_cell c v (advanced m n))
with_cell-IsOn r c v n m b on =
    let process_is = with_cell-process c v (advanced m n) in
    record {
      running = rw process_is on.running;
      first = rw process_is on.first;
      last = rw process_is on.last;
      same = λ a l. with_cell-same c v (r.start + 256) (advanced m n) b a l ∙ on.same a l;
      register_bytes = with_cell-register_bytes c v (advanced m n) on.register_bytes;
      ram_bytes = with_cell-ram_bytes c v (advanced m n) on.ram_bytes;
    }

pub with_cell-input : (c : Cell) (v : ℕ) (m : Machine) → (with_cell c v m).input ≡ m.input
with_cell-input (register_cell i) v m = refl
with_cell-input (ram_cell x) v m = refl

pub with_cell-output : (c : Cell) (v : ℕ) (m : Machine) → (with_cell c v m).output ≡ m.output
with_cell-output (register_cell i) v m = refl
with_cell-output (ram_cell x) v m = refl

pub world_path :
    {v w : World} → v.memory ≡ w.memory → v.input ≡ w.input → v.output ≡ w.output → v ≡ w
world_path p q o i = record { memory = p i; input = q i; output = o i }

-- The pointer is on the tape.
pub pointer_below :
    (r : Region) (m : Machine) → IsOn r m → m.process.first_sector + m.registers 0 < r.start + 256
pointer_below r m on = omega (arith, on.first, on.register_bytes 0)

module _ (host : Host) (r : Region) (row : ℕ) (l : TapeLine) (m : Machine) (a : ℕ) (on : IsOn r m)
    (at : m.process.pc ≡ r.start + a) (b : IsByteLine l) (h : Lies r a (code_of l)) where
  stepped-IsOn : IsOn r (stepped l m)
  stepped-IsOn =
      with_cell-IsOn r (cell_of (place l) m) _ 5 m
        (place-Below l m (r.start + 256) (pointer_below r m on)) on

  stepped-at : (stepped l m).process.pc ≡ r.start + (a + 5)
  stepped-at = rw (with_cell-process (cell_of (place l) m) _ (advanced m 5)) (omega (arith, at))

  stepped-world : world (stepped l m) ≡ changed l (world m)
  stepped-world =
      let c = cell_of (place l) m in
      let v = operation l (contents c m) (read_source (source l) m) in
      world_path (SameMemory-path (stepped-effect_of l m b on.register_bytes on.ram_bytes))
        (with_cell-input c v (advanced m 5)) (with_cell-output c v (advanced m 5))

  pub line-Round : Round host r row m (a + 5) (changed l (world m))
  line-Round = record {
    after = stepped l m;
    goes = Lies-continues r a (code_of l) m on at (omega arith) h;
    steps =
        step-stepped host row l m b (Lies-Holds r a (code_of l) m on at h)
          (omega (arith, h.in_ram, at)) (omega (arith, pointer_below r m on, r.in_ram));
    on = stepped-IsOn;
    at = stepped-at;
    world_is = stepped-world;
  }
