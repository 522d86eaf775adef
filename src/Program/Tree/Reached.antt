-- ===== src/Program/Tree/Reached.antt =====
-- Several rounds of the loop of `exec` of src/VM.cpp, on a machine whose bytes behind the tape stay.
use custom_isa_8bit_vm.Base.{
  ◌==◌, Bool, ℤ, List, lt→ltb, length, length-append, Bytes, ℕ, suc, ◌+◌, ◌≤◌, ◌<◌, ◌≡◌, refl, ap,
  ◌∙◌, sym, true, false, [], ◌∷◌, ◌++◌, arith,
}
use mathlib.Core.Path.{subst}
use custom_isa_8bit_vm.Config.{ram_size}
use custom_isa_8bit_vm.Vm.State.{Machine, Output, returned, gui_cell}
use custom_isa_8bit_vm.Vm.Effects.{bind_lem}
use custom_isa_8bit_vm.Vm.Operand.Fetch.{Holds}
use custom_isa_8bit_vm.Vm.Host.{Host}
use custom_isa_8bit_vm.Vm.Exec.{step, loop, continues}
use custom_isa_8bit_vm.Vm.Exec.Halts.{loop-continues}
use custom_isa_8bit_vm.Program.Ready.{Holds-front, Holds-drop}
use custom_isa_8bit_vm.Program.Tree.{World, world}

-- A region in the RAM with room for the 256 cells of the tape, the end of its code, and the bytes
-- behind the tape, without a window.
pub record Region : Type 0 where
  pub start : ℕ
  pub limit : ℕ
  pub image : ℕ → ℕ
  pub in_ram : start + 256 ≤ gui_cell
  pub headless : (image gui_cell == 1) ≡ false

-- A running machine of bytes on the region.
pub record IsOn (r : Region) (m : Machine) : Type 0 where
  pub running : m.process.running ≡ true
  pub first : m.process.first_sector ≡ r.start
  pub last : m.process.last_code_sector ≡ r.limit
  pub same : (a : ℕ) → r.start + 256 ≤ a → m.ram a ≡ r.image a
  pub register_bytes : (i : ℕ) → m.registers i < 256
  pub ram_bytes : (a : ℕ) → m.ram a < 256

-- Neither the program counter nor the flags, the input and the output matter.
pub kept-IsOn :
    (r : Region) (m : Machine) (pc : ℕ) (xs : List ℤ) (out : List Output) (z s : Bool)
    → IsOn r m
    → IsOn r (record m {
      process = record m.process { pc = pc };
      input = xs;
      output = out;
      zero = z;
      sign = s;
    })
kept-IsOn r m pc xs out z s on = record {
  running = on.running;
  first = on.first;
  last = on.last;
  same = on.same;
  register_bytes = on.register_bytes;
  ram_bytes = on.ram_bytes;
}

-- The bytes stand at an address of the region, behind the tape and within its code and the RAM.
pub record Lies (r : Region) (a : ℕ) (code : Bytes) : Type 0 where
  pub holds : Holds r.image (r.start + a) code
  pub behind : 256 ≤ a
  pub in_code : r.start + a + length code ≤ r.limit
  pub in_ram : r.start + a + length code ≤ ram_size

pub Lies-front : (r : Region) (a : ℕ) (xs ys : Bytes) → Lies r a (xs ++ ys) → Lies r a xs
Lies-front r a xs ys h =
    let sum = length-append xs ys in
    record {
      holds = Holds-front r.image (r.start + a) xs ys h.holds;
      behind = h.behind;
      in_code = omega (arith, h.in_code, sum);
      in_ram = omega (arith, h.in_ram, sum);
    }

pub Lies-drop :
    (r : Region) (a b : ℕ) (xs ys : Bytes) → a + length xs ≡ b → Lies r a (xs ++ ys) → Lies r b ys
Lies-drop r a b xs ys e h =
    let sum = length-append xs ys in
    let place : r.start + a + length xs ≡ r.start + b = omega (arith, e) in
    record {
      holds =
          subst (λ q. Holds r.image q ys) place (Holds-drop r.image (r.start + a) xs ys h.holds);
      behind = omega (arith, h.behind, e);
      in_code = omega (arith, h.in_code, sum, e);
      in_ram = omega (arith, h.in_ram, sum, e);
    }

Holds-same :
    (f g : ℕ → ℕ) (low a : ℕ) (code : Bytes)
    → ((b : ℕ) → low ≤ b → f b ≡ g b)
    → low ≤ a
    → Holds g a code
    → Holds f a code
Holds-same f g low a [] e l h = tt
Holds-same f g low a (c ∷ code) e l h =
    (e a l ∙ h.0, Holds-same f g low (a + 1) code e (omega (arith, l)) h.1)

pub Lies-Holds :
    (r : Region) (a : ℕ) (code : Bytes) (m : Machine)
    → IsOn r m
    → m.process.pc ≡ r.start + a
    → Lies r a code
    → Holds m.ram m.process.pc code
Lies-Holds r a code m on at h =
    subst (λ q. Holds m.ram q code) (sym at)
      (Holds-same m.ram r.image (r.start + 256) (r.start + a) code on.same (omega (arith, h.behind))
        h.holds)

pub Lies-continues :
    (r : Region) (a : ℕ) (code : Bytes) (m : Machine)
    → IsOn r m
    → m.process.pc ≡ r.start + a
    → 0 < length code
    → Lies r a code
    → continues m.process ≡ true
Lies-continues r a code m on at p h =
    rw
      (
        on.running,
        lt→ltb m.process.pc m.process.last_code_sector (omega (arith, h.in_code, on.last, at, p)),
      )
      refl

-- A round of the loop comes to an address of the region, with the tape, the input and the output as
-- said.
pub record Round (host : Host) (r : Region) (row : ℕ) (m : Machine) (a : ℕ) (w : World)
    : Type 0 where
  pub after : Machine
  pub goes : continues m.process ≡ true
  pub steps : step host row m ≡ returned tt after
  pub on : IsOn r after
  pub at : after.process.pc ≡ r.start + a
  pub world_is : world after ≡ w

-- The loop comes to an address of the region, after some rounds.
pub record Reached (host : Host) (r : Region) (row : ℕ) (m : Machine) (a : ℕ) (w : World)
    : Type 0 where
  pub rounds : ℕ
  pub after : Machine
  pub goes_on : (k : ℕ) → loop host (rounds + k) row m ≡ loop host k (row + rounds) after
  pub stands : rounds ≡ 0 → after ≡ m
  pub on : IsOn r after
  pub at : after.process.pc ≡ r.start + a
  pub world_is : world after ≡ w

module _ (host : Host) (r : Region) where
  pub stay :
      (row : ℕ) (m : Machine) (a : ℕ)
      → IsOn r m
      → m.process.pc ≡ r.start + a
      → Reached host r row m a (world m)
  stay row m a on at = record {
    rounds = 0;
    after = m;
    goes_on = λ k.
        let none_more : 0 + k ≡ k = omega arith in
        let same_row : row ≡ row + 0 = omega arith in
        ap (λ n. loop host n row m) none_more ∙ ap (λ n. loop host k n m) same_row;
    stands = λ z. refl;
    on = on;
    at = at;
    world_is = refl;
  }

  -- One round, and then more.
  pub Round-then :
      (row : ℕ) (m : Machine) (a b : ℕ) (v w : World) (p : Round host r row m a v)
      → Reached host r (row + 1) p.after b w
      → Reached host r row m b w
  Round-then row m a b v w p n = record {
    rounds = suc n.rounds;
    after = n.after;
    goes_on = λ k.
        let count : suc n.rounds + k ≡ suc (n.rounds + k) = omega arith in
        let rows : row + 1 + n.rounds ≡ row + suc n.rounds = omega arith in
        ap (λ q. loop host q row m) count
        ∙ loop-continues host (n.rounds + k) row m p.goes
        ∙ bind_lem (step host row) _ m p.steps
        ∙ n.goes_on k
        ∙ ap (λ q. loop host k q n.after) rows;
    stands = λ z. absurd (omega (arith, z));
    on = n.on;
    at = n.at;
    world_is = n.world_is;
  }

  -- What is reached from where one has come to.
  pub and_then :
      (row : ℕ) (m : Machine) (a b : ℕ) (w w' : World) (p : Reached host r row m a w)
      → Reached host r (row + p.rounds) p.after b w'
      → Reached host r row m b w'
  and_then row m a b w w' p q = record {
    rounds = p.rounds + q.rounds;
    after = q.after;
    goes_on = λ k.
        let count : p.rounds + q.rounds + k ≡ p.rounds + (q.rounds + k) = omega arith in
        let rows : row + p.rounds + q.rounds ≡ row + (p.rounds + q.rounds) = omega arith in
        ap (λ n. loop host n row m) count
        ∙ p.goes_on (q.rounds + k)
        ∙ q.goes_on k
        ∙ ap (λ n. loop host k n q.after) rows;
    stands = λ z. q.stands (omega (arith, z)) ∙ p.stands (omega (arith, z));
    on = q.on;
    at = q.at;
    world_is = q.world_is;
  }
