-- ===== src/Program/Tree/Late.antt =====
-- Lack of fuel, behind some rounds of the loop of `exec` of src/VM.cpp.
use custom_isa_8bit_vm.Base.{ℕ, zero, suc, ◌+◌, ◌≤◌, ◌≡◌, refl, sym, ap, ◌∙◌, none, arith}
use mathlib.Core.Path.{subst}
use custom_isa_8bit_vm.Vm.State.{Machine, Outcome, returned, thrown, undefined, timeout}
use custom_isa_8bit_vm.Vm.Effects.{bind_lem}
use custom_isa_8bit_vm.Vm.Host.{Host}
use custom_isa_8bit_vm.Vm.Exec.{step, loop}
use custom_isa_8bit_vm.Vm.Exec.Halts.{loop-continues}
use custom_isa_8bit_vm.Vm.Exec.Fuel.{Ended, loop-more_fuel}
use custom_isa_8bit_vm.Program.Tree.{Tree, while, World, world, meaning, code, AllBytes}
use custom_isa_8bit_vm.Program.Tree.Reached.{Region, IsOn, Lies, Reached, Round}
use custom_isa_8bit_vm.Program.Tree.Parts.{closing, body-Lies, behind-Lies}

-- A run that lacks fuel lacks it with less.
pub less_fuel :
    (host : Host) (fuel extra row : ℕ) (m : Machine)
    → loop host (fuel + extra) row m ≡ timeout
    → loop host fuel row m ≡ timeout
less_fuel host fuel extra row m late = go (loop host fuel row m) refl
  where
    ended : Ended (loop host fuel row m) → loop host fuel row m ≡ timeout
    ended e = sym (loop-more_fuel host fuel extra row m e) ∙ late

    go : (o : Outcome (Unit {0})) → loop host fuel row m ≡ o → loop host fuel row m ≡ timeout
    go (returned a m') e = ended (subst Ended (sym e) tt)
    go (thrown x m') e = ended (subst Ended (sym e) tt)
    go undefined e = ended (subst Ended (sym e) tt)
    go timeout e = e

-- What lacks fuel lacks it in the loop, from the front of the code.
abbrev pub Lasts : Host → Region → ℕ → Tree → Type 0
Lasts host r fuel t =
    (row : ℕ) (m : Machine) (a : ℕ)
    → IsOn r m
    → m.process.pc ≡ r.start + a
    → Lies r a (code a t)
    → AllBytes t
    → meaning fuel t (world m) ≡ none
    → loop host fuel row m ≡ timeout

module _ (host : Host) (r : Region) where
  pub Round-late :
      (fuel row : ℕ) (m : Machine) (a : ℕ) (w : World) (p : Round host r row m a w)
      → loop host fuel (row + 1) p.after ≡ timeout
      → loop host (suc fuel) row m ≡ timeout
  Round-late fuel row m a w p late =
      loop-continues host fuel row m p.goes ∙ bind_lem (step host row) _ m p.steps ∙ late

  late_with :
      (fuel row : ℕ) (m : Machine) (a : ℕ) (w : World) (p : Reached host r row m a w)
      → loop host fuel (row + p.rounds) p.after ≡ timeout
      → loop host fuel row m ≡ timeout
  late_with fuel row m a w p late =
      let sum : fuel + p.rounds ≡ p.rounds + fuel = omega arith in
      less_fuel host fuel p.rounds row m (ap (λ n. loop host n row m) sum ∙ p.goes_on fuel ∙ late)

  -- At another address the loop has done a round or more.
  pub late_behind :
      (fuel row : ℕ) (m : Machine) (a b : ℕ) (w : World)
      → m.process.pc ≡ r.start + a
      → suc a ≤ b
      → (p : Reached host r row m b w) → loop host fuel (row + p.rounds) p.after ≡ timeout
      → loop host (suc fuel) row m ≡ timeout
  late_behind fuel row m a b w at l p late = go p.rounds refl
    where
      go : (n : ℕ) → p.rounds ≡ n → loop host (suc fuel) row m ≡ timeout
      go zero e =
          let same = ap (λ (x : Machine). x.process.pc) (p.stands e) in
          absurd (omega (arith, same, p.at, at, l))
      go (suc n) e =
          let sum : suc fuel + n ≡ p.rounds + fuel = omega (arith, e) in
          less_fuel host (suc fuel) n row m
            (ap (λ q. loop host q row m) sum ∙ p.goes_on fuel ∙ late)

  pub rest_late :
      (fuel n : ℕ) (rest : Tree) (row : ℕ) (m : Machine) (a : ℕ) (v : World)
      → Lasts host r fuel rest
      → (p : Round host r row m (a + n) v) → Lies r (a + n) (code (a + n) rest)
      → AllBytes rest
      → meaning fuel rest v ≡ none
      → loop host (suc fuel) row m ≡ timeout
  rest_late fuel n rest row m a v ih p h b e =
      Round-late fuel row m (a + n) v p
        (ih (row + 1) p.after (a + n) p.on p.at h b (ap (meaning fuel rest) p.world_is ∙ e))

  module _ (fuel id : ℕ) (body rest : Tree) (row : ℕ) (m : Machine) (a : ℕ) (on : IsOn r m)
      (h : Lies r a (code a (while id body rest))) (b : AllBytes (while id body rest)) where
    -- From an address in front of the loop's end, when it ends.
    pub end_late :
        (c : ℕ)
        → m.process.pc ≡ r.start + c
        → c ≤ closing a body
        → Reached host r row m (closing a body + 9) (world m)
        → Lasts host r fuel rest
        → meaning fuel rest (world m) ≡ none
        → loop host (suc fuel) row m ≡ timeout
    end_late c at l p ih e =
        late_behind fuel row m c (closing a body + 9) (world m) at (omega (arith, l)) p (
          ih (row + p.rounds) p.after (closing a body + 9) p.on p.at
            (behind-Lies r id body rest a h) b.1 (ap (meaning fuel rest) p.world_is ∙ e))

    pub back_late :
        Reached host r row m a (world m)
        → Lasts host r fuel (while id body rest)
        → meaning fuel (while id body rest) (world m) ≡ none
        → loop host fuel row m ≡ timeout
    back_late p ih e = late_with fuel row m a (world m) p (
        ih (row + p.rounds) p.after a p.on p.at h b
          (ap (meaning fuel (while id body rest)) p.world_is ∙ e))

    pub body_late :
        m.process.pc ≡ r.start + a
        → Reached host r row m (a + 9) (world m)
        → Lasts host r fuel body
        → meaning fuel body (world m) ≡ none
        → loop host (suc fuel) row m ≡ timeout
    body_late at p ih e = late_behind fuel row m a (a + 9) (world m) at (omega arith) p (
        ih (row + p.rounds) p.after (a + 9) p.on p.at (body-Lies r id body rest a h) b.0
          (ap (meaning fuel body) p.world_is ∙ e))
