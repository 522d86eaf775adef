-- ===== src/Program/Tree/Runs.antt =====
-- A Brainfvck program as a whole in the loop of `exec` of src/VM.cpp.
use custom_isa_8bit_vm.Base.{
  ◌==◌, ℕ, zero, suc, ◌+◌, ◌≡◌, refl, sym, ap, ◌∙◌, Bool, true, false, Option, none, some, [], ◌∷◌,
  arith,
}
use custom_isa_8bit_vm.Vm.State.{Machine}
use custom_isa_8bit_vm.Vm.Host.{Host}
use custom_isa_8bit_vm.Brainfvck.LoopReplace.Memory.{here}
use custom_isa_8bit_vm.Program.Tape.{tape}
use custom_isa_8bit_vm.Program.TapeLines.{code_of}
use custom_isa_8bit_vm.Program.Tree.{
  Tree, done, line, show, enter, while, World, world, meaning, size, code, AllBytes,
}
use custom_isa_8bit_vm.Program.Tree.Reached.{
  Region, IsOn, Lies, Lies-front, Lies-drop, Reached, Round, stay, Round-then, and_then,
}
use custom_isa_8bit_vm.Program.Tree.Lines.{line-Round}
use custom_isa_8bit_vm.Program.Tree.Commands.{show-Round, enter-Round}
use custom_isa_8bit_vm.Program.Tree.Loops.{renamed}
use custom_isa_8bit_vm.Program.Tree.Parts.{
  closing, body-Lies, behind-Lies, close_ends, open_body, open_ends, close_body,
}

some-injective {ℓ} : {A : Type ℓ} {a b : A} → some a ≡ some b → a ≡ b
some-injective e = cc

-- The meaning of a loop, by the value under the pointer and by what its body comes to.
unfoldable pub by_body : ℕ → ℕ → Tree → Tree → Option World → Option World
unfolding meaning
by_body fuel id body rest none = none
by_body fuel id body rest (some v) = meaning fuel (while id body rest) v

unfoldable pub by_test : ℕ → ℕ → Tree → Tree → World → Bool → Option World
unfolding by_body
by_test fuel id body rest w true = meaning fuel rest w
by_test fuel id body rest w false = by_body fuel id body rest (meaning fuel body w)

pub meaning-by_test :
    (fuel id : ℕ) (body rest : Tree) (w : World) (test : Bool)
    → (here w.memory == 0) ≡ test
    → meaning (suc fuel) (while id body rest) w ≡ by_test fuel id body rest w test
unfolding by_test meaning
meaning-by_test fuel id body rest w true z = rw (z, meaning) refl
meaning-by_test fuel id body rest w false z = rw (z, meaning) (go (meaning fuel body w))
  where
    go :
        (o : Option World)
        → elim o [ none ↦ none | some v ↦ meaning fuel (while id body rest) v ]
          ≡ by_body fuel id body rest o
    go none = refl
    go (some v) = refl

-- What fuel is enough for is done by the machine, from the front of the code, or from the closing
-- label of a loop on.
abbrev pub Runs : Host → Region → ℕ → Tree → Type 0
Runs host r fuel t =
    (row : ℕ) (m : Machine) (a : ℕ) (w : World)
    → IsOn r m
    → m.process.pc ≡ r.start + a
    → Lies r a (code a t)
    → AllBytes t
    → meaning fuel t (world m) ≡ some w
    → Reached host r row m (a + size t) w

abbrev Closes : Host → Region → ℕ → ℕ → Tree → Tree → Type 0
Closes host r fuel id body rest =
    (row : ℕ) (m : Machine) (a : ℕ) (w : World)
    → IsOn r m
    → m.process.pc ≡ r.start + closing a body
    → Lies r a (code a (while id body rest))
    → AllBytes (while id body rest)
    → meaning fuel (while id body rest) (world m) ≡ some w
    → Reached host r row m (a + size (while id body rest)) w

module _ (host : Host) (r : Region) where
  -- A round, and the rest of the program behind it.
  rest-Runs :
      (fuel n : ℕ) (rest : Tree) (row : ℕ) (m : Machine) (a : ℕ) (v w : World)
      → Runs host r fuel rest
      → (p : Round host r row m (a + n) v) → Lies r (a + n) (code (a + n) rest)
      → AllBytes rest
      → meaning fuel rest v ≡ some w
      → Reached host r row m (a + (n + size rest)) w
  rest-Runs fuel n rest row m a v w ih p h b e =
      let sum : a + n + size rest ≡ a + (n + size rest) = omega arith in
      Round-then host r row m (a + n) _ v w p (
        renamed host r (row + 1) p.after _ _ w w sum refl
          (ih (row + 1) p.after (a + n) w p.on p.at h b (ap (meaning fuel rest) p.world_is ∙ e)))

  module _ (fuel id : ℕ) (body rest : Tree) (row : ℕ) (m : Machine) (a : ℕ) (w : World)
      (h : Lies r a (code a (while id body rest))) (b : AllBytes (while id body rest)) where
    loop_ends :
        Runs host r fuel rest
        → Reached host r row m (closing a body + 9) (world m)
        → meaning fuel rest (world m) ≡ some w
        → Reached host r row m (a + size (while id body rest)) w
    unfolding size
    loop_ends ih p e =
        let sum : closing a body + 9 + size rest ≡ a + size (while id body rest) = omega arith in
        and_then host r row m (closing a body + 9) _ (world m) w p (
          renamed host r (row + p.rounds) p.after _ _ w w sum refl (
            ih (row + p.rounds) p.after (closing a body + 9) w p.on p.at
              (behind-Lies r id body rest a h) b.1 (ap (meaning fuel rest) p.world_is ∙ e)))

    loop_goes_on :
        (v : World)
        → Runs host r fuel body
        → Closes host r fuel id body rest
        → Reached host r row m (a + 9) (world m)
        → meaning fuel body (world m) ≡ some v
        → meaning fuel (while id body rest) v ≡ some w
        → Reached host r row m (a + size (while id body rest)) w
    loop_goes_on v ih closes p d e =
        let q =
          ih (row + p.rounds) p.after (a + 9) v p.on p.at (body-Lies r id body rest a h) b.0
            (ap (meaning fuel body) p.world_is ∙ d) in
        let both = and_then host r row m (a + 9) (closing a body) (world m) v p q in
        and_then host r row m (closing a body) _ v w both (
          closes (row + both.rounds) both.after a w both.on both.at h b
            (ap (meaning fuel (while id body rest)) both.world_is ∙ e))

    -- The two cases of a loop, by the value under the pointer and the body.
    loop_cases :
        (test : Bool) (inner : Option World)
        → (here (tape m) == 0) ≡ test
        → meaning fuel body (world m) ≡ inner
        → Runs host r fuel body
        → Runs host r fuel rest
        → Closes host r fuel id body rest
        → ((here (tape m) == 0) ≡ true → Reached host r row m (closing a body + 9) (world m))
        → ((here (tape m) == 0) ≡ false → Reached host r row m (a + 9) (world m))
        → meaning (suc fuel) (while id body rest) (world m) ≡ some w
        → Reached host r row m (a + size (while id body rest)) w
    unfolding by_test
    loop_cases true inner z i rb rr cs to_end to_body e =
        loop_ends rr (to_end z) (sym (meaning-by_test fuel id body rest (world m) true z) ∙ e)
    loop_cases false none z i rb rr cs to_end to_body e =
        let e' = sym (meaning-by_test fuel id body rest (world m) false z) ∙ e in
        let nothing = ap (by_body fuel id body rest) (sym i) ∙ e' in cc
    loop_cases false (some v) z i rb rr cs to_end to_body e =
        let e' = sym (meaning-by_test fuel id body rest (world m) false z) ∙ e in
        loop_goes_on v rb cs (to_body z) i (ap (by_body fuel id body rest) (sym i) ∙ e')

mutual
  unfolding meaning code size

  pub meaning-Runs : (host : Host) (r : Region) (fuel : ℕ) (t : Tree) → Runs host r fuel t
  meaning-Runs host r zero t row m a w on at h b e = cc
  meaning-Runs host r (suc f) done row m a w on at h b e =
      renamed host r row m _ _ (world m) w (omega arith) (some-injective e)
        (stay host r row m a on at)
  meaning-Runs host r (suc f) (line l rest) row m a w on at h b e =
      rest-Runs host r f 5 rest row m a _ w (meaning-Runs host r f rest)
        (line-Round host r row l m a on at b.0 (Lies-front r a (code_of l) _ h))
        (Lies-drop r a (a + 5) (code_of l) _ refl h) b.1 e
  meaning-Runs host r (suc f) (show rest) row m a w on at h b e =
      rest-Runs host r f 3 rest row m a _ w (meaning-Runs host r f rest)
        (show-Round host r row m a on at (Lies-front r a (0x01 ∷ 3 ∷ 1 ∷ []) _ h))
        (Lies-drop r a (a + 3) (0x01 ∷ 3 ∷ 1 ∷ []) _ refl h) b e
  meaning-Runs host r (suc f) (enter rest) row m a w on at h b e =
      rest-Runs host r f 3 rest row m a _ w (meaning-Runs host r f rest)
        (enter-Round host r row m a on at (Lies-front r a (0x21 ∷ 3 ∷ 1 ∷ []) _ h))
        (Lies-drop r a (a + 3) (0x21 ∷ 3 ∷ 1 ∷ []) _ refl h) b e
  meaning-Runs host r (suc f) (while id body rest) row m a w on at h b e =
      loop_cases host r f id body rest row m a w h b (here (tape m) == 0) (meaning f body (world m))
        refl refl (meaning-Runs host r f body) (meaning-Runs host r f rest)
        (meaning-Closes host r f id body rest) (open_ends r id body rest a h host row m on at)
        (open_body r id body rest a h host row m on at) e

  meaning-Closes :
      (host : Host) (r : Region) (fuel id : ℕ) (body rest : Tree) → Closes host r fuel id body rest
  meaning-Closes host r zero id body rest row m a w on at h b e = cc
  meaning-Closes host r (suc f) id body rest row m a w on at h b e =
      loop_cases host r f id body rest row m a w h b (here (tape m) == 0) (meaning f body (world m))
        refl refl (meaning-Runs host r f body) (meaning-Runs host r f rest)
        (meaning-Closes host r f id body rest) (close_ends r id body rest a h host row m on at)
        (close_body r id body rest a h host row m on at) e
