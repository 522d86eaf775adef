-- ===== src/Program/Tree/Endless.antt =====
-- A Brainfvck program that does not end, in the loop of `exec` of src/VM.cpp.
use custom_isa_8bit_vm.Base.{
  ◌==◌, ℕ, zero, suc, ◌+◌, ◌≡◌, refl, sym, ap, ◌∙◌, Bool, true, false, Option, none, some, [], ◌∷◌,
  arith,
}
use custom_isa_8bit_vm.Vm.State.{Machine, timeout}
use custom_isa_8bit_vm.Vm.Host.{Host}
use custom_isa_8bit_vm.Vm.Exec.{loop}
use custom_isa_8bit_vm.Brainfvck.LoopReplace.Memory.{here}
use custom_isa_8bit_vm.Program.Tape.{tape}
use custom_isa_8bit_vm.Program.TapeLines.{code_of}
use custom_isa_8bit_vm.Program.Tree.{
  Tree, done, line, show, enter, while, World, world, meaning, size, code, AllBytes,
}
use custom_isa_8bit_vm.Program.Tree.Reached.{
  Region, IsOn, Lies, Lies-front, Lies-drop, Reached, and_then,
}
use custom_isa_8bit_vm.Program.Tree.Lines.{line-Round}
use custom_isa_8bit_vm.Program.Tree.Commands.{show-Round, enter-Round}
use custom_isa_8bit_vm.Program.Tree.Parts.{
  closing, body-Lies, close_ends, close_back, open_body, open_ends,
}
use custom_isa_8bit_vm.Program.Tree.Runs.{by_test, by_body, meaning-by_test, meaning-Runs}
use custom_isa_8bit_vm.Program.Tree.Late.{
  Lasts, late_behind, rest_late, end_late, back_late, body_late,
}

-- The same from the closing label of a loop on.
abbrev LastsBehind : Host → Region → ℕ → ℕ → Tree → Tree → Type 0
LastsBehind host r fuel id body rest =
    (row : ℕ) (m : Machine) (a : ℕ)
    → IsOn r m
    → m.process.pc ≡ r.start + closing a body
    → Lies r a (code a (while id body rest))
    → AllBytes (while id body rest)
    → meaning fuel (while id body rest) (world m) ≡ none
    → loop host fuel row m ≡ timeout

module _ (host : Host) (r : Region) (fuel id : ℕ) (body rest : Tree) (row : ℕ) (m : Machine) (a : ℕ)
    (on : IsOn r m) (h : Lies r a (code a (while id body rest)))
    (b : AllBytes (while id body rest)) where
  again_late :
      (v : World)
      → m.process.pc ≡ r.start + a
      → Reached host r row m (a + 9) (world m)
      → LastsBehind host r fuel id body rest
      → meaning fuel body (world m) ≡ some v
      → meaning fuel (while id body rest) v ≡ none
      → loop host (suc fuel) row m ≡ timeout
  again_late v at p ih d e =
      let q =
        meaning-Runs host r fuel body (row + p.rounds) p.after (a + 9) v p.on p.at
          (body-Lies r id body rest a h) b.0 (ap (meaning fuel body) p.world_is ∙ d) in
      let both = and_then host r row m (a + 9) (closing a body) (world m) v p q in
      late_behind host r fuel row m a (closing a body) v at (omega arith) both (
        ih (row + both.rounds) both.after a both.on both.at h b
          (ap (meaning fuel (while id body rest)) both.world_is ∙ e))

  -- The cases at the opening label, by the value under the pointer and the body.
  opening_late :
      (test : Bool) (inner : Option World)
      → (here (tape m) == 0) ≡ test
      → meaning fuel body (world m) ≡ inner
      → m.process.pc ≡ r.start + a
      → Lasts host r fuel body
      → Lasts host r fuel rest
      → LastsBehind host r fuel id body rest
      → meaning (suc fuel) (while id body rest) (world m) ≡ none
      → loop host (suc fuel) row m ≡ timeout
  unfolding by_test by_body
  opening_late true inner z i at lb lr ls e =
      end_late host r fuel id body rest row m a on h b a at (omega arith)
        (open_ends r id body rest a h host row m on at z) lr
        (sym (meaning-by_test fuel id body rest (world m) true z) ∙ e)
  opening_late false none z i at lb lr ls e =
      body_late host r fuel id body rest row m a on h b at
        (open_body r id body rest a h host row m on at z) lb i
  opening_late false (some v) z i at lb lr ls e =
      let e' = sym (meaning-by_test fuel id body rest (world m) false z) ∙ e in
      again_late v at (open_body r id body rest a h host row m on at z) ls i
        (ap (by_body fuel id body rest) (sym i) ∙ e')

  closing_late :
      (test : Bool)
      → (here (tape m) == 0) ≡ test
      → m.process.pc ≡ r.start + closing a body
      → Lasts host r fuel rest
      → Lasts host r (suc fuel) (while id body rest)
      → meaning (suc fuel) (while id body rest) (world m) ≡ none
      → loop host (suc fuel) row m ≡ timeout
  unfolding by_test
  closing_late true z at lr lw e =
      end_late host r fuel id body rest row m a on h b (closing a body) at (omega arith)
        (close_ends r id body rest a h host row m on at z) lr
        (sym (meaning-by_test fuel id body rest (world m) true z) ∙ e)
  closing_late false z at lr lw e =
      back_late host r (suc fuel) id body rest row m a on h b
        (close_back r id body rest a h host row m on at z) lw e

loop-Lasts :
    (host : Host) (r : Region) (fuel id : ℕ) (body rest : Tree)
    → Lasts host r fuel body
    → Lasts host r fuel rest
    → LastsBehind host r fuel id body rest
    → Lasts host r (suc fuel) (while id body rest)
loop-Lasts host r fuel id body rest lb lr ls row m a on at h b e =
    opening_late host r fuel id body rest row m a on h b (here (tape m) == 0)
      (meaning fuel body (world m)) refl refl at lb lr ls e

mutual
  unfolding meaning code size loop

  pub meaning-Lasts : (host : Host) (r : Region) (fuel : ℕ) (t : Tree) → Lasts host r fuel t
  meaning-Lasts host r zero t row m a on at h b e = refl
  meaning-Lasts host r (suc f) done row m a on at h b e = cc
  meaning-Lasts host r (suc f) (line l rest) row m a on at h b e =
      rest_late host r f 5 rest row m a _ (meaning-Lasts host r f rest)
        (line-Round host r row l m a on at b.0 (Lies-front r a (code_of l) _ h))
        (Lies-drop r a (a + 5) (code_of l) _ refl h) b.1 e
  meaning-Lasts host r (suc f) (show rest) row m a on at h b e =
      rest_late host r f 3 rest row m a _ (meaning-Lasts host r f rest)
        (show-Round host r row m a on at (Lies-front r a (0x01 ∷ 3 ∷ 1 ∷ []) _ h))
        (Lies-drop r a (a + 3) (0x01 ∷ 3 ∷ 1 ∷ []) _ refl h) b e
  meaning-Lasts host r (suc f) (enter rest) row m a on at h b e =
      rest_late host r f 3 rest row m a _ (meaning-Lasts host r f rest)
        (enter-Round host r row m a on at (Lies-front r a (0x21 ∷ 3 ∷ 1 ∷ []) _ h))
        (Lies-drop r a (a + 3) (0x21 ∷ 3 ∷ 1 ∷ []) _ refl h) b e
  meaning-Lasts host r (suc f) (while id body rest) row m a on at h b e =
      loop-Lasts host r f id body rest (meaning-Lasts host r f body) (meaning-Lasts host r f rest)
        (meaning-LastsBehind host r f id body rest) row m a on at h b e

  meaning-LastsBehind :
      (host : Host) (r : Region) (fuel id : ℕ) (body rest : Tree)
      → LastsBehind host r fuel id body rest
  meaning-LastsBehind host r zero id body rest row m a on at h b e = refl
  meaning-LastsBehind host r (suc f) id body rest row m a on at h b e =
      closing_late host r f id body rest row m a on h b (here (tape m) == 0) refl at
        (meaning-Lasts host r f rest)
        (loop-Lasts host r f id body rest (meaning-Lasts host r f body)
          (meaning-Lasts host r f rest) (meaning-LastsBehind host r f id body rest))
        e
