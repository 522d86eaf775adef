-- ===== src/Program/Tree/Loops.antt =====
-- The lines around a loop in the loop of `exec` of src/VM.cpp: both labels test the cell.
use custom_isa_8bit_vm.Base.{
  ◌==◌, length, length-append, ℕ, ◌+◌, ◌≤◌, ◌≡◌, refl, ap, ◌∙◌, not, ◌++◌, arith,
}
use mathlib.Core.Path.{subst}
use custom_isa_8bit_vm.Config.{ram_size}
use custom_isa_8bit_vm.Vm.State.{Machine}
use custom_isa_8bit_vm.Vm.Host.{Host}
use custom_isa_8bit_vm.Brainfvck.LoopReplace.Memory.{here}
use custom_isa_8bit_vm.Program.Tape.{tape}
use custom_isa_8bit_vm.Program.Tree.{
  Tree, done, line, show, enter, while, World, world, size, code, compare_code, jump_code,
}
use custom_isa_8bit_vm.Program.Tree.Reached.{
  Region, IsOn, Lies, Lies-front, Lies-drop, Reached, stay, Round-then,
}
use custom_isa_8bit_vm.Program.Tree.Jumps.{landed, compare-Round, je-Round, jne-Round}

pub length-code : (t : Tree) (a : ℕ) → length (code a t) ≡ size t
unfolding code size
length-code done a = refl
length-code (line l rest) a = omega (arith, length-code rest (a + 5))
length-code (show rest) a = omega (arith, length-code rest (a + 3))
length-code (enter rest) a = omega (arith, length-code rest (a + 3))
length-code (while id body rest) a =
    let behind = code (a + 9 + size body + 9) rest in
    omega (
      arith,
      length-append (code (a + 9) body) ((compare_code ++ jump_code 0x51 a) ++ behind),
      length-code body (a + 9),
      length-code rest (a + 9 + size body + 9),
    )

module _ (host : Host) (r : Region) where
  -- The same place and the same tape by other names.
  pub renamed :
      (row : ℕ) (m : Machine) (a b : ℕ) (v w : World)
      → a ≡ b
      → v ≡ w
      → Reached host r row m a v
      → Reached host r row m b w
  renamed row m a b v w p q h =
      subst (λ x. Reached host r row m x w) p (subst (λ x. Reached host r row m a x) q h)

  module _ (row : ℕ) (m : Machine) (a target : ℕ) (on : IsOn r m) (at : m.process.pc ≡ r.start + a)
      (in_ram : r.start + target ≤ ram_size) where
    pub test_je :
        Lies r a (compare_code ++ jump_code 0x41 target)
        → Reached host r row m (landed (here (tape m) == 0) target (a + 9)) (world m)
    test_je h =
        let (p, flag) = compare-Round host r row m a on at (Lies-front r a compare_code _ h) in
        let jump =
          je-Round host r (row + 1) p.after (a + 5) p.on p.at target in_ram
            (Lies-drop r a (a + 5) compare_code (jump_code 0x41 target) (omega arith) h) in
        let sum : a + 5 + 4 ≡ a + 9 = omega arith in
        let there =
          ap (λ z. landed z target (a + 5 + 4)) flag
          ∙ ap (landed (here (tape m) == 0) target) sum in
        Round-then host r row m (a + 5) _ (world m) (world m) p (
          Round-then host r (row + 1) p.after _ _ (world p.after) (world m) jump (
            renamed (row + 1 + 1) jump.after _ _ (world jump.after) (world m) there
              (jump.world_is ∙ p.world_is)
              (stay host r (row + 1 + 1) jump.after _ jump.on jump.at)))

    pub test_jne :
        Lies r a (compare_code ++ jump_code 0x51 target)
        → Reached host r row m (landed (not (here (tape m) == 0)) target (a + 9)) (world m)
    test_jne h =
        let (p, flag) = compare-Round host r row m a on at (Lies-front r a compare_code _ h) in
        let jump =
          jne-Round host r (row + 1) p.after (a + 5) p.on p.at target in_ram
            (Lies-drop r a (a + 5) compare_code (jump_code 0x51 target) (omega arith) h) in
        let sum : a + 5 + 4 ≡ a + 9 = omega arith in
        let there =
          ap (λ z. landed (not z) target (a + 5 + 4)) flag
          ∙ ap (landed (not (here (tape m) == 0)) target) sum in
        Round-then host r row m (a + 5) _ (world m) (world m) p (
          Round-then host r (row + 1) p.after _ _ (world p.after) (world m) jump (
            renamed (row + 1 + 1) jump.after _ _ (world jump.after) (world m) there
              (jump.world_is ∙ p.world_is)
              (stay host r (row + 1 + 1) jump.after _ jump.on jump.at)))
