-- ===== src/Program/Tree/Parts.antt =====
-- The parts of the code of a loop, and the ways through its labels.
use custom_isa_8bit_vm.Base.{
  ◌==◌, Bytes, ℕ, ◌+◌, ◌≡◌, refl, ap, ◌∙◌, not, Bool, true, false, ◌++◌, arith,
}
use custom_isa_8bit_vm.Vm.State.{Machine}
use custom_isa_8bit_vm.Vm.Host.{Host}
use custom_isa_8bit_vm.Brainfvck.LoopReplace.Memory.{here}
use custom_isa_8bit_vm.Program.Tape.{tape}
use custom_isa_8bit_vm.Program.Tree.{Tree, while, World, world, size, code, compare_code, jump_code}
use custom_isa_8bit_vm.Program.Tree.Reached.{
  Region, IsOn, Lies, Lies-front, Lies-drop, Reached, and_then,
}
use custom_isa_8bit_vm.Program.Tree.Jumps.{landed}
use custom_isa_8bit_vm.Program.Tree.Loops.{length-code, renamed, test_je, test_jne}

-- The address of the closing label of a loop at an address, and the one behind the loop.
abbrev pub closing : ℕ → Tree → ℕ
closing a body = a + 9 + size body

module _ (r : Region) (id : ℕ) (body rest : Tree) (a : ℕ)
    (h : Lies r a (code a (while id body rest))) where
  opening_code : Bytes
  opening_code = compare_code ++ jump_code 0x41 (closing a body)

  closing_code : Bytes
  closing_code = compare_code ++ jump_code 0x51 a

  behind_code : Bytes
  behind_code = code (closing a body + 9) rest

  opening-Lies : Lies r a opening_code
  unfolding code opening_code closing_code behind_code
  opening-Lies = Lies-front r a _ (code (a + 9) body ++ (closing_code ++ behind_code)) h

  after_opening : Lies r (a + 9) (code (a + 9) body ++ (closing_code ++ behind_code))
  unfolding code opening_code closing_code behind_code
  after_opening = Lies-drop r a (a + 9) opening_code _ refl h

  pub body-Lies : Lies r (a + 9) (code (a + 9) body)
  body-Lies = Lies-front r (a + 9) _ (closing_code ++ behind_code) after_opening

  at_closing : Lies r (closing a body) (closing_code ++ behind_code)
  at_closing =
      Lies-drop r (a + 9) (closing a body) (code (a + 9) body) _
        (omega (arith, length-code body (a + 9))) after_opening

  closing-Lies : Lies r (closing a body) closing_code
  closing-Lies = Lies-front r (closing a body) _ behind_code at_closing

  pub behind-Lies : Lies r (closing a body + 9) (code (closing a body + 9) rest)
  unfolding closing_code behind_code
  behind-Lies =
      Lies-drop r (closing a body) (closing a body + 9) closing_code behind_code refl at_closing

  module _ (host : Host) (row : ℕ) (m : Machine) (on : IsOn r m) where
    close_test :
        (b : Bool)
        → m.process.pc ≡ r.start + closing a body
        → (here (tape m) == 0) ≡ b
        → Reached host r row m (landed (not b) a (closing a body + 9)) (world m)
    unfolding closing_code
    close_test b at z =
        renamed host r row m _ _ (world m) (world m)
          (ap (λ b. landed (not b) a (closing a body + 9)) z) refl
          (test_jne host r row m (closing a body) a on at (omega (arith, h.in_ram)) closing-Lies)

    open_test :
        (b : Bool)
        → m.process.pc ≡ r.start + a
        → (here (tape m) == 0) ≡ b
        → Reached host r row m (landed b (closing a body) (a + 9)) (world m)
    unfolding opening_code
    open_test b at z =
        renamed host r row m _ _ (world m) (world m) (ap (λ b. landed b (closing a body) (a + 9)) z)
          refl
          (test_je host r row m a (closing a body) on at (omega (arith, closing-Lies.in_ram))
            opening-Lies)

  module _ (host : Host) (row : ℕ) (m : Machine) (on : IsOn r m) where
    pub close_ends :
        m.process.pc ≡ r.start + closing a body
        → (here (tape m) == 0) ≡ true
        → Reached host r row m (closing a body + 9) (world m)
    close_ends = close_test host row m on true

    pub open_body :
        m.process.pc ≡ r.start + a
        → (here (tape m) == 0) ≡ false
        → Reached host r row m (a + 9) (world m)
    open_body = open_test host row m on false

    -- The loop goes back to its opening label.
    pub close_back :
        m.process.pc ≡ r.start + closing a body
        → (here (tape m) == 0) ≡ false
        → Reached host r row m a (world m)
    close_back = close_test host row m on false

    -- The loop is skipped by way of its closing label.
    pub open_ends :
        m.process.pc ≡ r.start + a
        → (here (tape m) == 0) ≡ true
        → Reached host r row m (closing a body + 9) (world m)
    open_ends at z =
        let p = open_test host row m on true at z in
        let same = ap (λ (w : World). here w.memory == 0) p.world_is in
        and_then host r row m (closing a body) (closing a body + 9) (world m) (world m) p (
          renamed host r (row + p.rounds) p.after _ _ (world p.after) (world m) refl p.world_is
            (close_test host (row + p.rounds) p.after p.on true p.at (same ∙ z)))

    -- The loop goes on by way of its opening label.
    pub close_body :
        m.process.pc ≡ r.start + closing a body
        → (here (tape m) == 0) ≡ false
        → Reached host r row m (a + 9) (world m)
    close_body at z =
        let p = close_test host row m on false at z in
        let same = ap (λ (w : World). here w.memory == 0) p.world_is in
        and_then host r row m a (a + 9) (world m) (world m) p (
          renamed host r (row + p.rounds) p.after _ _ (world p.after) (world m) refl p.world_is
            (open_test host (row + p.rounds) p.after p.on false p.at (same ∙ z)))
