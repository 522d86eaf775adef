-- ===== src/Vm/Exec/Fuel.antt =====
-- The fuel of the loop of `exec` in src/VM.cpp.
use custom_isa_8bit_vm.Base.{Bool-cases, ℕ, zero, suc, ◌+◌, ◌≡◌, refl, sym, ◌∙◌, inl, inr, arith}
use custom_isa_8bit_vm.Vm.State.{Machine, Outcome, returned, thrown, undefined, timeout, M, ◌>>=◌}
use mathlib.Core.Path.{subst}
use custom_isa_8bit_vm.Vm.Host.{Host}
use custom_isa_8bit_vm.Vm.Exec.{step, loop, continues}

-- The outcome is one of the program, not a lack of fuel.
abbrev pub Ended {ℓ} : {A : Type ℓ} → Outcome A → Type 0
Ended (returned a m) = Unit
Ended (thrown e m) = Unit
Ended undefined = Unit
Ended timeout = ⊥

module _ {ℓ κ} {A : Type ℓ} {B : Type κ} where
  after : Outcome A → (A → M B) → Outcome B
  after (returned a m) f = f a m
  after (thrown e m) f = thrown e m
  after undefined f = undefined
  after timeout f = timeout

  bind-after : (x : M A) (f : A → M B) (m : Machine) → (x >>= f) m ≡ after (x m) f
  unfolding after
  bind-after x f m = go (x m) refl
    where
      go : (o : Outcome A) → x m ≡ o → (x >>= f) m ≡ after o f
      go (returned a m') e = rw (e, ◌>>=◌)
      go (thrown a m') e = rw (e, ◌>>=◌)
      go undefined e = rw (e, ◌>>=◌)
      go timeout e = rw (e, ◌>>=◌)

  -- Two continuations that agree where the first one ends.
  after_same :
      (o : Outcome A) (f g : A → M B)
      → ((a : A) (m : Machine) → Ended (f a m) → g a m ≡ f a m)
      → Ended (after o f)
      → after o g ≡ after o f
  unfolding after
  after_same (returned a m) f g h e = h a m e
  after_same (thrown x m) f g h e = refl
  after_same undefined f g h e = refl
  after_same timeout f g h e = refl

  bind_same :
      (x : M A) (f g : A → M B) (m : Machine)
      → ((a : A) (m' : Machine) → Ended (f a m') → g a m' ≡ f a m')
      → Ended ((x >>= f) m)
      → (x >>= g) m ≡ (x >>= f) m
  bind_same x f g m h e =
      bind-after x g m
      ∙ after_same (x m) f g h (subst Ended (bind-after x f m) e)
      ∙ sym (bind-after x f m)

-- A run of the loop that ends with some fuel ends alike with any more.
pub loop-more_fuel :
    (host : Host) (fuel extra row : ℕ) (m : Machine)
    → Ended (loop host fuel row m)
    → loop host (fuel + extra) row m ≡ loop host fuel row m
unfolding loop
loop-more_fuel host zero extra row m e = absurd e
loop-more_fuel host (suc fuel) extra row m e =
    let n : suc fuel + extra ≡ suc (fuel + extra) = omega arith in
    rw n (elim (Bool-cases (continues m.process)) [
      | inl goes ↦ rw goes (
          bind_same (step host row) _ _ m (λ _ m'. loop-more_fuel host fuel extra (row + 1) m')
            (rw goes at e))
      | inr stops ↦ rw stops
    ])
