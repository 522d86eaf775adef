-- ===== src/Brainfvck/LoopReplace/Fuel.antt =====
-- The rounds of the loop of `apply_loop_optimizations` in src/Brainfvck.cpp.
use custom_isa_8bit_vm.Base.{
  Bytes, ℕ, ◌+◌, ◌≤◌, ◌≡◌, refl, ap, Option, none, some, List, [], ◌∷◌, ◌++◌, length, length-append,
  zero, suc, arith,
}
use custom_isa_8bit_vm.Brainfvck.LoopShape.{ParsedLoop, try_parse_loop}
use custom_isa_8bit_vm.Brainfvck.LoopShape.Sound.{try_parse_loop-lines}
use custom_isa_8bit_vm.Brainfvck.LoopReplace.{replacement, replaced_loop, replace_loops}

after-shorter :
    (line : Bytes) (rest : List Bytes) (loop : ParsedLoop)
    → try_parse_loop (line ∷ rest) ≡ some loop
    → length loop.after ≤ length rest
after-shorter line rest loop e =
    let (_, shape) = try_parse_loop-lines line rest loop e in
    omega (arith, ap length shape, length-append loop.body)

none-some : {p : List Bytes × List Bytes} → none ≡ some p → ⊥
none-some e = cc

some-injective : {p q : List Bytes × List Bytes} → some p ≡ some q → p ≡ q
some-injective e = cc

replaced_loop-after :
    (r : Option ParsedLoop) (n : ℕ) {ls after : List Bytes}
    → ((loop : ParsedLoop) → r ≡ some loop → length loop.after ≤ n)
    → replaced_loop r ≡ some (ls, after)
    → length after ≤ n
unfolding replaced_loop
replaced_loop-after none n h e = cc
replaced_loop-after (some loop) n {ls} {after} h e = by_body (replacement loop.body) refl
  where
    by_body : (found : Option (List Bytes)) → replacement loop.body ≡ found → length after ≤ n
    by_body none q = absurd (none-some (rw (q, replaced_loop) at e))
    by_body (some rs) q =
        let same : loop.after ≡ after =
          ap (λ (p : List Bytes × List Bytes). p.1) (some-injective (rw (q, replaced_loop) at e)) in
        rw⁻¹ same (h loop refl)

-- The loop over the lines, with fuel for at least as many rounds as there are lines, gives the same
-- lines with any more.
pub replace_loops-more_fuel :
    (fuel extra : ℕ) (ls : List Bytes)
    → length ls ≤ fuel
    → replace_loops (fuel + extra) ls ≡ replace_loops fuel ls
unfolding replace_loops
replace_loops-more_fuel fuel extra [] h = refl
replace_loops-more_fuel zero extra (line ∷ rest) h = absurd (omega arith)
replace_loops-more_fuel (suc fuel) extra (line ∷ rest) h =
    let n : suc fuel + extra ≡ suc (fuel + extra) = omega arith in
    rw n (
      by_loop (replaced_loop (try_parse_loop (line ∷ rest)))
        (λ ls after found.
          replaced_loop-after (try_parse_loop (line ∷ rest)) (length rest) (after-shorter line rest)
            found)
        (λ after short. replace_loops-more_fuel fuel extra after short))
  where
    by_loop :
        (found : Option (List Bytes × List Bytes))
        → ((ls after : List Bytes) → found ≡ some (ls, after) → length after ≤ length rest)
        → ((after : List Bytes)
            → length after ≤ fuel
            → replace_loops (fuel + extra) after ≡ replace_loops fuel after)
        → (elim found as (λ _. List Bytes) [
          | none ↦ line ∷ replace_loops (fuel + extra) rest
          | some (ls, after) ↦ ls ++ replace_loops (fuel + extra) after
        ])
          ≡ (elim found as (λ _. List Bytes) [
            | none ↦ line ∷ replace_loops fuel rest
            | some (ls, after) ↦ ls ++ replace_loops fuel after
          ])
    by_loop none k again = ap (λ t. line ∷ t) (again rest (omega arith))
    by_loop (some (ls, after)) k again =
        let short = k ls after refl in ap (λ t. ls ++ t) (again after (omega arith))
