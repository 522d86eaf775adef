-- ===== src/Brainfvck/RunLength/Mode.antt =====
-- The states of `apply_optimizations` in src/Brainfvck.cpp, and what they stand for.
use custom_isa_8bit_vm.Base.{
  leb, Bool-cases, Bytes, codes, ℕ, suc, ◌+◌, ◌^◌, ◌≤◌, ◌<◌, ◌≡◌, ap, ◌∙◌, inl, inr, true, false,
  List, [], ◌∷◌, ◌++◌, arith,
}
use custom_isa_8bit_vm.Base.{ℤ, pos, negsuc, sub_ℕ, pos_part, neg_part, ◌+ℤ◌, eq_of_parts}
use custom_isa_8bit_vm.Brainfvck.Format.{starts_with}
use custom_isa_8bit_vm.Brainfvck.LoopShape.{moves, changes, body_line}
use custom_isa_8bit_vm.Brainfvck.RunLength.{Run, is_zero, change_line}
use custom_isa_8bit_vm.Brainfvck.RunLength.Meaning.{
  Tape, effect, body_effect, run_lines, run_lines-append, Small, body_line-change_line,
  body_line-move_line,
}

-- The states of `flush`: no run, a run of changes, a run of moves.
pub data Mode : Type 0 where
  idle : List Bytes → Mode
  counting moving : ℤ → List Bytes → Mode

abbrev pub to_run : Mode → Run
to_run (idle code) = record {
  accumulating_math = false;
  accumulating_ptr = false;
  accumulated_value = pos 0;
  optimized_code = code;
}
to_run (counting n code) = record {
  accumulating_math = true;
  accumulating_ptr = false;
  accumulated_value = n;
  optimized_code = code;
}
to_run (moving n code) = record {
  accumulating_math = false;
  accumulating_ptr = true;
  accumulated_value = n;
  optimized_code = code;
}

abbrev pub amount : Mode → ℤ
amount (idle code) = pos 0
amount (counting n code) = n
amount (moving n code) = n

-- The tape after the lines written so far and the run under way.
abbrev pub meaning {ℓ} : {S : Type ℓ} → Tape S → Mode → S → S
meaning tape (idle code) s = run_lines tape code s
meaning tape (counting n code) s = tape.bump n (run_lines tape code s)
meaning tape (moving n code) s = tape.shift n (run_lines tape code s)

-- A line that begins like one of the four commands is just that command, once.
pub record Plain (line : Bytes) : Type 0 where
  pub add_cell : starts_with line (codes "ADD [A]") ≡ true → body_line line ≡ changes (pos 1)
  pub sub_cell : starts_with line (codes "SUB [A]") ≡ true → body_line line ≡ changes (negsuc 0)
  pub add_pointer : starts_with line (codes "ADD A") ≡ true → body_line line ≡ moves (pos 1)
  pub sub_pointer : starts_with line (codes "SUB A") ≡ true → body_line line ≡ moves (negsuc 0)

is_zero_lem : (n : ℤ) → is_zero n ≡ true → n ≡ pos 0
is_zero_lem n e = eq_of_parts n (pos 0) (ground arith)

pub Small-sub_ℕ : (k a b : ℕ) → a ≤ k + b → b ≤ k + a → Small k (sub_ℕ a b)
Small-sub_ℕ k a b h i = elim (Bool-cases (leb b a)) [
  | inl e ↦ rw e (omega arith, omega arith)
  | inr e ↦ let less : a < b = ground arith in rw e (omega arith, omega arith)
]

pub Small-add : (k : ℕ) (n by : ℤ) → Small k n → Small 1 by → Small (suc k) (n +ℤ by)
unfolding ◌+ℤ◌
Small-add k n by h j =
    Small-sub_ℕ (suc k) (pos_part n + pos_part by) (neg_part n + neg_part by)
      (omega (arith, h.0, h.1, j.0, j.1)) (omega (arith, h.0, h.1, j.0, j.1))

module _ {ℓ} {S : Type ℓ} (tape : Tape S) (s : S) where
  pub run_line_lem :
      (code : List Bytes) (line : Bytes)
      → run_lines tape (code ++ line ∷ []) s ≡ effect tape line (run_lines tape code s)
  unfolding run_lines
  run_line_lem code line = run_lines-append tape code (line ∷ []) s

  pub bump-is_zero : (n : ℤ) → is_zero n ≡ true → (x : S) → tape.bump n x ≡ x
  bump-is_zero n e x = ap (λ k. tape.bump k x) (is_zero_lem n e) ∙ tape.bump_zero x

  pub shift-is_zero : (n : ℤ) → is_zero n ≡ true → (x : S) → tape.shift n x ≡ x
  shift-is_zero n e x = ap (λ k. tape.shift k x) (is_zero_lem n e) ∙ tape.shift_zero x

  pub counted-change_line :
      (k : ℕ) (n : ℤ) (code : List Bytes)
      → Small k n
      → k < 2 ^ 31
      → run_lines tape (code ++ change_line (codes "[A]") n ∷ []) s
        ≡ tape.bump n (run_lines tape code s)
  counted-change_line k n code h l =
      run_line_lem code (change_line (codes "[A]") n)
      ∙ ap (λ b. body_effect tape (change_line (codes "[A]") n) b (run_lines tape code s))
          (body_line-change_line k n h l)

  pub moved-change_line :
      (k : ℕ) (n : ℤ) (code : List Bytes)
      → Small k n
      → k < 2 ^ 31
      → run_lines tape (code ++ change_line (codes "A") n ∷ []) s
        ≡ tape.shift n (run_lines tape code s)
  moved-change_line k n code h l =
      run_line_lem code (change_line (codes "A") n)
      ∙ ap (λ b. body_effect tape (change_line (codes "A") n) b (run_lines tape code s))
          (body_line-move_line k n h l)
