-- ===== src/Brainfvck/RunLength/Keeps.antt =====
-- The lines that `apply_optimizations` of src/Brainfvck.cpp writes, against those it reads.
use custom_isa_8bit_vm.Base.{
  Bool-cases, Bytes, codes, ℕ, suc, ◌^◌, ◌<◌, ◌≡◌, refl, sym, ap, ◌∙◌, inl, inr, List, [], ◌∷◌,
  ◌++◌, arith,
}
use custom_isa_8bit_vm.Base.{ℤ, pos, negsuc, ◌+ℤ◌}
use custom_isa_8bit_vm.Brainfvck.Format.{starts_with}
use custom_isa_8bit_vm.Brainfvck.LoopShape.{moves, changes, body_line}
use custom_isa_8bit_vm.Brainfvck.RunLength.{
  Run, is_zero, change_line, flush, keep_line, math_line, ptr_line, optimize_line,
}
use custom_isa_8bit_vm.Brainfvck.RunLength.Meaning.{Tape, effect, body_effect, run_lines, Small}
use custom_isa_8bit_vm.Brainfvck.RunLength.Mode.{
  Mode, idle, counting, moving, to_run, amount, meaning, Plain, Small-add, run_line_lem,
  bump-is_zero, shift-is_zero, counted-change_line, moved-change_line,
}

module _ {ℓ} {S : Type ℓ} (tape : Tape S) (s : S) where
  -- What a step of the optimiser makes of a state: another one, in which the line has had its effect.
  pub record Step (m : Mode) (line : Bytes) (k : ℕ) (r : Run) : Type ℓ where
    pub next : Mode
    pub same : r ≡ to_run next
    pub effect_is : meaning tape next s ≡ effect tape line (meaning tape m s)
    pub small : Small (suc k) (amount next)

  keep-idle :
      (m : Mode) (line : Bytes) (code : List Bytes) (k : ℕ) (r : Run)
      → r ≡ to_run (idle (code ++ line ∷ []))
      → run_lines tape code s ≡ meaning tape m s
      → Step m line k r
  keep-idle m line code k r e f = record {
    next = idle (code ++ line ∷ []);
    same = e;
    effect_is = run_line_lem tape s code line ∙ ap (effect tape line) f;
    small = (omega arith, omega arith);
  }

  keep_line-Step :
      (m : Mode) (line : Bytes) (k : ℕ)
      → Small k (amount m)
      → k < 2 ^ 31
      → Step m line k (keep_line (to_run m) line)
  unfolding keep_line flush
  keep_line-Step (idle code) line k h l = keep-idle (idle code) line code k _ refl refl
  keep_line-Step (counting n code) line k h l = elim (Bool-cases (is_zero n)) [
    | inl e ↦ rw e (record {
      next = counting n (code ++ line ∷ []);
      same = refl;
      effect_is =
          bump-is_zero tape s n e _
          ∙ run_line_lem tape s code line
          ∙ ap (effect tape line) (sym (bump-is_zero tape s n e (run_lines tape code s)));
      small = (omega (arith, h.0), omega (arith, h.1));
    })
    | inr e ↦ rw e (
        keep-idle (counting n code) line (code ++ change_line (codes "[A]") n ∷ []) k _ refl
          (counted-change_line tape s k n code h l))
  ]
  keep_line-Step (moving n code) line k h l = elim (Bool-cases (is_zero n)) [
    | inl e ↦ rw e (record {
      next = moving n (code ++ line ∷ []);
      same = refl;
      effect_is =
          shift-is_zero tape s n e _
          ∙ run_line_lem tape s code line
          ∙ ap (effect tape line) (sym (shift-is_zero tape s n e (run_lines tape code s)));
      small = (omega (arith, h.0), omega (arith, h.1));
    })
    | inr e ↦ rw e (
        keep-idle (moving n code) line (code ++ change_line (codes "A") n ∷ []) k _ refl
          (moved-change_line tape s k n code h l))
  ]

  -- A line that changes the cell.
  math_line-Step :
      (m : Mode) (line : Bytes) (by : ℤ) (k : ℕ)
      → Small k (amount m)
      → k < 2 ^ 31
      → Small 1 by
      → body_line line ≡ changes by
      → Step m line k (math_line (to_run m) line by)
  unfolding math_line
  math_line-Step (idle code) line by k h l j e = record {
    next = counting (pos 0 +ℤ by) code;
    same = refl;
    effect_is =
        sym (tape.bump_add (pos 0) by _)
        ∙ ap (tape.bump by) (tape.bump_zero _)
        ∙ ap (λ b. body_effect tape line b (run_lines tape code s)) (sym e);
    small = Small-add k (pos 0) by (omega arith, omega arith) j;
  }
  math_line-Step (counting n code) line by k h l j e = record {
    next = counting (n +ℤ by) code;
    same = refl;
    effect_is =
        sym (tape.bump_add n by _)
        ∙ ap (λ b. body_effect tape line b (tape.bump n (run_lines tape code s))) (sym e);
    small = Small-add k n by h j;
  }
  math_line-Step (moving n code) line by k h l j e = keep_line-Step (moving n code) line k h l

  ptr_line-Step :
      (m : Mode) (line : Bytes) (by : ℤ) (k : ℕ)
      → Small k (amount m)
      → k < 2 ^ 31
      → Small 1 by
      → body_line line ≡ moves by
      → Step m line k (ptr_line (to_run m) line by)
  unfolding ptr_line
  ptr_line-Step (idle code) line by k h l j e = record {
    next = moving (pos 0 +ℤ by) code;
    same = refl;
    effect_is =
        sym (tape.shift_add (pos 0) by _)
        ∙ ap (tape.shift by) (tape.shift_zero _)
        ∙ ap (λ b. body_effect tape line b (run_lines tape code s)) (sym e);
    small = Small-add k (pos 0) by (omega arith, omega arith) j;
  }
  ptr_line-Step (moving n code) line by k h l j e = record {
    next = moving (n +ℤ by) code;
    same = refl;
    effect_is =
        sym (tape.shift_add n by _)
        ∙ ap (λ b. body_effect tape line b (tape.shift n (run_lines tape code s))) (sym e);
    small = Small-add k n by h j;
  }
  ptr_line-Step (counting n code) line by k h l j e = keep_line-Step (counting n code) line k h l

  pub optimize_line-Step :
      (m : Mode) (line : Bytes) (k : ℕ)
      → Small k (amount m)
      → k < 2 ^ 31
      → Plain line
      → Step m line k (optimize_line (to_run m) line)
  unfolding optimize_line
  optimize_line-Step m line k h l p = elim (Bool-cases (starts_with line (codes "ADD [A]"))) [
    | inl e ↦ rw e (math_line-Step m line (pos 1) k h l (omega arith, omega arith) (p.add_cell e))
    | inr e ↦ rw e (elim (Bool-cases (starts_with line (codes "SUB [A]"))) [
      | inl f ↦
          rw f (math_line-Step m line (negsuc 0) k h l (omega arith, omega arith) (p.sub_cell f))
      | inr f ↦ rw f (elim (Bool-cases (starts_with line (codes "ADD A"))) [
        | inl g ↦
            rw g (ptr_line-Step m line (pos 1) k h l (omega arith, omega arith) (p.add_pointer g))
        | inr g ↦ rw g (elim (Bool-cases (starts_with line (codes "SUB A"))) [
          | inl i ↦
              rw i
                (ptr_line-Step m line (negsuc 0) k h l (omega arith, omega arith) (p.sub_pointer i))
          | inr i ↦ rw i (keep_line-Step m line k h l)
        ])
      ])
    ])
  ]
