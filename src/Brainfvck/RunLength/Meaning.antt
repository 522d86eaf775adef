-- ===== src/Brainfvck/RunLength/Meaning.antt =====
-- What the lines of src/Brainfvck.cpp do to a tape, and runs of them in `apply_optimizations`.
use custom_isa_8bit_vm.Base.{
  leb, Bool-cases, Bytes, codes, ℕ, suc, ◌+◌, ◌^◌, ◌≤◌, ◌<◌, ◌≡◌, refl, ap, inl, inr, List, [], ◌∷◌,
  ◌++◌, arith,
}
use custom_isa_8bit_vm.Base.{
  ℤ, pos, negsuc, sub_ℕ, pos_part, neg_part, ◌+ℤ◌, ◌-ℤ◌, ltb_ℤ, -ℤ_parts, eq_of_parts,
}
use custom_isa_8bit_vm.Brainfvck.Format.{starts_with}
use custom_isa_8bit_vm.Brainfvck.Format.Decimal.{IsInt, from_chars-format_int}
use custom_isa_8bit_vm.Brainfvck.LoopShape.{
  BodyLine, moves, changes, stops, body_line, parse_instr_arg, negated,
}
use custom_isa_8bit_vm.Brainfvck.RunLength.{change_line}

-- A tape with a cell under the pointer: changes of the cell add up, and so do moves. What all other
-- lines do is left open.
pub record Tape {ℓ} (S : Type ℓ) : Type ℓ where
  pub bump : ℤ → S → S
  pub shift : ℤ → S → S
  pub other : Bytes → S → S
  pub bump_zero : (s : S) → bump (pos 0) s ≡ s
  pub shift_zero : (s : S) → shift (pos 0) s ≡ s
  pub bump_add : (a b : ℤ) (s : S) → bump b (bump a s) ≡ bump (a +ℤ b) s
  pub shift_add : (a b : ℤ) (s : S) → shift b (shift a s) ≡ shift (a +ℤ b) s

abbrev pub body_effect {ℓ} : {S : Type ℓ} → Tape S → Bytes → BodyLine → S → S
body_effect tape line (moves n) s = tape.shift n s
body_effect tape line (changes n) s = tape.bump n s
body_effect tape line stops s = tape.other line s

-- A line by its text.
abbrev pub effect {ℓ} : {S : Type ℓ} → Tape S → Bytes → S → S
effect tape line = body_effect tape line (body_line line)

unfoldable pub run_lines {ℓ} : {S : Type ℓ} → Tape S → List Bytes → S → S
run_lines tape [] s = s
run_lines tape (line ∷ rest) s = run_lines tape rest (effect tape line s)

pub run_lines-append {ℓ} :
    {S : Type ℓ} (tape : Tape S) (xs ys : List Bytes) (s : S)
    → run_lines tape (xs ++ ys) s ≡ run_lines tape ys (run_lines tape xs s)
unfolding run_lines
run_lines-append tape [] ys s = refl
run_lines-append tape (x ∷ xs) ys s = run_lines-append tape xs ys (effect tape x s)

pub negated-negated : (n : ℤ) → negated (negated n) ≡ n
negated-negated n =
    eq_of_parts _ _ (omega (arith, -ℤ_parts (pos 0) n, -ℤ_parts (pos 0) (negated n)))

-- A number of which the negative is an `int` too.
abbrev pub Small : ℕ → ℤ → Type 0
Small k n = (pos_part n ≤ k) × (neg_part n ≤ k)

pub Small-IsInt : (k : ℕ) (n : ℤ) → Small k n → k < 2 ^ 31 → IsInt n
Small-IsInt k (pos n) h l = omega (arith, h.0)
Small-IsInt k (negsuc n) h l = omega (arith, h.1)

IsInt-sub_ℕ : (a b : ℕ) → a < 2 ^ 31 → b < 2 ^ 31 → IsInt (sub_ℕ a b)
IsInt-sub_ℕ a b h k = elim (Bool-cases (leb b a)) [
  | inl e ↦ rw e (omega arith)
  | inr e ↦ rw e (omega arith)
]

pub Small-negated : (k : ℕ) (n : ℤ) → Small k n → k < 2 ^ 31 → IsInt (negated n)
unfolding ◌-ℤ◌
Small-negated k (pos n) h l = IsInt-sub_ℕ (0 + 0) (0 + n) (omega arith) (omega (arith, h.0, l))
Small-negated k (negsuc n) h l =
    IsInt-sub_ℕ (0 + suc n) (0 + 0) (omega (arith, h.1, l)) (omega arith)

module _ (k : ℕ) (n : ℤ) (small : Small k n) (bounded : k < 2 ^ 31) where
  -- The line that is written for a run of changes reads back as their sum.
  pub body_line-change_line : body_line (change_line (codes "[A]") n) ≡ changes n
  unfolding body_line change_line parse_instr_arg starts_with
  body_line-change_line = elim (Bool-cases (ltb_ℤ (pos 0) n)) [
    | inl e ↦ rw (e, from_chars-format_int n (Small-IsInt k n small bounded)) refl
    | inr e ↦
        rw (e, from_chars-format_int (negated n) (Small-negated k n small bounded))
          (ap changes (negated-negated n))
  ]

  pub body_line-move_line : body_line (change_line (codes "A") n) ≡ moves n
  unfolding body_line change_line parse_instr_arg starts_with
  body_line-move_line = elim (Bool-cases (ltb_ℤ (pos 0) n)) [
    | inl e ↦ rw (e, from_chars-format_int n (Small-IsInt k n small bounded)) refl
    | inr e ↦
        rw (e, from_chars-format_int (negated n) (Small-negated k n small bounded))
          (ap moves (negated-negated n))
  ]
