-- ===== src/Brainfvck/LoopReplace/Written.antt =====
-- What the lines of `emit_mul_replacement` of src/Brainfvck.cpp do to the tape.
use custom_isa_8bit_vm.Base.{
  ◌==◌, if◌then◌else◌, ==_iff, Bool-cases, Bytes, codes, equal, ℕ, ◌+◌, ◌-◌, ◌*◌, ◌%◌, ◌^◌, ◌<◌,
  ◌≡◌, refl, sym, ap, ◌∙◌, inl, inr, Bool, true, false, List, [], ◌∷◌, ◌++◌, arith,
}
use custom_isa_8bit_vm.Base.{ℤ, pos, negsuc, ltb_ℤ, eq_ℤ, to_byte, eq_of_parts}
use custom_isa_8bit_vm.Assembler.Text.{from_chars}
use custom_isa_8bit_vm.Brainfvck.Format.{format_int, starts_with}
use custom_isa_8bit_vm.Brainfvck.Format.Decimal.{from_chars-format_int}
use custom_isa_8bit_vm.Brainfvck.RunLength.Meaning.{
  Small, Small-IsInt, Small-negated, negated-negated,
}
use custom_isa_8bit_vm.Brainfvck.LoopShape.{body_line, parse_instr_arg, negated}
use custom_isa_8bit_vm.Brainfvck.LoopReplace.{move_lines, add_lines}
use custom_isa_8bit_vm.Brainfvck.LoopReplace.Memory.{
  Memory, IsBytes, set_cell, here, move, other_effect, run_texts,
}
use custom_isa_8bit_vm.Brainfvck.LoopReplace.Body.{Adds, ==_swap}

move_none :
    (d : ℤ) (m : Memory)
    → m.pointer < 256
    → ltb_ℤ (pos 0) d ≡ false
    → ltb_ℤ d (pos 0) ≡ false
    → m ≡ move d m
move_none d m h e f =
    let same : d ≡ pos 0 = eq_of_parts d (pos 0) (ground arith) in
    let still : m.pointer ≡ (m.pointer + to_byte d) % 256 = rw same (omega (arith, h)) in
    ap (λ q. record m { pointer = q }) still

pub move_lines-move :
    (d : ℤ) (k : ℕ) (m : Memory)
    → Small k d
    → k < 2 ^ 31
    → m.pointer < 256
    → run_texts (move_lines d) m ≡ move d m
unfolding run_texts move_lines body_line parse_instr_arg starts_with
move_lines-move d k m h l b = elim (Bool-cases (ltb_ℤ (pos 0) d)) [
  | inl e ↦ rw (e, from_chars-format_int d (Small-IsInt k d h l)) refl
  | inr e ↦ rw e (elim (Bool-cases (ltb_ℤ d (pos 0))) [
    | inl f ↦
        rw (f, from_chars-format_int (negated d) (Small-negated k d h l))
          (ap (λ n. move n m) (negated-negated d))
    | inr f ↦ rw f (move_none d m b e f)
  ])
]

-- What a product adds to one cell.
abbrev pub only : ℕ → ℕ → ℕ → ℕ
only q k x = if q == x then k else 0

set_cell-Adds :
    (k w : ℕ) (m m' : Memory)
    → IsBytes m
    → m'.pointer ≡ m.pointer
    → ((x : ℕ) → m'.cells x ≡ m.cells x)
    → w % 256 ≡ (here m + k) % 256
    → Adds m.pointer (only m.pointer k) m (set_cell w m')
set_cell-Adds k w m m' h p c e = (
  p,
  λ x. elim (Bool-cases (m.pointer == x)) [
    | inl f ↦
        let same : m.pointer ≡ x = (==_iff m.pointer x).0 f in
        let struck : (x == m'.pointer) ≡ true = (==_iff x m'.pointer).1 (sym same ∙ sym p) in
        rw (struck, f) (e ∙ ap (λ q. (m.cells q + k) % 256) same)
    | inr f ↦
        let missed : (x == m'.pointer) ≡ false = ap (λ q. x == q) p ∙ ==_swap m.pointer x f in
        let kept : m.cells x ≡ (m.cells x + 0) % 256 = omega (arith, h.1 x) in
        rw (missed, f) (c x ∙ kept)
  ],
)

abbrev product_lines : ℤ → Bool → List Bytes
product_lines v last =
    if last
    then (codes "MUL B, " ++ format_int v) ∷ codes "ADD [A], B" ∷ []
    else codes "MOV C, B" ∷ (codes "MUL C, " ++ format_int v) ∷ codes "ADD [A], C" ∷ []

-- The product with a value, by the multiplication of B or of C.
product_lines-Adds :
    (v : ℤ) (last : Bool) (m : Memory)
    → Small 255 v
    → IsBytes m
    → Adds m.pointer (only m.pointer (m.b * to_byte v)) m (run_texts (product_lines v last) m)
      × (last ≡ false → (run_texts (product_lines v last) m).b ≡ m.b)
unfolding run_texts body_line parse_instr_arg starts_with other_effect equal from_chars
product_lines-Adds v true m h b = rw (from_chars-format_int v (Small-IsInt 255 v h (omega arith))) (
  set_cell-Adds (m.b * to_byte v) (here m + m.b * to_byte v % 256) m
      (record m { b = m.b * to_byte v % 256 }) b refl (λ x. refl) (omega arith),
  λ e. cc,
)
product_lines-Adds v false m h b =
    rw (from_chars-format_int v (Small-IsInt 255 v h (omega arith))) (
      set_cell-Adds (m.b * to_byte v) (here m + m.b * to_byte v % 256) m
          (record m { c = m.b * to_byte v % 256 }) b refl (λ x. refl) (omega arith),
      λ _. refl,
    )

-- The lines for the value of an entry.
pub add_lines-Adds :
    (v : ℤ) (last : Bool) (m : Memory)
    → Small 255 v
    → IsBytes m
    → m.b < 256
    → Adds m.pointer (only m.pointer (m.b * to_byte v)) m (run_texts (add_lines v last) m)
      × (last ≡ false → (run_texts (add_lines v last) m).b ≡ m.b)
unfolding run_texts add_lines body_line parse_instr_arg starts_with other_effect equal from_chars
add_lines-Adds v last m h b r = elim (Bool-cases (eq_ℤ v (pos 1))) [
  | inl e ↦
      let one : v ≡ pos 1 = eq_of_parts v (pos 1) ((==_iff _ _).0 e) in
      let product : m.b * to_byte v ≡ m.b * 1 = ap (λ n. m.b * to_byte n) one in
      rw e (
        set_cell-Adds (m.b * to_byte v) (here m + m.b) m m b refl (λ x. refl)
            (omega (arith, product)),
        λ _. refl,
      )
  | inr e ↦ rw e (elim (Bool-cases (eq_ℤ v (negsuc 0))) [
    | inl f ↦
        let minus_one : v ≡ negsuc 0 = eq_of_parts v (negsuc 0) ((==_iff _ _).0 f) in
        let product : m.b * to_byte v ≡ m.b * 255 = ap (λ n. m.b * to_byte n) minus_one in
        rw f (
          set_cell-Adds (m.b * to_byte v) (here m + 256 - m.b) m m b refl (λ x. refl)
              (omega (arith, product, r)),
          λ _. refl,
        )
    | inr f ↦ rw f (product_lines-Adds v last m h b)
  ])
]
