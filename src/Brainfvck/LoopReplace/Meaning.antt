-- ===== src/Brainfvck/LoopReplace/Meaning.antt =====
-- The lines that `apply_loop_optimizations` of src/Brainfvck.cpp writes for a loop, against the loop.
use custom_isa_8bit_vm.Base.{
  ◌==◌, if◌then◌else◌, ==_iff, Bool-cases, Bytes, codes, equal_iff, equal, ℕ, suc, ◌+◌, ◌*◌, ◌%◌,
  ◌<◌, ◌≡◌, refl, sym, ap, ◌∙◌, inl, inr, true, false, Option, none, some, List, [], ◌∷◌, map,
  arith,
}
use custom_isa_8bit_vm.Base.{ℤ, pos, negsuc, ◌-ℤ◌, to_byte}
use native.Mathlib.Nat.{mul-zero}
use custom_isa_8bit_vm.Assembler.Text.{from_chars}
use custom_isa_8bit_vm.Brainfvck.LoopShape.{
  CellMod, body_line, analyze, add_mod, take_self, try_analyze_mult_body, parse_instr_arg,
}
use custom_isa_8bit_vm.Brainfvck.LoopReplace.{sort_mods, emit_mul_replacement, replacement}
use custom_isa_8bit_vm.Brainfvck.LoopReplace.Memory.{
  Memory, IsBytes, set_cell, here, run_texts, other_effect, loop,
}
use custom_isa_8bit_vm.Brainfvck.LoopReplace.Delta.{
  cell_at, hit, delta, delta-take_self, delta-sort_mods, to_byte_parts,
}
use custom_isa_8bit_vm.Brainfvck.LoopReplace.Body.{loop-Adds, ==_swap}
use custom_isa_8bit_vm.Brainfvck.LoopReplace.Emitted.{AllNear, sort_mods-AllNear, emit_mods-Adds}
use custom_isa_8bit_vm.Brainfvck.LoopReplace.Found.{try_analyze_mult_body-Analyzed}

-- The same pointer and cells; the registers B and C are not the program's.
abbrev pub SameTape : Memory → Memory → Type 0
SameTape m m' = (m.pointer ≡ m'.pointer) × ((x : ℕ) → m.cells x ≡ m'.cells x)

-- The loop's own cell is set to 0, and the others grow by the multiples of what it held.
abbrev Multiplied : List CellMod → Memory → Memory → Type 0
Multiplied mods m m' =
    (m'.pointer ≡ m.pointer)
    × ((x : ℕ)
        → m'.cells x
          ≡ ((if x == m.pointer then 0 else m.cells x) + here m * delta m.pointer mods x) % 256)

moved_off : (p o : ℕ) → p < 256 → o < 256 → (o == 0) ≡ false → ((p + o) % 256 == p) ≡ false
moved_off p o l k e = ground arith

delta-apart : (p : ℕ) (mods : List CellMod) → p < 256 → AllNear mods → delta p mods p ≡ 0
unfolding delta
delta-apart p [] l h = refl
delta-apart p (m ∷ mods) l h =
    let missed : (cell_at p m.offset == p) ≡ false =
      moved_off p (to_byte m.offset) l (to_byte_parts m.offset).1 h.0.apart in
    rw (missed, delta-apart p mods l h.1) refl

emit_mul_replacement-Multiplied :
    (mods : List CellMod) (m : Memory)
    → IsBytes m
    → AllNear mods
    → Multiplied mods m (run_texts (emit_mul_replacement mods) m)
unfolding emit_mul_replacement run_texts body_line parse_instr_arg other_effect equal from_chars
emit_mul_replacement-Multiplied mods m h n =
    let m1 : Memory = set_cell 0 (record m { b = here m }) in
    let start : m.pointer ≡ cell_at m.pointer (pos 0) = omega (arith, h.0) in
    let bytes : IsBytes m1 = (h.0, λ x. ground (arith, h.1 x)) in
    let (home, adds) =
      emit_mods-Adds m.pointer (pos 0) (sort_mods mods) m1 h.0 (omega arith, omega arith)
        (sort_mods-AllNear mods n) start bytes (λ _. h.1 m.pointer) in
    (
      home,
      λ x. adds x ∙ ap (λ d. (m1.cells x + here m * d) % 256) (delta-sort_mods m.pointer mods x),
    )

-- A body whose changes are -1 for its own cell and those of `mods` for others.
loop-SameTape :
    (lines : List Bytes) (all mods : List CellMod) (m m' : Memory)
    → IsBytes m
    → AllNear mods
    → ◌≡◌ {A = Option (List CellMod × ℤ)}
        (analyze (pos 0) [] (map body_line lines))
        (some (all, pos 0))
    → ◌≡◌ {A = Option (ℤ × List CellMod)} (take_self all) (some (negsuc 0, mods))
    → Multiplied mods m m'
    → (out : Memory) × (loop (suc (here m)) lines m ≡ some out) × SameTape out m'
loop-SameTape lines all mods m m' h n e f k =
    let p = m.pointer in
    let start : cell_at p (pos 0) ≡ p = omega (arith, h.0) in
    let own : (cell_at p (pos 0) == p) ≡ true = (==_iff _ _).1 start in
    let sum : (x : ℕ) → delta p all x ≡ hit p (pos 0) (negsuc 0) x + delta p mods x =
      λ x. delta-take_self p all x f in
    let self : delta p all p % 256 ≡ 255 =
      let struck : hit p (pos 0) (negsuc 0) p ≡ 255 = rw own refl in
      omega (arith, sum p, struck, delta-apart p mods h.0 n) in
    let (out, ends, adds) = loop-Adds p (here m) lines m refl refl h e self in
    (
      out,
      ends,
      (
        adds.0 ∙ sym k.0,
        λ x. elim (Bool-cases (x == p)) [
          | inl g ↦
              let same : x ≡ p = (==_iff x p).0 g in
              let struck : (cell_at p (pos 0) == x) ≡ true = (==_iff _ _).1 (start ∙ sym same) in
              let value : hit p (pos 0) (negsuc 0) x ≡ 255 = rw struck refl in
              let others : delta p mods x ≡ 0 = ap (delta p mods) same ∙ delta-apart p mods h.0 n in
              let every : delta p all x ≡ 255 = omega (arith, sum x, value, others) in
              let lost : here m * delta p all x ≡ here m * 255 = ap (λ q. here m * q) every in
              let gained : here m * delta p mods x ≡ here m * 0 = ap (λ q. here m * q) others in
              let mine : m.cells x ≡ here m = ap m.cells same in
              let left = adds.1 x in
              let right : m'.cells x ≡ (0 + here m * delta p mods x) % 256 = k.1 x ∙ rw g refl in
              omega (arith, lost, gained, mine, left, right)
          | inr g ↦
              let missed : (cell_at p (pos 0) == x) ≡ false =
                ap (λ q. q == x) start ∙ ==_swap x p g in
              let value : hit p (pos 0) (negsuc 0) x ≡ 0 = rw missed refl in
              let every : delta p all x ≡ delta p mods x = omega (arith, sum x, value) in
              let equally : here m * delta p all x ≡ here m * delta p mods x =
                ap (λ q. here m * q) every in
              let left = adds.1 x in
              let right : m'.cells x ≡ (m.cells x + here m * delta p mods x) % 256 =
                k.1 x ∙ rw g refl in
              omega (arith, equally, left, right)
        ],
      ),
    )

some_lines : {a b : List Bytes} → some a ≡ some b → a ≡ b
some_lines e = cc

abbrev Loops : List Bytes → List Bytes → Memory → Type 0
Loops body ls m =
    (out : Memory) × (loop (suc (here m)) body m ≡ some out) × SameTape out (run_texts ls m)

clear-Loops : (m : Memory) → IsBytes m → Loops (codes "SUB [A], 1" ∷ []) (codes "MOV [A], 0" ∷ []) m
unfolding run_texts body_line parse_instr_arg other_effect equal from_chars analyze add_mod
    take_self delta ◌-ℤ◌
clear-Loops m h =
    loop-SameTape (codes "SUB [A], 1" ∷ []) (record { offset = pos 0; value = negsuc 0 } ∷ []) [] m
      (run_texts (codes "MOV [A], 0" ∷ []) m) h tt refl refl
      (
        refl,
        λ x.
            let product = mul-zero (here m) in
            elim (Bool-cases (x == m.pointer)) [
              | inl e ↦ rw e (omega (arith, product))
              | inr e ↦ rw e (omega (arith, product, h.1 x))
            ],
      )

mult-Loops :
    (body : List Bytes) (mods : List CellMod) (m : Memory)
    → IsBytes m
    → AllNear mods
    → try_analyze_mult_body body ≡ some mods
    → Loops body (emit_mul_replacement mods) m
mult-Loops body mods m h n e =
    let found = try_analyze_mult_body-Analyzed body e in
    loop-SameTape body found.all mods m (run_texts (emit_mul_replacement mods) m) h n found.whole
      found.own (emit_mul_replacement-Multiplied mods m h n)

-- Where the body of a loop is replaced and every entry that the analysis finds fits operands of one
-- byte and is for another of the 256 cells than the loop's own, the loop ends within as many rounds
-- as the cell under the pointer says, and the lines in its place leave the same pointer and cells.
pub replacement-loop :
    (body ls : List Bytes) (m : Memory)
    → IsBytes m
    → ((mods : List CellMod) → try_analyze_mult_body body ≡ some mods → AllNear mods)
    → replacement body ≡ some ls
    → (out : Memory) × (loop (suc (here m)) body m ≡ some out) × SameTape out (run_texts ls m)
unfolding replacement
replacement-loop [] ls m h n e = cc
replacement-loop (first ∷ []) ls m h n e = elim (Bool-cases (equal first (codes "SUB [A], 1"))) [
  | inl f ↦
      let e' = rw f at e in
      let same : first ≡ codes "SUB [A], 1" = (equal_iff _ _).0 f in
      rw (same, sym (some_lines e')) (clear-Loops m h)
  | inr f ↦ let e' = rw f at e in cc
]
replacement-loop (first ∷ second ∷ rest) ls m h n e =
    elim (Bool-cases (equal first (codes "SUB [A], 1"))) [
      | inl f ↦
          let e' = rw f at e in by_mods (try_analyze_mult_body (first ∷ second ∷ rest)) refl e'
      | inr f ↦ let e' = rw f at e in cc
    ]
  where
    by_mods :
        (found : Option (List CellMod))
        → try_analyze_mult_body (first ∷ second ∷ rest) ≡ found
        → ◌≡◌ {A = Option (List Bytes)}
            (elim (try_analyze_mult_body (first ∷ second ∷ rest)) [
              | none ↦ none
              | some mods ↦ some (emit_mul_replacement mods)
            ])
            (some ls)
        → Loops (first ∷ second ∷ rest) ls m
    by_mods none f g = let g' = rw f at g in cc
    by_mods (some mods) f g =
        let g' = rw f at g in
        rw (sym (some_lines g')) (mult-Loops (first ∷ second ∷ rest) mods m h (n mods f) f)
