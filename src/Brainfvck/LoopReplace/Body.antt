-- ===== src/Brainfvck/LoopReplace/Body.antt =====
-- The body of a loop that `try_analyze_mult_body` of src/Brainfvck.cpp accepts, run once and until
-- the cell is 0.
use custom_isa_8bit_vm.Base.{
  ◌==◌, ==_iff, Bool-cases, Bytes, ℕ, zero, suc, ◌+◌, ◌*◌, ◌%◌, ◌≡◌, refl, sym, ap, ◌∙◌, inl, inr,
  true, false, Option, none, some, List, [], ◌∷◌, map, arith,
}
use custom_isa_8bit_vm.Base.{ℤ, pos, ◌+ℤ◌, to_byte}
use native.Mathlib.Nat.{suc-mul}
use mathlib.Core.Path.{subst}
use custom_isa_8bit_vm.Brainfvck.LoopShape.{
  BodyLine, moves, changes, stops, body_line, CellMod, add_mod, analyze,
}
use custom_isa_8bit_vm.Brainfvck.LoopReplace.Memory.{
  Memory, IsBytes, here, move, change, line_effect, run_texts, loop,
}
use custom_isa_8bit_vm.Brainfvck.LoopReplace.Delta.{cell_at, hit, delta, to_byte-add, delta-add_mod}

-- From `m` to `m'` the pointer moves to `q`, and each cell grows modulo 256.
abbrev pub Adds : ℕ → (ℕ → ℕ) → Memory → Memory → Type 0
Adds q d m m' = (m'.pointer ≡ q) × ((x : ℕ) → m'.cells x ≡ (m.cells x + d x) % 256)

pub ==_swap : (a b : ℕ) → (a == b) ≡ false → (b == a) ≡ false
==_swap a b e = ground arith

Adds-change :
    (p : ℕ) (ptr n : ℤ) (mods : List CellMod) (m m' : Memory)
    → Adds (cell_at p ptr) (delta p mods) m m'
    → Adds (cell_at p ptr) (delta p (add_mod ptr n mods)) m (change n m')
Adds-change p ptr n mods m m' h = (
  h.0,
  λ x. elim (Bool-cases (x == m'.pointer)) [
    | inl e ↦
        let there : x ≡ cell_at p ptr = (==_iff x m'.pointer).0 e ∙ h.0 in
        let same : here m' ≡ (m.cells x + delta p mods x) % 256 =
          ap m'.cells (sym ((==_iff x m'.pointer).0 e)) ∙ h.1 x in
        let struck : (cell_at p ptr == x) ≡ true = (==_iff (cell_at p ptr) x).1 (sym there) in
        let more : hit p ptr n x ≡ to_byte n = rw struck refl in
        rw e (omega (arith, same, more, delta-add_mod p ptr n mods x))
    | inr e ↦
        let missed : (cell_at p ptr == x) ≡ false =
          ==_swap x (cell_at p ptr) (ap (λ q. x == q) (sym h.0) ∙ e) in
        let no_more : hit p ptr n x ≡ 0 = rw missed refl in
        rw e (omega (arith, h.1 x, no_more, delta-add_mod p ptr n mods x))
  ],
)

cell_at-add : (p : ℕ) (ptr n : ℤ) → (cell_at p ptr + to_byte n) % 256 ≡ cell_at p (ptr +ℤ n)
cell_at-add p ptr n = omega (arith, to_byte-add ptr n)

some_analyzed :
    {a c : List CellMod} {b d : ℤ}
    → ◌≡◌ {A = Option (List CellMod × ℤ)} (some (a, b)) (some (c, d))
    → (a ≡ c) × (b ≡ d)
some_analyzed e = (
  ap (λ (o : Option (List CellMod × ℤ)). elim o as (λ _. List CellMod) [ none ↦ [] | some q ↦ q.0 ])
      e,
  ap (λ (o : Option (List CellMod × ℤ)). elim o as (λ _. ℤ) [ none ↦ pos 0 | some q ↦ q.1 ]) e,
)

-- The lines by their kind.
unfoldable run_kinds : List BodyLine → Memory → Memory
run_kinds [] m = m
run_kinds (moves n ∷ kinds) m = run_kinds kinds (move n m)
run_kinds (changes n ∷ kinds) m = run_kinds kinds (change n m)
run_kinds (stops ∷ kinds) m = m

analyze-Adds :
    (p : ℕ) (kinds : List BodyLine) (ptr : ℤ) (mods : List CellMod) (m m' : Memory)
    {mods' : List CellMod} {ptr' : ℤ}
    → Adds (cell_at p ptr) (delta p mods) m m'
    → ◌≡◌ {A = Option (List CellMod × ℤ)} (analyze ptr mods kinds) (some (mods', ptr'))
    → Adds (cell_at p ptr') (delta p mods') m (run_kinds kinds m')
unfolding analyze run_kinds
analyze-Adds p [] ptr mods m m' {mods'} {ptr'} h e =
    let (mods_are, ptr_is) = some_analyzed e in rw (sym mods_are, sym ptr_is) h
analyze-Adds p (moves n ∷ kinds) ptr mods m m' h e =
    analyze-Adds p kinds (ptr +ℤ n) mods m (move n m')
      (ap (λ q. (q + to_byte n) % 256) h.0 ∙ cell_at-add p ptr n, h.1) e
analyze-Adds p (changes n ∷ kinds) ptr mods m m' h e =
    analyze-Adds p kinds ptr (add_mod ptr n mods) m (change n m') (Adds-change p ptr n mods m m' h)
      e
analyze-Adds p (stops ∷ kinds) ptr mods m m' h e = cc

run_kinds-line :
    (line : Bytes) (lines : List Bytes) (kind : BodyLine) (ptr : ℤ) (mods : List CellMod)
    (m : Memory) {r : List CellMod × ℤ}
    → analyze ptr mods (kind ∷ map body_line lines) ≡ some r
    → ((ptr' : ℤ) (mods' : List CellMod) (m' : Memory)
        → analyze ptr' mods' (map body_line lines) ≡ some r
        → run_texts lines m' ≡ run_kinds (map body_line lines) m')
    → run_texts lines (line_effect line kind m) ≡ run_kinds (kind ∷ map body_line lines) m
unfolding analyze run_kinds
run_kinds-line line lines (moves n) ptr mods m e k = k (ptr +ℤ n) mods (move n m) e
run_kinds-line line lines (changes n) ptr mods m e k = k ptr (add_mod ptr n mods) (change n m) e
run_kinds-line line lines stops ptr mods m e k = cc

run_texts-run_kinds :
    (lines : List Bytes) (ptr : ℤ) (mods : List CellMod) (m : Memory) {r : List CellMod × ℤ}
    → analyze ptr mods (map body_line lines) ≡ some r
    → run_texts lines m ≡ run_kinds (map body_line lines) m
unfolding run_texts run_kinds
run_texts-run_kinds [] ptr mods m e = refl
run_texts-run_kinds (line ∷ lines) ptr mods m e =
    run_kinds-line line lines (body_line line) ptr mods m e
      (λ ptr' mods' m' e'. run_texts-run_kinds lines ptr' mods' m' e')

-- A body that comes back to its cell adds to each cell the sum of its changes there.
pub run_texts-Adds :
    (lines : List Bytes) (m : Memory) {mods : List CellMod}
    → IsBytes m
    → ◌≡◌ {A = Option (List CellMod × ℤ)}
        (analyze (pos 0) [] (map body_line lines))
        (some (mods, pos 0))
    → Adds m.pointer (delta m.pointer mods) m (run_texts lines m)
unfolding delta
run_texts-Adds lines m h e =
    let start : m.pointer ≡ cell_at m.pointer (pos 0) = omega (arith, h.0) in
    let none_yet : Adds (cell_at m.pointer (pos 0)) (delta m.pointer []) m m =
      (start, λ x. omega (arith, h.1 x)) in
    let all = analyze-Adds m.pointer (map body_line lines) (pos 0) [] m m none_yet e in
    rw (run_texts-run_kinds lines (pos 0) [] m e) (all.0 ∙ sym start, all.1)

suc_mul_front : (n d : ℕ) → suc n * d ≡ d + n * d
suc_mul_front n d = omega (arith, suc-mul n d)

-- While the cell is not 0, each round takes 1 off it: there are as many rounds as it says.
pub loop-Adds :
    (p n : ℕ) (lines : List Bytes) (m : Memory) {mods : List CellMod}
    → m.pointer ≡ p
    → here m ≡ n
    → IsBytes m
    → ◌≡◌ {A = Option (List CellMod × ℤ)}
        (analyze (pos 0) [] (map body_line lines))
        (some (mods, pos 0))
    → delta p mods p % 256 ≡ 255
    → (out : Memory) × (loop (suc n) lines m ≡ some out) × Adds p (λ x. n * delta p mods x) m out
unfolding loop
loop-Adds p zero lines m {mods} at count h e self =
    (m, rw count refl, (at, λ x. omega (arith, h.1 x)))
loop-Adds p (suc n) lines m {mods} at count h e self =
    let once : Adds p (delta p mods) m (run_texts lines m) =
      subst (λ q. Adds q (delta q mods) m (run_texts lines m)) at (run_texts-Adds lines m h e) in
    let next = run_texts lines m in
    let left : here next ≡ n =
      ap next.cells once.0
      ∙ once.1 p
      ∙ (let full : m.cells p ≡ suc n = ap m.cells (sym at) ∙ count in
          let small = h.1 p in omega (arith, full, small, self)) in
    let bytes : IsBytes next = (rw (once.0, sym at) h.0, λ x. rw (once.1 x) (omega arith)) in
    let (out, ends, adds) = loop-Adds p n lines next once.0 left bytes e self in
    let busy : (here m == 0) ≡ false = rw count (ground arith) in
    (
      out,
      rw busy ends,
      (
        adds.0,
        λ x.
            let step = once.1 x in
            let rest = adds.1 x in
            let product = suc_mul_front n (delta p mods x) in omega (arith, step, rest, product),
      ),
    )
