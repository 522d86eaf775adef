-- ===== src/Brainfvck/LoopReplace/Emitted.antt =====
-- The lines of `emit_mul_replacement` of src/Brainfvck.cpp as a whole.
use custom_isa_8bit_vm.Base.{
  ◌==◌, Bool-cases, ℕ, ◌+◌, ◌*◌, ◌%◌, ◌<◌, ◌≡◌, refl, sym, ap, ◌∙◌, inl, inr, false, List, [], ◌∷◌,
  arith,
}
use custom_isa_8bit_vm.Base.{ℤ, pos, pos_part, neg_part, ◌-ℤ◌, ltb_ℤ, to_byte}
use native.Mathlib.Nat.{mul-add, mul-zero}
use custom_isa_8bit_vm.Brainfvck.RunLength.Meaning.{Small}
use custom_isa_8bit_vm.Brainfvck.RunLength.Mode.{Small-sub_ℕ}
use custom_isa_8bit_vm.Brainfvck.LoopShape.{CellMod, negated}
use custom_isa_8bit_vm.Brainfvck.LoopReplace.{
  move_lines, add_lines, is_empty, emit_mods, sort_mods, insert_mod,
}
use custom_isa_8bit_vm.Brainfvck.LoopReplace.Memory.{
  Memory, IsBytes, move, run_texts, run_texts-append,
}
use custom_isa_8bit_vm.Brainfvck.LoopReplace.Delta.{cell_at, hit, delta, to_byte-sub}
use custom_isa_8bit_vm.Brainfvck.LoopReplace.Body.{Adds}
use custom_isa_8bit_vm.Brainfvck.LoopReplace.Written.{only, move_lines-move, add_lines-Adds}

-- An entry that fits the operands of one byte, for another cell than the loop's own.
pub record Near (m : CellMod) : Type 0 where
  pub offset_small : Small 127 m.offset
  pub value_small : Small 255 m.value
  pub apart : (to_byte m.offset == 0) ≡ false

abbrev pub AllNear : List CellMod → Type 0
AllNear [] = Unit
AllNear (m ∷ mods) = Near m × AllNear mods

insert_mod-AllNear :
    (m : CellMod) (mods : List CellMod) → Near m → AllNear mods → AllNear (insert_mod m mods)
unfolding insert_mod
insert_mod-AllNear m [] h k = (h, tt)
insert_mod-AllNear m (n ∷ mods) h k = elim (Bool-cases (ltb_ℤ n.offset m.offset)) [
  | inl e ↦ rw e (k.0, insert_mod-AllNear m mods h k.1)
  | inr e ↦ rw e (h, k)
]

pub sort_mods-AllNear : (mods : List CellMod) → AllNear mods → AllNear (sort_mods mods)
unfolding sort_mods
sort_mods-AllNear [] h = tt
sort_mods-AllNear (m ∷ mods) h =
    insert_mod-AllNear m (sort_mods mods) h.0 (sort_mods-AllNear mods h.1)

Small-sub : (x y : ℤ) → Small 127 x → Small 127 y → Small 254 (x -ℤ y)
unfolding ◌-ℤ◌
Small-sub x y h k =
    Small-sub_ℕ 254 (pos_part x + neg_part y) (neg_part x + pos_part y)
      (omega (arith, h.0, h.1, k.0, k.1)) (omega (arith, h.0, h.1, k.0, k.1))

product_hit :
    (p b : ℕ) (m : CellMod) (x : ℕ)
    → b * hit p m.offset m.value x ≡ only (cell_at p m.offset) (b * to_byte m.value) x
product_hit p b m x = elim (Bool-cases (cell_at p m.offset == x)) [
  | inl e ↦ rw e refl
  | inr e ↦ rw e (mul-zero b)
]

product_rest :
    (p b b' : ℕ) (mods : List CellMod) (x : ℕ)
    → (is_empty mods ≡ false → b' ≡ b)
    → b' * delta p mods x ≡ b * delta p mods x
unfolding delta
product_rest p b b' [] x h = mul-zero b' ∙ sym (mul-zero b)
product_rest p b b' (m ∷ mods) x h = ap (λ q. q * delta p (m ∷ mods) x) (h refl)

pub emit_mods-Adds :
    (p : ℕ) (cur : ℤ) (mods : List CellMod) (m : Memory)
    → p < 256
    → Small 127 cur
    → AllNear mods
    → m.pointer ≡ cell_at p cur
    → IsBytes m
    → (is_empty mods ≡ false → m.b < 256)
    → Adds p (λ x. m.b * delta p mods x) m (run_texts (emit_mods cur mods) m)
unfolding emit_mods delta
emit_mods-Adds p cur [] m l s n at h r =
    let moved =
      move_lines-move (negated cur) 254 m (Small-sub (pos 0) cur (omega arith, omega arith) s)
        (omega arith) h.0 in
    let back : (cell_at p cur + to_byte (negated cur)) % 256 ≡ p =
      omega (arith, to_byte-sub (pos 0) cur, l) in
    rw moved (
      ap (λ q. (q + to_byte (negated cur)) % 256) at ∙ back,
      λ x. let product = mul-zero m.b in omega (arith, h.1 x, product),
    )
emit_mods-Adds p cur (e ∷ mods) m l s n at h r =
    let d = e.offset -ℤ cur in
    let m1 = move d m in
    let last = is_empty mods in
    let m2 = run_texts (add_lines e.value last) m1 in
    let moved : run_texts (move_lines d) m ≡ m1 =
      move_lines-move d 254 m (Small-sub e.offset cur n.0.offset_small s) (omega arith) h.0 in
    let there : m1.pointer ≡ cell_at p e.offset =
      ap (λ q. (q + to_byte d) % 256) at ∙ omega (arith, to_byte-sub e.offset cur) in
    let bytes : IsBytes m1 = (omega arith, h.1) in
    let (added, kept) = add_lines-Adds e.value last m1 n.0.value_small bytes (r refl) in
    let arrived : m2.pointer ≡ cell_at p e.offset = added.0 ∙ there in
    let bytes2 : IsBytes m2 = (rw added.0 bytes.0, λ x. rw (added.1 x) (omega arith)) in
    let (home, adds) =
      emit_mods-Adds p e.offset mods m2 l n.0.offset_small n.1 arrived bytes2
        (λ k. rw (kept k) (r refl)) in
    let joined : run_texts (emit_mods cur (e ∷ mods)) m ≡ run_texts (emit_mods e.offset mods) m2 =
      run_texts-append (move_lines d) _ m
      ∙ run_texts-append (add_lines e.value last) _ _
      ∙ ap (λ k. run_texts (emit_mods e.offset mods) (run_texts (add_lines e.value last) k))
          moved in
    rw joined (
      home,
      λ x.
          let first = added.1 x in
          let second = adds x in
          let struck : only m1.pointer (m.b * to_byte e.value) x ≡ m.b * hit p e.offset e.value x =
            ap (λ q. only q (m.b * to_byte e.value) x) there ∙ sym (product_hit p m.b e x) in
          let rest = product_rest p m.b m2.b mods x kept in
          let split = mul-add m.b (hit p e.offset e.value x) (delta p mods x) in
          omega (arith, first, second, struck, rest, split),
    )
