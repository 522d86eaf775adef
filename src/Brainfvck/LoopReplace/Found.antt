-- ===== src/Brainfvck/LoopReplace/Found.antt =====
-- What `try_analyze_mult_body` of src/Brainfvck.cpp has found when it accepts a body.
use custom_isa_8bit_vm.Base.{
  ==_iff, Bool-cases, Bytes, ◌≡◌, refl, ◌∙◌, inl, inr, Option, none, some, List, [], ◌∷◌, map,
}
use custom_isa_8bit_vm.Base.{ℤ, pos, negsuc, eq_ℤ, eq_of_parts}
use custom_isa_8bit_vm.Brainfvck.LoopShape.{
  CellMod, body_line, analyze, take_self, not_empty, other_mods, mods_of, try_analyze_mult_body,
}

-- What `try_analyze_mult_body` has found.
pub record Analyzed (lines : List Bytes) (mods : List CellMod) : Type 0 where
  pub all : List CellMod
  pub whole :
      ◌≡◌ {A = Option (List CellMod × ℤ)}
        (analyze (pos 0) [] (map body_line lines))
        (some (all, pos 0))
  pub own : ◌≡◌ {A = Option (ℤ × List CellMod)} (take_self all) (some (negsuc 0, mods))

not_empty_lem :
    (mods : List CellMod) {mods' : List CellMod} → not_empty mods ≡ some mods' → mods ≡ mods'
unfolding not_empty
not_empty_lem [] e = cc
not_empty_lem (m ∷ mods) e = cc

own_lem :
    (found : Option (ℤ × List CellMod)) {mods : List CellMod}
    → other_mods found ≡ some mods
    → found ≡ some (negsuc 0, mods)
unfolding other_mods
own_lem none e = cc
own_lem (some (v, rest)) e = elim (Bool-cases (eq_ℤ v (negsuc 0))) [
  | inl f ↦
      let minus_one : v ≡ negsuc 0 = eq_of_parts v (negsuc 0) ((==_iff _ _).0 f) in
      let e' = rw f at e in rw (minus_one, not_empty_lem rest e') refl
  | inr f ↦ let e' = rw f at e in cc
]

whole_lem :
    (lines : List Bytes) (found : Option (List CellMod × ℤ)) {mods : List CellMod}
    → analyze (pos 0) [] (map body_line lines) ≡ found
    → mods_of found ≡ some mods
    → Analyzed lines mods
unfolding mods_of
whole_lem lines none f e = cc
whole_lem lines (some (all, ptr)) f e = elim (Bool-cases (eq_ℤ ptr (pos 0))) [
  | inl g ↦
      let home : ptr ≡ pos 0 = eq_of_parts ptr (pos 0) ((==_iff _ _).0 g) in
      let e' = rw g at e in
      record { all = all; whole = f ∙ rw home refl; own = own_lem (take_self all) e' }
  | inr g ↦ let e' = rw g at e in cc
]

pub try_analyze_mult_body-Analyzed :
    (lines : List Bytes) {mods : List CellMod}
    → try_analyze_mult_body lines ≡ some mods
    → Analyzed lines mods
unfolding try_analyze_mult_body
try_analyze_mult_body-Analyzed lines e = whole_lem lines _ refl e
