-- ===== src/Brainfvck/LoopReplace/Delta.antt =====
-- The changes that `try_analyze_mult_body` of src/Brainfvck.cpp collects, as a sum for each cell.
use custom_isa_8bit_vm.Base.{
  ◌==◌, if◌then◌else◌, ==_iff, Bool-cases, ℕ, ◌+◌, ◌%◌, ◌<◌, ◌≡◌, refl, sym, ap, ◌∙◌, inl, inr,
  Option, none, some, List, [], ◌∷◌, arith,
}
use custom_isa_8bit_vm.Base.{
  ℤ, pos, negsuc, pos_part, neg_part, ◌+ℤ◌, ◌-ℤ◌, ltb_ℤ, eq_ℤ, to_byte, +ℤ_parts, -ℤ_parts,
  eq_of_parts,
}
use custom_isa_8bit_vm.Brainfvck.LoopShape.{CellMod, add_mod, take_self}
use custom_isa_8bit_vm.Brainfvck.LoopReplace.{insert_mod, sort_mods}

pub to_byte_parts :
    (z : ℤ) → ((to_byte z + neg_part z) % 256 ≡ pos_part z % 256) × (to_byte z < 256)
to_byte_parts (pos n) = (omega arith, omega arith)
to_byte_parts (negsuc n) = (omega arith, omega arith)

pub to_byte-add : (x y : ℤ) → to_byte (x +ℤ y) ≡ (to_byte x + to_byte y) % 256
to_byte-add x y = omega (
  arith,
  +ℤ_parts x y,
  (to_byte_parts x).0,
  (to_byte_parts x).1,
  (to_byte_parts y).0,
  (to_byte_parts y).1,
  (to_byte_parts (x +ℤ y)).0,
  (to_byte_parts (x +ℤ y)).1,
)

pub to_byte-sub : (x y : ℤ) → (to_byte (x -ℤ y) + to_byte y) % 256 ≡ to_byte x
to_byte-sub x y = omega (
  arith,
  -ℤ_parts x y,
  (to_byte_parts x).0,
  (to_byte_parts x).1,
  (to_byte_parts y).0,
  (to_byte_parts y).1,
  (to_byte_parts (x -ℤ y)).0,
  (to_byte_parts (x -ℤ y)).1,
)

-- The cell at an offset from the pointer `p`.
abbrev pub cell_at : ℕ → ℤ → ℕ
cell_at p offset = (p + to_byte offset) % 256

-- What a change by `n` at an offset adds to the cell `x`.
abbrev pub hit : ℕ → ℤ → ℤ → ℕ → ℕ
hit p offset n x = if cell_at p offset == x then to_byte n else 0

-- What all entries add to the cell `x`, modulo 256.
unfoldable pub delta : ℕ → List CellMod → ℕ → ℕ
delta p [] x = 0
delta p (m ∷ mods) x = hit p m.offset m.value x + delta p mods x

hit-add :
    (p : ℕ) (ptr v n : ℤ) (x : ℕ)
    → hit p ptr (v +ℤ n) x % 256 ≡ (hit p ptr v x + hit p ptr n x) % 256
hit-add p ptr v n x = elim (Bool-cases (cell_at p ptr == x)) [
  | inl e ↦ rw e (omega (arith, to_byte-add v n))
  | inr e ↦ rw e refl
]

pub delta-add_mod :
    (p : ℕ) (ptr n : ℤ) (mods : List CellMod) (x : ℕ)
    → delta p (add_mod ptr n mods) x % 256 ≡ (delta p mods x + hit p ptr n x) % 256
unfolding delta add_mod
delta-add_mod p ptr n [] x = omega arith
delta-add_mod p ptr n (m ∷ mods) x = elim (Bool-cases (eq_ℤ m.offset ptr)) [
  | inl e ↦
      let same : m.offset ≡ ptr = eq_of_parts m.offset ptr ((==_iff _ _).0 e) in
      rw (e, same) (omega (arith, hit-add p ptr m.value n x))
  | inr e ↦ rw e (omega (arith, delta-add_mod p ptr n mods x))
]

some_pair :
    {a c : ℤ} {b d : List CellMod}
    → ◌≡◌ {A = Option (ℤ × List CellMod)} (some (a, b)) (some (c, d))
    → (a ≡ c) × (b ≡ d)
some_pair e = (
  ap (λ (o : Option (ℤ × List CellMod)). elim o as (λ _. ℤ) [ none ↦ pos 0 | some q ↦ q.0 ]) e,
  ap (λ (o : Option (ℤ × List CellMod)). elim o as (λ _. List CellMod) [ none ↦ [] | some q ↦ q.1 ])
      e,
)

pub delta-take_self :
    (p : ℕ) (mods : List CellMod) {v : ℤ} {rest : List CellMod} (x : ℕ)
    → take_self mods ≡ some (v, rest)
    → delta p mods x ≡ hit p (pos 0) v x + delta p rest x
unfolding delta take_self
delta-take_self p [] x e = cc
delta-take_self p (m ∷ mods) {v} {rest} x e = elim (Bool-cases (eq_ℤ m.offset (pos 0))) [
  | inl h ↦
      let e' = rw h at e in
      let (value_is, rest_is) = some_pair e' in
      let same : m.offset ≡ pos 0 = eq_of_parts m.offset (pos 0) ((==_iff _ _).0 h) in
      rw (same, value_is, rest_is) refl
  | inr h ↦
      let e' = rw h at e in
      behind (take_self mods) refl (λ w others k. delta-take_self p mods x k) e'
]
  where
    behind :
        (found : Option (ℤ × List CellMod))
        → take_self mods ≡ found
        → ((w : ℤ) (others : List CellMod)
            → take_self mods ≡ some (w, others)
            → delta p mods x ≡ hit p (pos 0) w x + delta p others x)
        → ◌≡◌ {A = Option (ℤ × List CellMod)}
            (elim (take_self mods) [ none ↦ none | some (w, others) ↦ some (w, m ∷ others) ])
            (some (v, rest))
        → delta p (m ∷ mods) x ≡ hit p (pos 0) v x + delta p rest x
    behind none f k g = let g' = rw f at g in cc
    behind (some (w, others)) f k g =
        let g' = rw f at g in
        let (value_is, rest_is) = some_pair g' in
        let shifted = k w others f in
        let same = sym rest_is in rw (same, sym value_is) (omega (arith, shifted))

delta-insert_mod :
    (p : ℕ) (m : CellMod) (mods : List CellMod) (x : ℕ)
    → delta p (insert_mod m mods) x ≡ delta p (m ∷ mods) x
unfolding delta insert_mod
delta-insert_mod p m [] x = refl
delta-insert_mod p m (n ∷ mods) x = elim (Bool-cases (ltb_ℤ n.offset m.offset)) [
  | inl e ↦ rw e (omega (arith, delta-insert_mod p m mods x))
  | inr e ↦ rw e refl
]

pub delta-sort_mods :
    (p : ℕ) (mods : List CellMod) (x : ℕ) → delta p (sort_mods mods) x ≡ delta p mods x
unfolding delta sort_mods
delta-sort_mods p [] x = refl
delta-sort_mods p (m ∷ mods) x =
    delta-insert_mod p m (sort_mods mods) x
    ∙ ap (λ d. hit p m.offset m.value x + d) (delta-sort_mods p mods x)
