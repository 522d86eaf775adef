-- ===== src/Brainfvck/LoopShape/Sound.antt =====
-- What `try_parse_loop` of src/Brainfvck.cpp takes for a loop.
use custom_isa_8bit_vm.Base.{
  ltb, Bool, true, false, ◌&&◌, inl, inr, Bool-cases, Bytes, codes, equal, equal_iff, ◌≡◌, refl,
  sym, ap, ◌∙◌, Option, none, some, List, [], ◌∷◌, ◌++◌, length,
}
use custom_isa_8bit_vm.Base.{ℤ}
use custom_isa_8bit_vm.Brainfvck.Format.{format_int}
use custom_isa_8bit_vm.Brainfvck.LoopShape.{
  ParsedLoop, parse_par_id, split_at, closed_loop, parse_loop_body, parse_loop_from, try_parse_loop,
}

cons-injective : {x y : Bytes} {xs ys : List Bytes} → x ∷ xs ≡ y ∷ ys → (x ≡ y) × (xs ≡ ys)
cons-injective e = (cc, cc)

split_at-append :
    (label : Bytes) (ls : List Bytes) → (split_at label ls).0 ++ (split_at label ls).1 ≡ ls
unfolding split_at
split_at-append label [] = refl
split_at-append label (l ∷ ls) = elim (Bool-cases (equal l label)) [
  | inl e ↦ rw e
  | inr e ↦ rw e (ap (λ t. l ∷ t) (split_at-append label ls))
]

split_at-head :
    (label : Bytes) (ls : List Bytes) {x : Bytes} {xs : List Bytes}
    → (split_at label ls).1 ≡ x ∷ xs
    → x ≡ label
unfolding split_at
split_at-head label [] e = cc
split_at-head label (l ∷ ls) {x = x} {xs = xs} e = elim (Bool-cases (equal l label)) [
  | inl h ↦
      let s : l ∷ ls ≡ x ∷ xs = rw h at e in
      let (u, v) = cons-injective s in sym u ∙ (equal_iff l label).0 h
  | inr h ↦ split_at-head label ls (rw h at e)
]

-- The lines of a loop behind its label, and what follows.
abbrev pub loop_lines : ParsedLoop → List Bytes
loop_lines loop =
    codes "CMP [A], 0"
    ∷ (codes "JE " ++ (codes "close_par_" ++ format_int loop.id))
    ∷ (loop.body
        ++ ((codes "close_par_" ++ format_int loop.id) ++ codes ":")
          ∷ codes "CMP [A], 0"
          ∷ (codes "JNE start_par_" ++ format_int loop.id)
          ∷ loop.after)

some-injective : {A : Type 0} {x y : A} → some x ≡ some y → x ≡ y
some-injective e = cc

none-some : {A : Type 0} {x : A} → none ≡ some x → ⊥
none-some e = cc

and_true : (b c : Bool) → (b && c) ≡ true → (b ≡ true) × (c ≡ true)
and_true true true e = (refl, refl)
and_true true false e = cc
and_true false c e = cc

behind_label :
    (x : Bytes) {y z y' z' : Bytes} {after after' : List Bytes}
    → y ≡ y'
    → z ≡ z'
    → after ≡ after'
    → x ∷ y ∷ z ∷ after ≡ x ∷ y' ∷ z' ∷ after'
behind_label x e f g = cc

behind_jump :
    {x y x' y' : Bytes} {after after' : List Bytes}
    → x ≡ x'
    → y ≡ y'
    → after ≡ after'
    → x ∷ y ∷ after ≡ x' ∷ y' ∷ after'
behind_jump e f g = cc

closed_loop-lines :
    (id : ℤ) (body after : List Bytes) (loop : ParsedLoop)
    → closed_loop id body after ≡ some loop
    → (loop.id ≡ id)
      × (loop.body ≡ body)
      × ((x : Bytes) × (after
            ≡ x ∷ codes "CMP [A], 0" ∷ (codes "JNE start_par_" ++ format_int id) ∷ loop.after))
unfolding closed_loop
closed_loop-lines id body [] loop e = cc
closed_loop-lines id body (x ∷ []) loop e = cc
closed_loop-lines id body (x ∷ y ∷ []) loop e = cc
closed_loop-lines id body (x ∷ y ∷ z ∷ after) loop e =
    let t = equal y (codes "CMP [A], 0") && equal z (codes "JNE start_par_" ++ format_int id) in
    elim (Bool-cases t) [
      | inl h ↦
          let (p, q) = and_true _ _ h in
          let s = some-injective (rw h at e) in
          (
            ap (λ (l : ParsedLoop). l.id) (sym s),
            ap (λ (l : ParsedLoop). l.body) (sym s),
            (
              x,
              behind_label x ((equal_iff y _).0 p) ((equal_iff z _).0 q)
                  (ap (λ (l : ParsedLoop). l.after) s),
            ),
          )
      | inr h ↦ absurd (none-some (rw h at e))
    ]

body_lines :
    (id : ℤ) (label : Bytes) (rest : List Bytes) (loop : ParsedLoop)
    → closed_loop id (split_at label rest).0 (split_at label rest).1 ≡ some loop
    → (loop.id ≡ id)
      × (rest
          ≡ loop.body
            ++ label ∷ codes "CMP [A], 0" ∷ (codes "JNE start_par_" ++ format_int id) ∷ loop.after)
body_lines id label rest loop e =
    let (same_id, same_body, behind) = closed_loop-lines id _ _ loop e in
    let (x, after) = behind in
    let is_label : x ≡ label = split_at-head label rest after in
    (
      same_id,
      sym (split_at-append label rest)
          ∙ ap (λ t. (split_at label rest).0 ++ t) after
          ∙ rw⁻¹ same_body (
              ap
                (λ l.
                  loop.body
                  ++ l
                    ∷ codes "CMP [A], 0"
                    ∷ (codes "JNE start_par_" ++ format_int id)
                    ∷ loop.after)
                is_label),
    )

parse_loop_body-lines :
    (id : ℤ) (rest : List Bytes) (loop : ParsedLoop)
    → parse_loop_body id rest ≡ some loop
    → (loop.id ≡ id) × (rest ≡ loop_lines loop)
unfolding parse_loop_body
parse_loop_body-lines id [] loop e = cc
parse_loop_body-lines id (x ∷ []) loop e = cc
parse_loop_body-lines id (x ∷ y ∷ rest) loop e =
    let t =
      equal x (codes "CMP [A], 0")
      && equal y (codes "JE " ++ (codes "close_par_" ++ format_int id)) in
    elim (Bool-cases t) [
      | inl h ↦
          let (p, q) = and_true _ _ h in
          let (same_id, lines_are) =
            body_lines id ((codes "close_par_" ++ format_int id) ++ codes ":") rest loop
              (rw h at e) in
          (same_id, rw same_id (behind_jump ((equal_iff x _).0 p) ((equal_iff y _).0 q) lines_are))
      | inr h ↦ absurd (none-some (rw h at e))
    ]

parse_loop_from-lines :
    (id : Option ℤ) (rest : List Bytes) (loop : ParsedLoop)
    → parse_loop_from id rest ≡ some loop
    → (id ≡ some loop.id) × (rest ≡ loop_lines loop)
unfolding parse_loop_from
parse_loop_from-lines none rest loop e = cc
parse_loop_from-lines (some id) rest loop e = elim (Bool-cases (ltb (length rest) 6)) [
  | inl h ↦ absurd (none-some (rw h at e))
  | inr h ↦
      let (same_id, lines_are) = parse_loop_body-lines id rest loop (rw h at e) in
      (ap some (sym same_id), lines_are)
]

-- What is taken for a loop is one: its first line is an opening label with a number, the comparison
-- and the jump to the closing label with the same number stand behind it, then the body that is
-- returned, the closing label, the comparison, the jump back to the opening label, and then the
-- lines that are returned as those behind the loop.
pub try_parse_loop-lines :
    (line : Bytes) (rest : List Bytes) (loop : ParsedLoop)
    → try_parse_loop (line ∷ rest) ≡ some loop
    → (parse_par_id line (codes "start_par_") ≡ some loop.id) × (rest ≡ loop_lines loop)
unfolding try_parse_loop
try_parse_loop-lines line rest loop e =
    parse_loop_from-lines (parse_par_id line (codes "start_par_")) rest loop e
