-- ===== src/Brainfvck/RunLength/Plain.antt =====
-- The lines that `compile` of src/Brainfvck.cpp gives to `apply_optimizations`.
use custom_isa_8bit_vm.Base.{
  ◌==◌, if◌then◌else◌, Bytes, codes, ℕ, ◌≡◌, refl, Bool, true, false, List, [], ◌∷◌, ◌++◌,
}
use mathlib.Core.Path.{subst}
use custom_isa_8bit_vm.Base.{◌-ℤ◌}
use custom_isa_8bit_vm.Exception.{Result, ok, err, undefined, ◌>>=◌, >>=-eq-ok, ok-injective}
use custom_isa_8bit_vm.Assembler.Text.{lines, from_chars}
use custom_isa_8bit_vm.Brainfvck.Format.{starts_with}
use custom_isa_8bit_vm.Brainfvck.LoopShape.{body_line, parse_instr_arg}
use custom_isa_8bit_vm.Brainfvck.Translate.{
  Translation, start_label, close_label, emit, open_par, close_par, translate_char, translate_chars,
  translate_lines, prologue, finish, translate,
}
use custom_isa_8bit_vm.Brainfvck.RunLength.Mode.{Plain}

abbrev pub AllPlain : List Bytes → Type 0
AllPlain [] = Unit
AllPlain (line ∷ rest) = Plain line × AllPlain rest

AllPlain-append : (xs ys : List Bytes) → AllPlain xs → AllPlain ys → AllPlain (xs ++ ys)
AllPlain-append [] ys h k = k
AllPlain-append (x ∷ xs) ys h k = (h.0, AllPlain-append xs ys h.1 k)

-- Lines that begin with neither of the two letters.
Plain-other : (c : ℕ) (line : Bytes) → (c == b'A') ≡ false → (c == b'S') ≡ false → Plain (c ∷ line)
unfolding starts_with
Plain-other c line a b = record {
  add_cell = λ e. let e' = rw a at e in cc;
  sub_cell = λ e. let e' = rw b at e in cc;
  add_pointer = λ e. let e' = rw a at e in cc;
  sub_pointer = λ e. let e' = rw b at e in cc;
}

Plain-add_pointer : Plain (codes "ADD A, 1")
unfolding starts_with body_line parse_instr_arg from_chars
Plain-add_pointer = record {
  add_cell = λ e. cc;
  sub_cell = λ e. cc;
  add_pointer = λ e. refl;
  sub_pointer = λ e. cc;
}

Plain-sub_pointer : Plain (codes "SUB A, 1")
unfolding starts_with body_line parse_instr_arg from_chars ◌-ℤ◌
Plain-sub_pointer = record {
  add_cell = λ e. cc;
  sub_cell = λ e. cc;
  add_pointer = λ e. cc;
  sub_pointer = λ e. refl;
}

Plain-add_cell : Plain (codes "ADD [A], 1")
unfolding starts_with body_line parse_instr_arg from_chars
Plain-add_cell = record {
  add_cell = λ e. refl;
  sub_cell = λ e. cc;
  add_pointer = λ e. cc;
  sub_pointer = λ e. cc;
}

Plain-sub_cell : Plain (codes "SUB [A], 1")
unfolding starts_with body_line parse_instr_arg from_chars ◌-ℤ◌
Plain-sub_cell = record {
  add_cell = λ e. cc;
  sub_cell = λ e. refl;
  add_pointer = λ e. cc;
  sub_pointer = λ e. cc;
}

abbrev PlainCode : Result Translation → Type 0
PlainCode (ok t) = AllPlain t.code
PlainCode _ = Unit

either {ℓ κ} :
    {A : Type ℓ} (P : A → Type κ) (b : Bool) {x y : A} → P x → P y → P (if b then x else y)
either P true h k = h
either P false h k = k

PlainCode-bind {ℓ} :
    {A : Type ℓ} (r : Result Translation) (f : Translation → Result A) (P : Result A → Type 0)
    → PlainCode r
    → P undefined
    → ((e : _) → P (err e))
    → ((t : Translation) → AllPlain t.code → P (f t))
    → P (r >>= f)
PlainCode-bind undefined f P h u x k = u
PlainCode-bind (err e) f P h u x k = x e
PlainCode-bind (ok t) f P h u x k = k t h

close_par-PlainCode :
    (stack : List ℕ) (t : Translation) → AllPlain t.code → PlainCode (close_par stack t)
unfolding close_par start_label close_label
close_par-PlainCode [] t h = tt
close_par-PlainCode (id ∷ stack) t h =
    AllPlain-append t.code _ h
      (Plain-other _ _ refl refl, (Plain-other _ _ refl refl, (Plain-other _ _ refl refl, tt)))

translate_char-PlainCode :
    (t : Translation) (c : ℕ) → AllPlain t.code → PlainCode (translate_char t c)
unfolding translate_char emit open_par start_label close_label
translate_char-PlainCode t c h =
    either PlainCode (c == b'>') (AllPlain-append t.code _ h (Plain-add_pointer, tt)) (
      either PlainCode (c == b'<') (AllPlain-append t.code _ h (Plain-sub_pointer, tt)) (
        either PlainCode (c == b'+') (AllPlain-append t.code _ h (Plain-add_cell, tt)) (
          either PlainCode (c == b'-') (AllPlain-append t.code _ h (Plain-sub_cell, tt)) (
            either PlainCode (c == b'.')
              (AllPlain-append t.code _ h (Plain-other _ _ refl refl, tt))
              (either PlainCode (c == b',')
                (AllPlain-append t.code _ h (Plain-other _ _ refl refl, tt))
                (either PlainCode (c == b'[')
                  (AllPlain-append t.code _ h (
                    Plain-other _ _ refl refl,
                    (Plain-other _ _ refl refl, (Plain-other _ _ refl refl, tt)),
                  ))
                  (either PlainCode (c == b']') (close_par-PlainCode t.par_stack t h) h)))))))

translate_chars-PlainCode :
    (t : Translation) (cs : Bytes) → AllPlain t.code → PlainCode (translate_chars t cs)
unfolding translate_chars
translate_chars-PlainCode t [] h = h
translate_chars-PlainCode t (c ∷ cs) h =
    PlainCode-bind (translate_char t c) _ PlainCode (translate_char-PlainCode t c h) tt (λ e. tt)
      (λ t' h'. translate_chars-PlainCode t' cs h')

translate_lines-PlainCode :
    (t : Translation) (ls : List Bytes) → AllPlain t.code → PlainCode (translate_lines t ls)
unfolding translate_lines
translate_lines-PlainCode t [] h = h
translate_lines-PlainCode t (line ∷ rest) h =
    PlainCode-bind (translate_chars t line) _ PlainCode (translate_chars-PlainCode t line h) tt
      (λ e. tt) (λ t' h'. translate_lines-PlainCode t' rest h')

finish-AllPlain :
    (stack : List ℕ) (t : Translation) {ls : List Bytes}
    → AllPlain t.code
    → finish stack t ≡ ok ls
    → AllPlain ls
unfolding finish
finish-AllPlain [] t h e =
    subst AllPlain (ok-injective e) (AllPlain-append t.code _ h (Plain-other _ _ refl refl, tt))
finish-AllPlain (id ∷ stack) t h e = cc

pub translate-AllPlain : (source : Bytes) {ls : List Bytes} → translate source ≡ ok ls → AllPlain ls
unfolding translate
translate-AllPlain source e =
    let (t, f, g) = >>=-eq-ok (translate_lines prologue (lines source)) _ e in
    let begun : AllPlain prologue.code =
      (Plain-other _ _ refl refl, (Plain-other _ _ refl refl, (Plain-other _ _ refl refl, tt))) in
    finish-AllPlain t.par_stack t
      (subst PlainCode f (translate_lines-PlainCode prologue (lines source) begun)) g
