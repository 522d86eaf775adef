-- ===== src/Brainfvck/Translate/Brackets.antt =====
-- Which programs `Brainfvck::compile` of src/Brainfvck.cpp accepts.
use custom_isa_8bit_vm.Base.{
  ◌==◌, if◌then◌else◌, length, Bytes, ℕ, ◌≡◌, refl, ap, ◌∙◌, zero, suc, List, [], ◌∷◌, arith,
}
use custom_isa_8bit_vm.Exception.{
  Result, ok, err, undefined, ◌>>=◌, unmatched_close, unmatched_open,
}
use custom_isa_8bit_vm.Assembler.Text.{lines}
use custom_isa_8bit_vm.Brainfvck.Translate.{
  Translation, emit, open_par, close_par, translate_char, translate_chars, translate_lines,
  prologue, finish, translate,
}

-- One bracket fewer is open, if one is.
unfoldable closed : ℕ → Result ℕ
closed zero = err unmatched_close
closed (suc n) = ok n

unfoldable after_char : ℕ → ℕ → Result ℕ
unfolding closed
after_char n c = if c == b'[' then ok (suc n) else if c == b']' then closed n else ok n

-- How many brackets are open behind a text, with `n` open in front of it.
unfoldable depth : ℕ → Bytes → Result ℕ
unfolding after_char
depth n [] = ok n
depth n (c ∷ cs) = after_char n c >>= λ k. depth k cs

unfoldable depth_lines : ℕ → List Bytes → Result ℕ
unfolding depth
depth_lines n [] = ok n
depth_lines n (line ∷ rest) = depth n line >>= λ k. depth_lines k rest

unfoldable none_open : ℕ → Result (Unit {0})
none_open zero = ok tt
none_open (suc n) = err unmatched_open

-- Every bracket of the lines closes an open one, and none is open at the end.
unfoldable pub balanced : List Bytes → Result (Unit {0})
unfolding depth_lines none_open
balanced ls = depth_lines 0 ls >>= none_open

unfoldable open_brackets : Result Translation → Result ℕ
open_brackets undefined = undefined
open_brackets (err e) = err e
open_brackets (ok t) = ok (length t.par_stack)

-- A result without its value.
unfoldable pub verdict {ℓ} : {A : Type ℓ} → Result A → Result (Unit {0})
verdict undefined = undefined
verdict (err e) = err e
verdict (ok a) = ok tt

close_par-closed :
    (ids : List ℕ) (t : Translation) → open_brackets (close_par ids t) ≡ closed (length ids)
unfolding open_brackets close_par closed
close_par-closed [] t = refl
close_par-closed (id ∷ ids) t = refl

translate_char-after_char :
    (t : Translation) (c : ℕ)
    → open_brackets (translate_char t c) ≡ after_char (length t.par_stack) c
unfolding open_brackets translate_char after_char emit open_par
translate_char-after_char t c = ground (arith, close_par-closed t.par_stack t)

-- A step that keeps count, and what follows it.
open_brackets-bind :
    (r : Result Translation) (f : Translation → Result Translation) (g : ℕ → Result ℕ)
    → ((t : Translation) → open_brackets (f t) ≡ g (length t.par_stack))
    → open_brackets (r >>= f) ≡ (open_brackets r >>= g)
unfolding open_brackets
open_brackets-bind undefined f g h = refl
open_brackets-bind (err e) f g h = refl
open_brackets-bind (ok t) f g h = h t

translate_chars-depth :
    (t : Translation) (cs : Bytes)
    → open_brackets (translate_chars t cs) ≡ depth (length t.par_stack) cs
unfolding translate_chars depth open_brackets
translate_chars-depth t [] = refl
translate_chars-depth t (c ∷ cs) =
    open_brackets-bind (translate_char t c) _ (λ k. depth k cs) (λ t'. translate_chars-depth t' cs)
    ∙ ap (λ r. r >>= λ k. depth k cs) (translate_char-after_char t c)

translate_lines-depth :
    (t : Translation) (ls : List Bytes)
    → open_brackets (translate_lines t ls) ≡ depth_lines (length t.par_stack) ls
unfolding translate_lines depth_lines open_brackets
translate_lines-depth t [] = refl
translate_lines-depth t (line ∷ ls) =
    open_brackets-bind (translate_chars t line) _ (λ k. depth_lines k ls)
      (λ t'. translate_lines-depth t' ls)
    ∙ ap (λ r. r >>= λ k. depth_lines k ls) (translate_chars-depth t line)

finish-none_open :
    (ids : List ℕ) (t : Translation) → verdict (finish ids t) ≡ none_open (length ids)
unfolding verdict finish none_open
finish-none_open [] t = refl
finish-none_open (id ∷ ids) t = refl

verdict-finish :
    (r : Result Translation)
    → verdict (r >>= λ t. finish t.par_stack t) ≡ (open_brackets r >>= none_open)
unfolding verdict open_brackets
verdict-finish undefined = refl
verdict-finish (err e) = refl
verdict-finish (ok t) = finish-none_open t.par_stack t

-- The translation of a program succeeds exactly when its brackets match; it throws for an unmatched
-- closing bracket exactly when one stands where none is open, and for an unmatched opening one
-- exactly when no closing bracket is unmatched and some bracket is open at the end.
pub translate-balanced : (source : Bytes) → verdict (translate source) ≡ balanced (lines source)
unfolding translate balanced
translate-balanced source =
    verdict-finish (translate_lines prologue (lines source))
    ∙ ap (λ r. r >>= none_open) (translate_lines-depth prologue (lines source))
