-- ===== src/Program/Syntax/Frames.antt =====
-- Programs that are still open at their end, with the lines that src/Brainfvck.cpp has written for
-- them so far.
use custom_isa_8bit_vm.Base.{
  Bytes, codes, ℕ, ◌+◌, ◌≤◌, ◌≡◌, refl, sym, ap, ◌∙◌, List, [], ◌∷◌, ◌++◌, arith,
}
use mathlib.Core.List.{append_assoc, append-nil}
use mathlib.Core.Path.{subst}
use custom_isa_8bit_vm.Brainfvck.Translate.{start_label, close_label, prologue}
use custom_isa_8bit_vm.Program.TapeLines.{TapeLine, text, IsByteLine}
use custom_isa_8bit_vm.Program.Tree.{Tree, done, line, show, enter, while, AllBytes}
use custom_isa_8bit_vm.Program.Listing.{tree_lines}
use custom_isa_8bit_vm.Program.Listing.Known.{bound, Ordered}
use custom_isa_8bit_vm.Program.Syntax.{Opening}

-- The lines of an open program, with the numbers that its loops may have.
pub record Frame (low high : ℕ) (f : Opening) (ls : List Bytes) : Type 0 where
  pub texts : (rest : Tree) → tree_lines (f rest) ≡ ls ++ tree_lines rest
  pub bytes : (rest : Tree) → AllBytes rest → AllBytes (f rest)
  pub ordered : (rest : Tree) → Ordered high rest → Ordered low (f rest)
  pub bound_is : (rest : Tree) → bound low (f rest) ≡ bound high rest

pub Frame-compose :
    (low mid high : ℕ) (f g : Opening) (ls ls' : List Bytes)
    → Frame low mid f ls
    → Frame mid high g ls'
    → Frame low high (λ rest. f (g rest)) (ls ++ ls')
Frame-compose low mid high f g ls ls' h k = record {
  texts = λ rest.
      h.texts (g rest)
      ∙ ap (λ xs. ls ++ xs) (k.texts rest)
      ∙ sym (append_assoc ls ls' (tree_lines rest));
  bytes = λ rest b. h.bytes (g rest) (k.bytes rest b);
  ordered = λ rest o. h.ordered (g rest) (k.ordered rest o);
  bound_is = λ rest. h.bound_is (g rest) ∙ k.bound_is rest;
}

pub Frame-empty : (n : ℕ) → Frame n n (λ rest. rest) []
Frame-empty n = record {
  texts = λ rest. refl;
  bytes = λ rest b. b;
  ordered = λ rest o. o;
  bound_is = λ rest. refl;
}

pub Frame-line : (n : ℕ) (l : TapeLine) → IsByteLine l → Frame n n (line l) (text l ∷ [])
unfolding tree_lines bound Ordered
Frame-line n l h = record {
  texts = λ rest. refl;
  bytes = λ rest b. (h, b);
  ordered = λ rest o. o;
  bound_is = λ rest. refl;
}

pub Frame-show : (n : ℕ) → Frame n n show (codes "PRINT [A]" ∷ [])
unfolding tree_lines bound Ordered
Frame-show n = record {
  texts = λ rest. refl;
  bytes = λ rest b. b;
  ordered = λ rest o. o;
  bound_is = λ rest. refl;
}

pub Frame-enter : (n : ℕ) → Frame n n enter (codes "INPUT [A]" ∷ [])
unfolding tree_lines bound Ordered
Frame-enter n = record {
  texts = λ rest. refl;
  bytes = λ rest b. b;
  ordered = λ rest o. o;
  bound_is = λ rest. refl;
}

-- The lines of the two brackets.
abbrev pub opening_lines : ℕ → List Bytes
opening_lines id =
    (start_label id ++ codes ":") ∷ codes "CMP [A], 0" ∷ (codes "JE " ++ close_label id) ∷ []

abbrev pub closing_lines : ℕ → List Bytes
closing_lines id =
    (close_label id ++ codes ":") ∷ codes "CMP [A], 0" ∷ (codes "JNE " ++ start_label id) ∷ []

Frame-while :
    (k id high : ℕ) (f : Opening) (ls : List Bytes)
    → k ≤ id
    → Frame (id + 1) high f ls
    → Frame k high (while id (f done)) (opening_lines id ++ (ls ++ closing_lines id))
unfolding tree_lines bound Ordered start_label close_label
Frame-while k id high f ls l h =
    let body : tree_lines (f done) ≡ ls = h.texts done ∙ append-nil ls in
    record {
      texts = λ rest.
          ap (λ xs. opening_lines id ++ (xs ++ (closing_lines id ++ tree_lines rest))) body
          ∙ ap (λ xs. opening_lines id ++ xs)
              (sym (append_assoc ls (closing_lines id) (tree_lines rest)));
      bytes = λ rest b. (h.bytes done tt, b);
      ordered =
          λ rest o. (l, (h.ordered done tt, subst (λ n. Ordered n rest) (sym (h.bound_is done)) o));
      bound_is = λ rest. ap (λ n. bound n rest) (h.bound_is done);
    }

-- The lines of all open programs, the innermost one last, behind the prologue.
pub data Stacked : List (ℕ × Opening) → Opening → ℕ → List Bytes → Type 0 where
  outermost :
      {f : Opening} {high : ℕ} {ls code : List Bytes}
      → Frame 0 high f ls
      → code ≡ prologue.code ++ ls
      → Stacked [] f high code
  within :
      {outer : List (ℕ × Opening)} {f before : Opening} {id k high : ℕ} {ls above code : List Bytes}
      → Frame (id + 1) high f ls
      → k ≤ id
      → code ≡ above ++ (opening_lines id ++ ls)
      → Stacked outer before k above
      → Stacked ((id, before) ∷ outer) f high code

pub Stacked-more :
    {outer : List (ℕ × Opening)} {f : Opening} {mid : ℕ} {code : List Bytes} (high : ℕ)
    (g : Opening) (ls' : List Bytes)
    → Frame mid high g ls'
    → Stacked outer f mid code
    → Stacked outer (λ rest. f (g rest)) high (code ++ ls')
Stacked-more {f = f} {mid} high g ls' h (outermost {ls = ls} k e) =
    outermost (Frame-compose 0 mid high f g ls ls' k h)
      (ap (λ xs. xs ++ ls') e ∙ append_assoc prologue.code ls ls')
Stacked-more {f = f} {mid} high g ls' h (within {id = id} {ls = ls} {above} k l e s) =
    within (Frame-compose (id + 1) mid high f g ls ls' k h) l
      (ap (λ xs. xs ++ ls') e ∙ append_assoc above (opening_lines id ++ ls) ls') s

pub Stacked-open :
    {outer : List (ℕ × Opening)} {f : Opening} {high : ℕ} {code : List Bytes}
    → Stacked outer f high code
    → Stacked ((high, f) ∷ outer) (λ rest. rest) (high + 1) (code ++ opening_lines high)
Stacked-open {high = high} s = within (Frame-empty (high + 1)) (omega arith) refl s

pub Stacked-close :
    {outer : List (ℕ × Opening)} {f before : Opening} {id high : ℕ} {code : List Bytes}
    → Stacked ((id, before) ∷ outer) f high code
    → Stacked outer (λ rest. before (while id (f done) rest)) high (code ++ closing_lines id)
Stacked-close {outer} {f} {before} {id} {high} (within {k = k} {ls = ls} {above} h l e s) =
    let lines_are = sym (
      ap (λ xs. xs ++ closing_lines id) e
      ∙ append_assoc above (opening_lines id ++ ls) (closing_lines id)) in
    subst (Stacked outer (λ rest. before (while id (f done) rest)) high) lines_are (
      Stacked-more high (while id (f done)) (opening_lines id ++ (ls ++ closing_lines id))
        (Frame-while k id high f ls l h) s)
