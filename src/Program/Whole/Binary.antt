-- ===== src/Program/Whole/Binary.antt =====
-- The bytes of the binary of a program, one by one.
use custom_isa_8bit_vm.Base.{
  length, length-append, length-replicate, Bytes, ℕ, zero, suc, ◌+◌, ◌-◌, ◌≤◌, ◌<◌, ◌≡◌, sym, ap,
  ◌∙◌, [], ◌∷◌, ◌++◌, arith,
}
use mathlib.Core.Path.{subst}
use custom_isa_8bit_vm.Vm.State.{byte_of_type}
use custom_isa_8bit_vm.Vm.Stack.Contents.{slice}
use custom_isa_8bit_vm.Vm.Operand.Fetch.{Holds}
use custom_isa_8bit_vm.Loader.Image
use custom_isa_8bit_vm.Program.TapeLines.{
  TapeLine, up, down, raise, lower, times_b, times_c, IsByteLine, code_of,
}
use custom_isa_8bit_vm.Program.Ready.{Holds-front, Holds-drop}
use custom_isa_8bit_vm.Program.Tree.{
  Tree, done, line, show, enter, while, size, code, compare_code, jump_code, AllBytes,
}
use custom_isa_8bit_vm.Program.Tree.Loops.{length-code}
use custom_isa_8bit_vm.Program.Listing.{origin, skipped, start_code, binary}

pub length-skipped : (n : ℕ) → length (skipped n) ≡ n
unfolding skipped
length-skipped n = length-replicate n 0

pub length-binary : (t : Tree) → length (binary t) ≡ origin + size t + 1
unfolding binary
length-binary t = omega (
  arith,
  length-append (skipped 30000) (start_code ++ (code origin t ++ 0xFF ∷ [])),
  length-append (code origin t) (0xFF ∷ []),
  length-skipped 30000,
  length-code t origin,
)

AllBytes-append :
    (xs ys : Bytes) → Image.AllBytes xs → Image.AllBytes ys → Image.AllBytes (xs ++ ys)
AllBytes-append [] ys h k = k
AllBytes-append (x ∷ xs) ys h k = (h.0, AllBytes-append xs ys h.1 k)

skipped-bytes : (n : ℕ) → Image.AllBytes (skipped n)
unfolding skipped
skipped-bytes zero = tt
skipped-bytes (suc n) = (omega arith, skipped-bytes n)

code_of-bytes : (l : TapeLine) → IsByteLine l → Image.AllBytes (code_of l)
unfolding byte_of_type
code_of-bytes (up n) h = omega (arith, h)
code_of-bytes (down n) h = omega (arith, h)
code_of-bytes (raise n) h = omega (arith, h)
code_of-bytes (lower n) h = omega (arith, h)
code_of-bytes (times_b n) h = omega (arith, h)
code_of-bytes (times_c n) h = omega (arith, h)
code_of-bytes _ h = omega arith

code-bytes : (t : Tree) (a : ℕ) → AllBytes t → Image.AllBytes (code a t)
unfolding code
code-bytes done a h = tt
code-bytes (line l rest) a h =
    AllBytes-append (code_of l) (code (a + 5) rest) (code_of-bytes l h.0)
      (code-bytes rest (a + 5) h.1)
code-bytes (show rest) a h = (omega arith, (omega arith, (omega arith, code-bytes rest (a + 3) h)))
code-bytes (enter rest) a h = (omega arith, (omega arith, (omega arith, code-bytes rest (a + 3) h)))
code-bytes (while id body rest) a h =
    let behind = code (a + 9 + size body + 9) rest in
    AllBytes-append (compare_code ++ jump_code 0x41 (a + 9 + size body)) _ (omega arith) (
      AllBytes-append (code (a + 9) body) _ (code-bytes body (a + 9) h.0) (
        AllBytes-append (compare_code ++ jump_code 0x51 a) behind (omega arith)
          (code-bytes rest (a + 9 + size body + 9) h.1)))

pub binary-bytes : (t : Tree) → AllBytes t → Image.AllBytes (binary t)
unfolding binary
binary-bytes t h = (
  omega arith,
  (
    omega arith,
    AllBytes-append (skipped 30000) (start_code ++ (code origin t ++ 0xFF ∷ []))
        (skipped-bytes 30000)
        (AllBytes-append start_code (code origin t ++ 0xFF ∷ []) (omega arith)
          (AllBytes-append (code origin t) (0xFF ∷ []) (code-bytes t origin h) (omega arith))),
  ),
)

-- Bytes that are read one behind the other stand there.
pub Holds-slice : (f : ℕ → ℕ) (a : ℕ) (bs : Bytes) → slice f a (length bs) ≡ bs → Holds f a bs
unfolding slice
Holds-slice f a [] h = tt
Holds-slice f a (b ∷ bs) h =
    let next : suc a ≡ a + 1 = omega arith in
    (cc h, subst (λ q. Holds f q bs) next (Holds-slice f (suc a) bs (cc h)))

skipped-zero : (f : ℕ → ℕ) (a n x : ℕ) → Holds f a (skipped n) → x < n → f (a + x) ≡ 0
unfolding skipped
skipped-zero f a zero x h l = absurd (omega (arith, l))
skipped-zero f a (suc n) zero h l = let first : a + 0 ≡ a = omega arith in ap f first ∙ h.0
skipped-zero f a (suc n) (suc x) h l =
    let next : a + suc x ≡ a + 1 + x = omega arith in
    ap f next ∙ skipped-zero f (a + 1) n x h.1 (omega (arith, l))

module _ (f : ℕ → ℕ) (t : Tree) (h : Holds f 0 (binary t)) where
  -- The bytes of `.skip` are 0, and the start of the program stands behind them.
  pub binary-zeros : (x : ℕ) → 2 ≤ x → x < 30002 → f x ≡ 0
  unfolding binary
  binary-zeros x l u =
      let back : 2 + (x - 2) ≡ x = omega (arith, l) in
      let zeros =
        Holds-front f 2 (skipped 30000) (start_code ++ (code origin t ++ 0xFF ∷ [])) h.1.1 in
      ap f (sym back) ∙ skipped-zero f 2 30000 (x - 2) zeros (omega (arith, l, u))

  pub binary-start : Holds f 30002 (start_code ++ (code origin t ++ 0xFF ∷ []))
  unfolding binary
  binary-start =
      subst (λ q. Holds f q (start_code ++ (code origin t ++ 0xFF ∷ [])))
        (omega (arith, length-skipped 30000))
        (Holds-drop f 2 (skipped 30000) (start_code ++ (code origin t ++ 0xFF ∷ [])) h.1.1)
