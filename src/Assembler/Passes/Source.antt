-- ===== src/Assembler/Passes/Source.antt =====
-- The forms of operands and lines of a well-formed assembly text, as src/Assembler.cpp reads them.
use custom_isa_8bit_vm.Base.{
  ◌==◌, Bytes, codes, equal, ℕ, ◌≡◌, Bool, true, false, ◌||◌, some, List, [], ◌∷◌, map,
}
use custom_isa_8bit_vm.Base.{ℤ}
use custom_isa_8bit_vm.Vm.State.{number}
use custom_isa_8bit_vm.Assembler.Text.{
  before, words, is_digit, is_alpha, front, back, pop_back, contains, from_chars,
}
use custom_isa_8bit_vm.Assembler.Encode.{number_type}
use custom_isa_8bit_vm.Assembler.Layout.{drop_comma}
use custom_isa_8bit_vm.Assembler.Emit.{commas_to_spaces, last_word}

-- The first character of a name.
abbrev pub is_letter : ℕ → Bool
is_letter c = is_alpha c || c == b'_'

-- A map whose keys begin with a letter.
abbrev pub Named : List (Bytes × ℕ) → Type 0
Named [] = Unit
Named ((name, value) ∷ rest) = (is_letter (front name) ≡ true) × Named rest

-- An operand: a number of one byte, something in brackets, or a name of a register or a label.
pub data Operand (s : Bytes) : Type 0 where
  small_number :
      (z : ℤ)
      → (is_digit (front s) || front s == b'-') ≡ true
      → from_chars s ≡ some z
      → number_type z ≡ number
      → Operand s
  bracketed : front s ≡ b'[' → back s ≡ b']' → Operand s
  named : is_letter (front s) ≡ true → contains b'[' s ≡ false → Operand s

abbrev pub AllOperands : List Bytes → Type 0
AllOperands [] = Unit
AllOperands (arg ∷ args) = Operand (drop_comma arg) × AllOperands args

abbrev pub ends_in_colon : Bytes → Bool
ends_in_colon s = back s == b':'

-- A line whose comment is cut off: blank, a label, a `.skip`, or an instruction whose operands stand
-- apart, with a comma at most behind each.
pub data Line (s : Bytes) : Type 0 where
  blank : words s ≡ [] → words (commas_to_spaces s) ≡ [] → Line s
  label :
      (first : Bytes) (args args' : List Bytes)
      → words s ≡ first ∷ args
      → words (commas_to_spaces s) ≡ first ∷ args'
      → ends_in_colon first ≡ true
      → is_letter (front (pop_back first)) ≡ true
      → Line s
  skip :
      (size : Bytes)
      → words s ≡ codes ".skip" ∷ size ∷ []
      → words (commas_to_spaces s) ≡ codes ".skip" ∷ size ∷ []
      → ends_in_colon s ≡ false
      → ends_in_colon size ≡ false
      → Line s
  instruction :
      (name : Bytes) (args : List Bytes)
      → words s ≡ name ∷ args
      → words (commas_to_spaces s) ≡ name ∷ map drop_comma args
      → ends_in_colon s ≡ false
      → ends_in_colon name ≡ false
      → ends_in_colon (last_word name (map drop_comma args)) ≡ false
      → equal name (codes ".skip") ≡ false
      → AllOperands args
      → Line s

abbrev pub AllLines : List Bytes → Type 0
AllLines [] = Unit
AllLines (l ∷ ls) = Line (before b';' l) × AllLines ls
