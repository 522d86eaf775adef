-- ===== src/Assembler/Text.antt =====
-- What custom-isa-8bit-vm/src/Assembler.cpp uses of the C++ library to read text: lines, words and
-- numbers, in the C locale, on bytes.
use custom_isa_8bit_vm.Base.{
  ltb, leb, ◌==◌, if◌then◌else◌, drop, Bytes, ℕ, ◌+◌, ◌-◌, ◌*◌, ◌%◌, ◌^◌, Bool, false, not, ◌&&◌,
  ◌||◌, Option, none, some, List, [], ◌∷◌, ◌++◌,
}
use custom_isa_8bit_vm.Exception.{Result, ok, err, invalid_argument, out_of_range}
use custom_isa_8bit_vm.Base.{ℤ, pos, sub_ℕ}

-- `std::getline` until it fails: the text behind the last newline is a line if it is not empty.
unfoldable pub lines_from : Bytes → Bytes → List Bytes
lines_from [] [] = []
lines_from (c ∷ acc) [] = (c ∷ acc) ∷ []
lines_from acc (c ∷ text) =
    let ended = lines_from [] text in
    let going = lines_from (acc ++ c ∷ []) text in if c == b'\n' then acc ∷ ended else going

unfoldable pub lines : Bytes → List Bytes
unfolding lines_from
lines = lines_from []

-- `line.substr(0, line.find(c))`, the whole line where `c` does not occur.
unfoldable pub before : ℕ → Bytes → Bytes
before c [] = []
before c (d ∷ line) = if d == c then [] else d ∷ before c line

-- `std::isspace`
abbrev pub is_space : ℕ → Bool
is_space c = c == b' ' || (leb 9 c && leb c 13)

abbrev pub is_digit : ℕ → Bool
is_digit c = leb b'0' c && leb c b'9'

abbrev pub is_alpha : ℕ → Bool
is_alpha c = (leb b'A' c && leb c b'Z') || (leb b'a' c && leb c b'z')

-- `stream >> token` until it fails.
unfoldable pub words_from : Bytes → Bytes → List Bytes
words_from [] [] = []
words_from (c ∷ acc) [] = (c ∷ acc) ∷ []
words_from [] (c ∷ text) = words_from (if is_space c then [] else c ∷ []) text
words_from (d ∷ acc) (c ∷ text) =
    let ended = words_from [] text in
    let going = words_from (d ∷ (acc ++ c ∷ [])) text in
    if is_space c then (d ∷ acc) ∷ ended else going

unfoldable pub words : Bytes → List Bytes
unfolding words_from
words = words_from []

-- `s[0]`, which is the terminator for an empty string.
abbrev pub front : Bytes → ℕ
front [] = 0
front (c ∷ s) = c

-- `s.back()` of a string that is not empty; 0 for an empty one.
unfoldable pub back : Bytes → ℕ
back [] = 0
back (c ∷ []) = c
back (c ∷ d ∷ s) = back (d ∷ s)

-- `s.pop_back()`
unfoldable pub pop_back : Bytes → Bytes
pop_back [] = []
pop_back (c ∷ []) = []
pop_back (c ∷ d ∷ s) = c ∷ pop_back (d ∷ s)

unfoldable pub contains : ℕ → Bytes → Bool
contains c [] = false
contains c (d ∷ s) = d == c || contains c s

-- `s.substr(1, s.size() - 2)` for a string of two bytes or more.
unfoldable pub inside : Bytes → Bytes
unfolding pop_back
inside s = pop_back (drop 1 s)

-- The longest prefix of digits, and its value.
unfoldable pub take_digits : Bytes → Bytes
take_digits [] = []
take_digits (c ∷ s) = if is_digit c then c ∷ take_digits s else []

unfoldable pub digits_value : ℕ → Bytes → ℕ
digits_value acc [] = acc
digits_value acc (c ∷ s) = digits_value (acc * 10 + (c - b'0')) s

-- The number that the text begins with, if it begins with a digit.
unfoldable pub prefix_number : Bytes → Option ℕ
unfolding take_digits digits_value
prefix_number s = elim (take_digits s) [ [] ↦ none | c ∷ ds ↦ some (digits_value 0 (c ∷ ds)) ]

abbrev pub negative : ℕ → ℤ
negative n = sub_ℕ 0 n

-- `std::from_chars` into an `int`: an optional minus and digits; none if there are no digits or the
-- number does not fit.
unfoldable pub from_chars : Bytes → Option ℤ
unfolding prefix_number
from_chars s =
    if front s == b'-'
    then elim (prefix_number (drop 1 s)) [
      | none ↦ none
      | some n ↦ if leb n (2 ^ 31) then some (negative n) else none
    ]
    else elim (prefix_number s) [
      | none ↦ none
      | some n ↦ if ltb n (2 ^ 31) then some (pos n) else none
    ]

-- The text behind an optional sign.
abbrev pub unsigned : Bytes → Bytes
unsigned s = if front s == b'-' || front s == b'+' then drop 1 s else s

-- `std::stoi` on a word: it throws where there is no number, and where the number does not fit.
unfoldable pub stoi : Bytes → Result ℤ
unfolding prefix_number
stoi s = elim (prefix_number (unsigned s)) [
  | none ↦ err invalid_argument
  | some n ↦
      if front s == b'-'
      then (if leb n (2 ^ 31) then ok (negative n) else err out_of_range)
      else (if ltb n (2 ^ 31) then ok (pos n) else err out_of_range)
]

-- `std::stoull` on a word; a minus negates modulo 2 ^ 64.
unfoldable pub stoull : Bytes → Result ℕ
unfolding prefix_number
stoull s = elim (prefix_number (unsigned s)) [
  | none ↦ err invalid_argument
  | some n ↦
      if not (ltb n (2 ^ 64))
      then err out_of_range
      else if front s == b'-'
      then ok ((2 ^ 64 - n) % 2 ^ 64)
      else ok n
]
