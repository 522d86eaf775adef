-- ===== src/Brainfvck/Format.antt =====
-- `std::to_string`, `std::format` and `starts_with`, as custom-isa-8bit-vm/src/Brainfvck.cpp uses them.
pub mod Decimal
use custom_isa_8bit_vm.Base.{
  ltb, ◌==◌, if◌then◌else◌, Bytes, ℕ, zero, suc, ◌+◌, ◌/◌, ◌%◌, Bool, true, false, ◌&&◌, [], ◌∷◌,
}
use custom_isa_8bit_vm.Base.{ℤ, pos, negsuc}

-- The decimal digits of a number; the fuel bounds their count.
unfoldable pub decimal_from : ℕ → ℕ → Bytes → Bytes
decimal_from zero n acc = acc
decimal_from (suc fuel) n acc =
    let more = decimal_from fuel (n / 10) ((b'0' + n % 10) ∷ acc) in
    if ltb n 10 then (b'0' + n) ∷ acc else more

-- A number has fewer digits than its successor says.
unfoldable pub decimal : ℕ → Bytes
unfolding decimal_from
decimal n = decimal_from (suc n) n []

unfoldable pub format_int : ℤ → Bytes
unfolding decimal
format_int (pos n) = decimal n
format_int (negsuc n) = b'-' ∷ decimal (suc n)

unfoldable pub starts_with : Bytes → Bytes → Bool
starts_with line [] = true
starts_with [] (c ∷ prefix) = false
starts_with (d ∷ line) (c ∷ prefix) = d == c && starts_with line prefix
