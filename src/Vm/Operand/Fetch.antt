-- ===== src/Vm/Operand/Fetch.antt =====
-- `fetch_argument` of src/VM.cpp on the bytes of an argument as src/Assembler.cpp writes them.
use custom_isa_8bit_vm.Base.{
  if◌then◌else◌, length, Bytes, ℕ, ◌+◌, ◌≤◌, ◌≡◌, refl, ◌∙◌, [], ◌∷◌, arith,
}
use custom_isa_8bit_vm.Vm.State.{
  ArgType, number, register, address, indirect_reg, indirect_mem, indirect_lbl, number_16, other,
  type_of_byte, byte_of_type, Machine, returned, word,
}
use custom_isa_8bit_vm.Process.{to_addr}
use custom_isa_8bit_vm.Config.{ram_size}
use custom_isa_8bit_vm.Vm.Operand.{fetch_argument}
use custom_isa_8bit_vm.Vm.Effects.{read_then, bind_lem}
use custom_isa_8bit_vm.Vm.Operand.{fetch_value, fetch_word, fetch_byte, is_word}

-- The bytes stand in the RAM from `a` on.
abbrev pub Holds : (ℕ → ℕ) → ℕ → Bytes → Type 0
Holds f a [] = Unit
Holds f a (b ∷ bs) = (f a ≡ b) × Holds f (a + 1) bs

-- A type that the assembler gives.
abbrev pub IsEncoded : ArgType → Type 0
IsEncoded (other b) = ⊥
IsEncoded _ = Unit

pub type_of_byte-byte_of_type : (t : ArgType) → IsEncoded t → type_of_byte (byte_of_type t) ≡ t
unfolding type_of_byte byte_of_type
type_of_byte-byte_of_type (other b) h = absurd h
type_of_byte-byte_of_type number h = refl
type_of_byte-byte_of_type _ h = refl

-- The value that bytes stand for: one byte, or two with the high one first.
abbrev pub value_of : Bytes → ℕ
value_of (b ∷ []) = b
value_of (high ∷ low ∷ []) = word high low
value_of _ = 0

-- As many value bytes as the type asks for.
abbrev pub Fits : ArgType → Bytes → Type 0
Fits t bytes = IsEncoded t × (length bytes ≡ (if is_word t then 2 else 1))

abbrev pub advanced : Machine → ℕ → Machine
advanced m n = record m { process = record m.process { pc = m.process.pc + n } }

module _ (m : Machine) where
  fetch_byte_lem :
      (b : ℕ)
      → Holds m.ram m.process.pc (b ∷ [])
      → m.process.pc + 1 ≤ ram_size
      → fetch_byte m ≡ returned b (advanced m 1)
  unfolding fetch_byte
  fetch_byte_lem b h l =
      let pc : to_addr (m.process.pc + 1) ≡ m.process.pc + 1 = omega arith in
      read_then m.process.pc _ m (omega arith) ∙ rw (h.0, pc)

  fetch_word_lem :
      (high low : ℕ)
      → Holds m.ram m.process.pc (high ∷ low ∷ [])
      → m.process.pc + 2 ≤ ram_size
      → fetch_word m ≡ returned (word high low) (advanced m 2)
  unfolding fetch_word
  fetch_word_lem high low h l =
      let pc : to_addr (m.process.pc + 2) ≡ m.process.pc + 2 = omega arith in
      read_then m.process.pc _ m (omega arith)
      ∙ read_then (m.process.pc + 1) _ m (omega arith)
      ∙ rw (h.0, h.1.0, pc)

  fetch_value_lem :
      (t : ArgType) (bytes : Bytes)
      → Fits t bytes
      → Holds m.ram m.process.pc bytes
      → m.process.pc + length bytes ≤ ram_size
      → fetch_value t m ≡ returned (value_of bytes) (advanced m (length bytes))
  unfolding fetch_value
  fetch_value_lem (other b) bytes f h l = absurd f.0
  fetch_value_lem address (high ∷ low ∷ []) f h l = fetch_word_lem high low h l
  fetch_value_lem indirect_lbl (high ∷ low ∷ []) f h l = fetch_word_lem high low h l
  fetch_value_lem indirect_mem (high ∷ low ∷ []) f h l = fetch_word_lem high low h l
  fetch_value_lem number_16 (high ∷ low ∷ []) f h l = fetch_word_lem high low h l
  fetch_value_lem number (b ∷ []) f h l = fetch_byte_lem b h l
  fetch_value_lem register (b ∷ []) f h l = fetch_byte_lem b h l
  fetch_value_lem indirect_reg (b ∷ []) f h l = fetch_byte_lem b h l
  fetch_value_lem _ _ f h l = absurd (ground arith)

-- If the byte of one of the seven types stands at the program counter, with as many bytes behind it
-- as the type asks for, all within the RAM, they are fetched as that type and the value of these
-- bytes, and the program counter moves behind them.
pub fetch_argument_lem :
    (t : ArgType) (bytes : Bytes) (m : Machine)
    → Fits t bytes
    → Holds m.ram m.process.pc (byte_of_type t ∷ bytes)
    → m.process.pc + 1 + length bytes ≤ ram_size
    → fetch_argument m
      ≡ returned (record { type = t; value = value_of bytes }) (advanced m (1 + length bytes))
unfolding fetch_argument
fetch_argument_lem t bytes m f h l =
    let pc : to_addr (m.process.pc + 1) ≡ m.process.pc + 1 = omega arith in
    let sum : m.process.pc + 1 + length bytes ≡ m.process.pc + (1 + length bytes) = omega arith in
    read_then m.process.pc _ m (omega arith)
    ∙ rw (h.0, type_of_byte-byte_of_type t f.0, pc)
        (bind_lem (fetch_value t) _ (advanced m 1) (fetch_value_lem (advanced m 1) t bytes f h.1 l)
          ∙ rw sum)
