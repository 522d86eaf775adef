-- ===== src/Assembler/Encode.antt =====
-- `instruction_to_opcode` of src/Assembler.cpp: the code of one instruction.
pub mod Fetch
use custom_isa_8bit_vm.Base.{
  ltb, ◌==◌, if◌then◌else◌, length, Bytes, equal, ℕ, ◌/◌, ◌%◌, ◌^◌, Bool, true, false, ◌&&◌, ◌||◌,
  Option, none, some, List, [], ◌∷◌, ◌++◌,
}
use custom_isa_8bit_vm.Vm.State.{
  ArgType, number, register, address, indirect_reg, indirect_mem, indirect_lbl, number_16, other,
  byte_of_type,
}
use custom_isa_8bit_vm.Exception.{
  Result, ok, err, ◌>>=◌, invalid_mnemonic, label_not_found, non_existant_register,
}
use custom_isa_8bit_vm.Isa.{InstructionTable, RegisterMap, find_opcode, find_register}
use custom_isa_8bit_vm.Base.{ℤ, pos, negsuc, to_byte}
use custom_isa_8bit_vm.Assembler.Text.{is_digit, front, contains, inside, from_chars, stoi, stoull}

-- `addresses_of_labels`; an assignment stands in front of the older ones.
abbrev pub Labels : Type 0
Labels = List (Bytes × ℕ)

unfoldable pub find_label : Labels → Bytes → Option ℕ
unfolding equal
find_label [] name = none
find_label ((label, addr) ∷ rest) name =
    if equal label name then some addr else find_label rest name

abbrev pub is_some {ℓ} : {A : Type ℓ} → Option A → Bool
is_some none = false
is_some (some a) = true

-- The type of an argument in brackets, by what stands between them.
unfoldable pub bracket_type : RegisterMap → Bytes → ArgType
bracket_type registers inner =
    if is_some (find_register registers inner)
    then indirect_reg
    else if is_digit (front inner) || front inner == b'-'
    then indirect_mem
    else indirect_lbl

-- The type of an argument that does not begin with an `int`.
unfoldable pub text_type : RegisterMap → Bytes → ArgType
unfolding bracket_type
text_type registers arg =
    if contains b'[' arg && contains b']' arg
    then bracket_type registers (inside arg)
    else if is_digit (front arg) || (front arg == b'-' && ltb 1 (length arg))
    then number
    else if is_some (find_register registers arg)
    then register
    else address

abbrev pub number_type : ℤ → ArgType
number_type (pos n) = if ltb 255 n then number_16 else number
number_type (negsuc n) = number

unfoldable pub type_of_arg : RegisterMap → Bytes → ArgType
unfolding text_type
type_of_arg registers arg = elim (from_chars arg) [
  | some temp ↦ number_type temp
  | none ↦ text_type registers arg
]

-- The two bytes of a `MemAddr`, the high one first.
abbrev pub address_bytes : ℕ → Bytes
address_bytes addr = (addr / 256 % 256) ∷ (addr % 256) ∷ []

unfoldable pub label_bytes : Option ℕ → Bytes → Result Bytes
label_bytes none name = err (label_not_found name)
label_bytes (some addr) name = ok (address_bytes (addr % 2 ^ 16))

unfoldable pub register_bytes : Option ℕ → Result Bytes
register_bytes none = err non_existant_register
register_bytes (some code) = ok (code ∷ [])

-- `val >> 8` of an `int`, which rounds down.
abbrev pub shift_right_8 : ℤ → ℤ
shift_right_8 (pos n) = pos (n / 256)
shift_right_8 (negsuc n) = negsuc (n / 256)

-- The bytes behind the type byte. `val >> 8` and `val` are taken modulo 256 of an `int`.
unfoldable pub value_bytes : RegisterMap → Labels → ArgType → Bytes → Result Bytes
unfolding label_bytes register_bytes
value_bytes registers labels address arg = label_bytes (find_label labels arg) arg
value_bytes registers labels indirect_lbl arg =
    label_bytes (find_label labels (inside arg)) (inside arg)
value_bytes registers labels indirect_mem arg = do
  addr ← stoull (inside arg)
  ok (address_bytes (addr % 2 ^ 16))
value_bytes registers labels register arg = register_bytes (find_register registers arg)
value_bytes registers labels indirect_reg arg =
    register_bytes (find_register registers (inside arg))
value_bytes registers labels number arg = do n ← stoi arg; ok (to_byte n ∷ [])
value_bytes registers labels number_16 arg = do
  n ← stoi arg
  ok (to_byte (shift_right_8 n) ∷ to_byte n ∷ [])
value_bytes registers labels (other b) arg = ok []

-- The code of the arguments, in order.
unfoldable pub encode_args : RegisterMap → Labels → List Bytes → Result Bytes
unfolding value_bytes type_of_arg
encode_args registers labels [] = ok []
encode_args registers labels (arg ∷ args) = do
  value ← value_bytes registers labels (type_of_arg registers arg) arg
  rest ← encode_args registers labels args
  ok (byte_of_type (type_of_arg registers arg) ∷ (value ++ rest))

-- `instruction_to_opcode` on the mnemonic and its arguments, at a line.
unfoldable pub instruction_to_opcode :
    InstructionTable → RegisterMap → ℕ → Bytes → List Bytes → Labels → Result Bytes
unfolding encode_args
instruction_to_opcode table registers line name args labels =
    elim (find_opcode table name (length args)) [
      | none ↦ err (invalid_mnemonic line name)
      | some opcode ↦ encode_args registers labels args >>= λ codes. ok (opcode ∷ codes)
    ]
