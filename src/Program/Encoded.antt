-- ===== src/Program/Encoded.antt =====
-- What src/Assembler.cpp makes of the lines that change the tape.
use custom_isa_8bit_vm.Base.{
  le→ltb, length, Bytes, codes, equal, ℕ, suc, ◌%◌, ◌<◌, ◌≡◌, refl, ◌∙◌, some, List, [], ◌∷◌, arith,
}
use custom_isa_8bit_vm.Base.{pos}
use custom_isa_8bit_vm.Assembler.Text.{from_chars, contains, inside, stoi}
use custom_isa_8bit_vm.Exception.{ok}
use custom_isa_8bit_vm.Isa.{instruction_table, register_map, find_opcode, find_register}
use custom_isa_8bit_vm.Vm.State.{byte_of_type, ArgType, number, register, indirect_reg}
use custom_isa_8bit_vm.Assembler.Encode.{
  Labels, encode_args, value_bytes, type_of_arg, text_type, instruction_to_opcode,
}
use custom_isa_8bit_vm.Assembler.Passes.Operand.{type_of_arg-some}
use custom_isa_8bit_vm.Assembler.Passes.Wide.{from_chars-stoi}
use custom_isa_8bit_vm.Vm.Exec.Compute.{operand_bytes}
use custom_isa_8bit_vm.Brainfvck.Format.{format_int, decimal}
use custom_isa_8bit_vm.Brainfvck.Format.Decimal.{from_chars-format_int, decimal_from-front}
use custom_isa_8bit_vm.Program.TapeLines.{
  TapeLine, up, down, raise, lower, times_b, times_c, keep_b, clear, keep_c, add_b, sub_b, add_c,
  place, source, opcode, IsByteLine, operands, name, code_of,
}

module _ (labels : Labels) (n : ℕ) (h : n < 256) where
  number_operand : encode_args register_map labels (format_int (pos n) ∷ []) ≡ ok (0 ∷ n ∷ [])
  unfolding encode_args value_bytes byte_of_type format_int decimal
  number_operand =
      let digits = from_chars-format_int (pos n) (omega (arith, h)) in
      let kind : type_of_arg register_map (format_int (pos n)) ≡ number =
        type_of_arg-some register_map (format_int (pos n)) (pos n) digits
        ∙ rw (le→ltb 255 n (omega (arith, h))) refl in
      let value =
        from_chars-stoi (format_int (pos n)) n (decimal_from-front (suc n) n [] (omega arith))
          digits in
      let small : n % 256 ≡ n = omega (arith, h) in rw (kind, value, small) refl

encode_args-cons :
    (labels : Labels) (t : Bytes) (rest : List Bytes) (type : ArgType) (v : ℕ) (bytes : Bytes)
    → type_of_arg register_map t ≡ type
    → value_bytes register_map labels type t ≡ ok (v ∷ [])
    → encode_args register_map labels rest ≡ ok bytes
    → encode_args register_map labels (t ∷ rest) ≡ ok (byte_of_type type ∷ v ∷ bytes)
unfolding encode_args
encode_args-cons labels t rest type v bytes e f g = rw (e, f, g) refl

module _ (labels : Labels) where
  encode_args-operands :
      (l : TapeLine)
      → IsByteLine l
      → encode_args register_map labels (operands l) ≡ ok (operand_bytes (place l) (source l))
  unfolding encode_args register_map value_bytes find_register from_chars contains text_type
      byte_of_type inside stoi equal
  encode_args-operands (up n) h =
      encode_args-cons labels (codes "A") (format_int (pos n) ∷ []) register 1 (0 ∷ n ∷ []) refl
        refl (number_operand labels n h)
  encode_args-operands (down n) h =
      encode_args-cons labels (codes "A") (format_int (pos n) ∷ []) register 1 (0 ∷ n ∷ []) refl
        refl (number_operand labels n h)
  encode_args-operands (raise n) h =
      encode_args-cons labels (codes "[A]") (format_int (pos n) ∷ []) indirect_reg 1 (0 ∷ n ∷ [])
        refl refl (number_operand labels n h)
  encode_args-operands (lower n) h =
      encode_args-cons labels (codes "[A]") (format_int (pos n) ∷ []) indirect_reg 1 (0 ∷ n ∷ [])
        refl refl (number_operand labels n h)
  encode_args-operands (times_b n) h =
      encode_args-cons labels (codes "B") (format_int (pos n) ∷ []) register 2 (0 ∷ n ∷ []) refl
        refl (number_operand labels n h)
  encode_args-operands (times_c n) h =
      encode_args-cons labels (codes "C") (format_int (pos n) ∷ []) register 3 (0 ∷ n ∷ []) refl
        refl (number_operand labels n h)
  encode_args-operands keep_b h = refl
  encode_args-operands clear h = refl
  encode_args-operands keep_c h = refl
  encode_args-operands add_b h = refl
  encode_args-operands sub_b h = refl
  encode_args-operands add_c h = refl

pub find_opcode-name :
    (l : TapeLine) → find_opcode instruction_table (name l) (length (operands l)) ≡ some (opcode l)
unfolding find_opcode instruction_table equal
find_opcode-name (up n) = refl
find_opcode-name (down n) = refl
find_opcode-name (raise n) = refl
find_opcode-name (lower n) = refl
find_opcode-name (times_b n) = refl
find_opcode-name (times_c n) = refl
find_opcode-name keep_b = refl
find_opcode-name clear = refl
find_opcode-name keep_c = refl
find_opcode-name add_b = refl
find_opcode-name sub_b = refl
find_opcode-name add_c = refl

-- The assembler makes the code of a line of its name and operands.
pub instruction_to_opcode-code_of :
    (line : ℕ) (labels : Labels) (l : TapeLine)
    → IsByteLine l
    → instruction_to_opcode instruction_table register_map line (name l) (operands l) labels
      ≡ ok (code_of l)
unfolding instruction_to_opcode
instruction_to_opcode-code_of line labels l h =
    rw (find_opcode-name l, encode_args-operands labels l h, instruction_to_opcode) refl
