-- ===== src/Assembler/Passes/Size.antt =====
-- The bytes that the first pass of src/Assembler.cpp counts for a line and those that the second
-- writes.
use custom_isa_8bit_vm.Base.{
  length, length-append, Bytes, ℕ, suc, ◌+◌, ◌%◌, ◌≡◌, refl, sym, ap, Bool, true, false, Option,
  none, some, List, [], ◌∷◌, ◌++◌, map, arith,
}
use custom_isa_8bit_vm.Exception.{ok, >>=-eq-ok, ok-injective}
use custom_isa_8bit_vm.Isa.{InstructionTable, RegisterMap, find_opcode}
use custom_isa_8bit_vm.Vm.State.{
  ArgType, number, register, address, indirect_reg, indirect_mem, indirect_lbl, number_16, other,
  byte_of_type,
}
use custom_isa_8bit_vm.Vm.Operand.Fetch.{Fits}
use custom_isa_8bit_vm.Assembler.Text.{front}
use custom_isa_8bit_vm.Assembler.Encode.{
  Labels, bracket_type, text_type, type_of_arg, value_bytes, encode_args, instruction_to_opcode,
}
use custom_isa_8bit_vm.Assembler.Encode.Fetch.{
  value_bytes-Fits, IsEncoded-not_other, type_of_arg-not_other,
}
use custom_isa_8bit_vm.Assembler.Layout.{
  Layout, size_mod, drop_comma, arg_size, args_size, instruction_line,
}
use custom_isa_8bit_vm.Assembler.Passes.Source.{
  Named, Operand, small_number, bracketed, named, AllOperands,
}
use custom_isa_8bit_vm.Assembler.Passes.Operand.{
  layout_type-Operand, type_of_arg-none, type_of_arg-some, letter,
}

abbrev is_wide : ArgType → Bool
is_wide number_16 = true
is_wide _ = false

arg_size-Fits :
    (t : ArgType) (bytes : Bytes) → Fits t bytes → is_wide t ≡ false → arg_size t ≡ 1 + length bytes
arg_size-Fits number bytes h e = omega (arith, h.1)
arg_size-Fits register bytes h e = omega (arith, h.1)
arg_size-Fits address bytes h e = omega (arith, h.1)
arg_size-Fits indirect_reg bytes h e = omega (arith, h.1)
arg_size-Fits indirect_mem bytes h e = omega (arith, h.1)
arg_size-Fits indirect_lbl bytes h e = omega (arith, h.1)
arg_size-Fits number_16 bytes h e = cc
arg_size-Fits (other b) bytes h e = absurd h.0

text_type-not_wide : (rs : RegisterMap) (s : Bytes) → is_wide (text_type rs s) ≡ false
unfolding text_type bracket_type
text_type-not_wide rs s = ground arith

type_of_arg-not_wide :
    (rs : RegisterMap) (s : Bytes) → Operand s → is_wide (type_of_arg rs s) ≡ false
type_of_arg-not_wide rs s (small_number z d e f) = rw (type_of_arg-some rs s z e, f) refl
type_of_arg-not_wide rs s (bracketed d e) =
    rw (type_of_arg-none rs s (rw d refl) (rw d refl)) (text_type-not_wide rs s)
type_of_arg-not_wide rs s (named d e) =
    let (no_digit, no_minus) = letter (front s) d in
    rw (type_of_arg-none rs s no_digit no_minus) (text_type-not_wide rs s)

length-map : (f : Bytes → Bytes) (xs : List Bytes) → length (map f xs) ≡ length xs
length-map f [] = refl
length-map f (x ∷ xs) = ap suc (length-map f xs)

module _ (rs : RegisterMap) (named_registers : Named rs) (labels known : Labels)
    (named_labels : Named known) where
  args_size-encode_args :
      (args : List Bytes) {bytes : Bytes}
      → AllOperands args
      → encode_args rs labels (map drop_comma args) ≡ ok bytes
      → args_size rs known args ≡ ok (length bytes)
  unfolding args_size encode_args
  args_size-encode_args [] h e = ap (λ b. ok (length b)) (ok-injective e)
  args_size-encode_args (arg ∷ args) {bytes} h e =
      let s = drop_comma arg in
      let t = type_of_arg rs s in
      let (value, found, e') = >>=-eq-ok (value_bytes rs labels t s) _ e in
      let (rest, more, e'') = >>=-eq-ok (encode_args rs labels (map drop_comma args)) _ e' in
      let size =
        arg_size-Fits t value
          (value_bytes-Fits rs labels t s (IsEncoded-not_other t (type_of_arg-not_other rs s))
            found)
          (type_of_arg-not_wide rs s h.0) in
      let count = length-append value rest in
      let same : bytes ≡ byte_of_type t ∷ (value ++ rest) = sym (ok-injective e'') in
      let sum : arg_size t + length rest ≡ suc (length (value ++ rest)) =
        omega (arith, size, count) in
      rw
        (
          layout_type-Operand rs known named_registers named_labels s h.0,
          args_size-encode_args args h.1 more,
          same,
        )
        (ap ok sum)

  pub instruction_line-instruction_to_opcode :
      (table : InstructionTable) (line : ℕ) (name : Bytes) (args : List Bytes) (l : Layout)
      {l' : Layout} {code : Bytes}
      → l.labels ≡ known
      → AllOperands args
      → instruction_line table rs name args l ≡ ok l'
      → instruction_to_opcode table rs line name (map drop_comma args) labels ≡ ok code
      → l' ≡ record l {
        dimension = (l.dimension + length code) % size_mod;
        line_number = l.line_number + 1;
      }
  unfolding instruction_line instruction_to_opcode
  instruction_line-instruction_to_opcode table line name args l {l'} {code} k h e f =
      by_opcode (find_opcode table name (length args)) refl
    where
      by_opcode :
          (found : Option ℕ)
          → find_opcode table name (length args) ≡ found
          → l' ≡ record l {
            dimension = (l.dimension + length code) % size_mod;
            line_number = l.line_number + 1;
          }
      by_opcode none g =
          let f' = rw (length-map drop_comma args, g, instruction_to_opcode) at f in cc
      by_opcode (some opcode) g =
          let f' = rw (length-map drop_comma args, g, instruction_to_opcode) at f in
          let (bytes, more, f'') = >>=-eq-ok (encode_args rs labels (map drop_comma args)) _ f' in
          let e' = rw (k, args_size-encode_args args h more, g) at e in
          let same : code ≡ opcode ∷ bytes = sym (ok-injective f'') in
          let sum : suc (length bytes) ≡ 1 + length bytes = omega arith in
          rw same (rw sum (sym (ok-injective e')))
