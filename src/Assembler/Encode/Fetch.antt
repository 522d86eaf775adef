-- ===== src/Assembler/Encode/Fetch.antt =====
-- What `instruction_to_opcode` writes for the arguments of an instruction, and what the machine's
-- `fetch_argument` reads there.
use custom_isa_8bit_vm.Base.{
  Option, length, length-append, Bytes, ℕ, ◌+◌, ◌≤◌, ◌≡◌, refl, sym, ap, ◌∙◌, true, false, none,
  some, List, [], ◌∷◌, ◌++◌, map, Bool, arith, zero, suc,
}
use custom_isa_8bit_vm.Base.{ℤ, pos, negsuc}
use mathlib.Core.Path.{subst}
use custom_isa_8bit_vm.Config.{ram_size}
use custom_isa_8bit_vm.Exception.{ok, >>=-eq-ok, ok-injective}
use custom_isa_8bit_vm.Isa.{RegisterMap, find_register}
use custom_isa_8bit_vm.Vm.State.{
  ArgType, number, register, address, indirect_reg, indirect_mem, indirect_lbl, number_16, other,
  RawArgument, Machine, returned, M, ◌>>=◌, pure, byte_of_type,
}
use custom_isa_8bit_vm.Vm.Effects.{bind_lem}
use custom_isa_8bit_vm.Vm.Operand.{fetch_argument}
use custom_isa_8bit_vm.Vm.Operand.Fetch.{
  Holds, IsEncoded, Fits, value_of, advanced, fetch_argument_lem,
}
use custom_isa_8bit_vm.Assembler.Text.{from_chars, stoi, stoull, inside}
use custom_isa_8bit_vm.Assembler.Encode.{
  Labels, find_label, bracket_type, text_type, number_type, type_of_arg, label_bytes,
  register_bytes, value_bytes, encode_args,
}

abbrev is_other : ArgType → Bool
is_other (other b) = true
is_other _ = false

pub IsEncoded-not_other : (t : ArgType) → is_other t ≡ false → IsEncoded t
IsEncoded-not_other (other b) e = cc
IsEncoded-not_other number e = tt
IsEncoded-not_other register e = tt
IsEncoded-not_other address e = tt
IsEncoded-not_other indirect_reg e = tt
IsEncoded-not_other indirect_mem e = tt
IsEncoded-not_other indirect_lbl e = tt
IsEncoded-not_other number_16 e = tt

text_type-not_other : (rs : RegisterMap) (s : Bytes) → is_other (text_type rs s) ≡ false
unfolding text_type bracket_type
text_type-not_other rs s = ground arith

number_type-not_other : (n : ℤ) → is_other (number_type n) ≡ false
number_type-not_other (pos n) = ground arith
number_type-not_other (negsuc n) = refl

pub type_of_arg-not_other : (rs : RegisterMap) (s : Bytes) → is_other (type_of_arg rs s) ≡ false
unfolding type_of_arg
type_of_arg-not_other rs s = by_prefix (from_chars s) refl
  where
    by_prefix : (found : Option ℤ) → from_chars s ≡ found → is_other (type_of_arg rs s) ≡ false
    by_prefix none e = rw (e, is_other) (text_type-not_other rs s)
    by_prefix (some n) e = rw (e, is_other) (number_type-not_other n)

label_bytes-length :
    (found : _) (s : Bytes) {bytes : Bytes} → label_bytes found s ≡ ok bytes → length bytes ≡ 2
unfolding label_bytes
label_bytes-length none s e = cc
label_bytes-length (some a) s e = ap length (sym (ok-injective e))

register_bytes-length :
    (found : _) {bytes : Bytes} → register_bytes found ≡ ok bytes → length bytes ≡ 1
unfolding register_bytes
register_bytes-length none e = cc
register_bytes-length (some a) e = ap length (sym (ok-injective e))

pub value_bytes-Fits :
    (rs : RegisterMap) (labels : Labels) (t : ArgType) (s : Bytes) {bytes : Bytes}
    → IsEncoded t
    → value_bytes rs labels t s ≡ ok bytes
    → Fits t bytes
unfolding value_bytes
value_bytes-Fits rs labels address s h e = (tt, label_bytes-length (find_label labels s) s e)
value_bytes-Fits rs labels indirect_lbl s h e =
    (tt, label_bytes-length (find_label labels (inside s)) (inside s) e)
value_bytes-Fits rs labels indirect_mem s h e =
    let (a, f, g) = >>=-eq-ok (stoull (inside s)) _ e in (tt, ap length (sym (ok-injective g)))
value_bytes-Fits rs labels register s h e = (tt, register_bytes-length (find_register rs s) e)
value_bytes-Fits rs labels indirect_reg s h e =
    (tt, register_bytes-length (find_register rs (inside s)) e)
value_bytes-Fits rs labels number s h e =
    let (a, f, g) = >>=-eq-ok (stoi s) _ e in (tt, ap length (sym (ok-injective g)))
value_bytes-Fits rs labels number_16 s h e =
    let (a, f, g) = >>=-eq-ok (stoi s) _ e in (tt, ap length (sym (ok-injective g)))
value_bytes-Fits rs labels (other b) s h e = absurd h

Holds-append :
    (f : ℕ → ℕ) (a : ℕ) (xs ys : Bytes)
    → Holds f a (xs ++ ys)
    → Holds f a xs × Holds f (a + length xs) ys
Holds-append f a [] ys h = (tt, subst (λ x. Holds f x ys) (omega arith) h)
Holds-append f a (x ∷ xs) ys h =
    let (k, l) = Holds-append f (a + 1) xs ys h.1 in
    ((h.0, k), subst (λ x. Holds f x ys) (omega arith) l)

-- As many arguments in a row.
unfoldable pub fetch_arguments : ℕ → M (List RawArgument)
fetch_arguments zero = pure []
fetch_arguments (suc n) = do arg ← fetch_argument; rest ← fetch_arguments n; pure (arg ∷ rest)

-- What the machine fetches: arguments of the types that the assembler gave, up to the end of the
-- bytes.
pub record Fetched (types : List ArgType) (n : ℕ) (m : Machine) : Type 0 where
  pub raw : List RawArgument
  pub same : fetch_arguments (length types) m ≡ returned raw (advanced m n)
  pub types_are : map (λ (r : RawArgument). r.type) raw ≡ types

Fetched-cons :
    (t : ArgType) (value : Bytes) (types : List ArgType) (n : ℕ) (m : Machine)
    → fetch_argument m
      ≡ returned (record { type = t; value = value_of value }) (advanced m (1 + length value))
    → Fetched types n (advanced m (1 + length value))
    → Fetched (t ∷ types) (1 + length value + n) m
unfolding fetch_arguments
Fetched-cons t value types n m e rest =
    let sum : m.process.pc + (1 + length value) + n ≡ m.process.pc + (1 + length value + n) =
      omega arith in
    record {
      raw = record { type = t; value = value_of value } ∷ rest.raw;
      same =
          bind_lem fetch_argument _ m e
          ∙ bind_lem (fetch_arguments (length types)) _ _ rest.same
          ∙ rw sum;
      types_are = ap (λ ts. t ∷ ts) rest.types_are;
    }

Fetched-append :
    (t : ArgType) (value : Bytes) (types : List ArgType) (rest : Bytes) (m : Machine)
    → Fits t value
    → Holds m.ram m.process.pc (byte_of_type t ∷ (value ++ rest))
    → m.process.pc + length (byte_of_type t ∷ (value ++ rest)) ≤ ram_size
    → (Holds m.ram (m.process.pc + (1 + length value)) rest
        → Fetched types (length rest) (advanced m (1 + length value)))
    → Fetched (t ∷ types) (length (byte_of_type t ∷ (value ++ rest))) m
Fetched-append t value types rest m f h l later =
    let n = length-append value rest in
    let (front, behind) = Holds-append m.ram (m.process.pc + 1) value rest h.1 in
    let start : m.process.pc + 1 + length value ≡ m.process.pc + (1 + length value) = omega arith in
    let sum : 1 + length value + length rest ≡ suc (length (value ++ rest)) = omega arith in
    subst (λ k. Fetched (t ∷ types) k m) sum
      (Fetched-cons t value types (length rest) m
        (fetch_argument_lem t value m f (h.0, front) (omega arith))
        (later (subst (λ x. Holds m.ram x rest) start behind)))

-- Wherever in the RAM the assembled arguments of an instruction stand, with the program counter at
-- the first byte, the machine fetches as many arguments, of the types that the assembler gave them,
-- and the program counter then stands behind the last byte.
pub encode_args-Fetched :
    (rs : RegisterMap) (labels : Labels) (args : List Bytes) {bytes : Bytes} (m : Machine)
    → encode_args rs labels args ≡ ok bytes
    → Holds m.ram m.process.pc bytes
    → m.process.pc + length bytes ≤ ram_size
    → Fetched (map (type_of_arg rs) args) (length bytes) m
unfolding encode_args fetch_arguments
encode_args-Fetched rs labels [] {bytes} m e h l =
    let none_left : bytes ≡ [] = sym (ok-injective e) in
    let pc : m.process.pc ≡ m.process.pc + 0 = omega arith in
    rw none_left (record {
      raw = [];
      same = ap (λ (x : ℕ). returned [] (record m { process = record m.process { pc = x } })) pc;
      types_are = refl;
    })
encode_args-Fetched rs labels (s ∷ args) {bytes} m e h l =
    let t = type_of_arg rs s in
    let (value, found, e') = >>=-eq-ok (value_bytes rs labels t s) _ e in
    let (rest, more, e'') = >>=-eq-ok (encode_args rs labels args) _ e' in
    let same : bytes ≡ byte_of_type t ∷ (value ++ rest) = sym (ok-injective e'') in
    let count = length-append value rest in
    let there : Holds m.ram m.process.pc (byte_of_type t ∷ (value ++ rest)) = rw same at h in
    let inside_ram : m.process.pc + suc (length (value ++ rest)) ≤ ram_size = rw same at l in
    let room : m.process.pc + (1 + length value) + length rest ≤ ram_size =
      omega (arith, count, inside_ram) in
    rw same (
      Fetched-append t value (map (type_of_arg rs) args) rest m
        (value_bytes-Fits rs labels t s (IsEncoded-not_other t (type_of_arg-not_other rs s)) found)
        there inside_ram
        (λ k. encode_args-Fetched rs labels args (advanced m (1 + length value)) more k room))
