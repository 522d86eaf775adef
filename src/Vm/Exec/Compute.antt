-- ===== src/Vm/Exec/Compute.antt =====
-- One step of `exec` of src/VM.cpp on MOV, ADD, SUB and MUL, with operands in registers or in cells
-- that a register points to.
use custom_isa_8bit_vm.Base.{Bytes, ℕ, ◌+◌, ◌≤◌, ◌≡◌, refl, ap, ◌∙◌, [], ◌∷◌, arith}
use mathlib.Core.Path.{subst}
use custom_isa_8bit_vm.Config.{ram_size}
use custom_isa_8bit_vm.Process.{to_addr}
use custom_isa_8bit_vm.Vm.State.{byte_of_type, Machine, returned, load}
use custom_isa_8bit_vm.Vm.Effects.{read_then, bind_lem}
use custom_isa_8bit_vm.Vm.Operand.{resolve_writeable_arg, fetch_argument, operand_of, write_arg}
use custom_isa_8bit_vm.Vm.Operand.Fetch.{Holds, advanced, fetch_argument_lem}
use custom_isa_8bit_vm.Vm.Alu
use custom_isa_8bit_vm.Vm.Alu.{arithmetic, add_byte, sub_byte, mul_byte}
use custom_isa_8bit_vm.Vm.Host.{Host}
use custom_isa_8bit_vm.Vm.Exec.{decode, find_instruction, execute, dispatch, step}
use custom_isa_8bit_vm.Vm.Exec.Places.{
  Place, Source, place_type, place_value, source_type, source_value, cell_of, IsInRange, IsReadable,
  contents, with_cell, read_source, load_lem, store_lem, resolve_lem, operand_lem, place-Fits,
  source-Fits, advanced-IsInRange, advanced-IsReadable, cell_of-advanced, contents-advanced,
  read_source-advanced,
}

-- The instructions by opcode, with what they compute from the old value and the operand.
pub data Computes : ℕ → (ℕ → ℕ → ℕ) → Type 0 where
  moves : Computes 0x12 (λ a b. b)
  adds : Computes 0x32 add_byte
  subtracts : Computes 0x52 sub_byte
  multiplies : Computes 0x72 mul_byte

-- The bytes of the two operands.
abbrev pub operand_bytes : Place → Source → Bytes
operand_bytes p s =
    byte_of_type (place_type p) ∷ place_value p ∷ byte_of_type (source_type s) ∷ source_value s ∷ []

module _ (p : Place) (s : Source) (m : Machine) (h : Holds m.ram m.process.pc (operand_bytes p s))
    (l : m.process.pc + 4 ≤ ram_size) where
  pub fetch_place :
      fetch_argument m
      ≡ returned (record { type = place_type p; value = place_value p }) (advanced m 2)
  fetch_place =
      fetch_argument_lem (place_type p) (place_value p ∷ []) m (place-Fits p) (h.0, (h.1.0, tt))
        (omega (arith, l))

  pub fetch_source :
      fetch_argument (advanced m 2)
      ≡ returned (record { type = source_type s; value = source_value s }) (advanced m 4)
  fetch_source =
      let start : m.process.pc + 1 + 1 ≡ m.process.pc + 2 = omega arith in
      let end : m.process.pc + 2 + 2 ≡ m.process.pc + 4 = omega arith in
      let behind : Holds m.ram (m.process.pc + 2)
          (byte_of_type (source_type s) ∷ source_value s ∷ []) =
        subst (λ a. Holds m.ram a (byte_of_type (source_type s) ∷ source_value s ∷ [])) start
          h.1.1 in
      fetch_argument_lem (source_type s) (source_value s ∷ []) (advanced m 2) (source-Fits s) behind
        (omega (arith, l))
      ∙ ap
          (λ q.
            returned (record { type = source_type s; value = source_value s })
              (record m { process = record m.process { pc = q } }))
          end

  module _ (k : IsInRange p m) (r : IsReadable s m) where
    read_lem :
        operand_of (source_type s) (source_value s) (advanced m 4)
        ≡ returned (read_source s m) (advanced m 4)
    read_lem =
        operand_lem s (advanced m 4) (advanced-IsReadable m 4 s r)
        ∙ ap (λ v. returned v (advanced m 4)) (read_source-advanced m 4 s)

    place_lem :
        resolve_writeable_arg (place_type p) (place_value p) (advanced m 4)
        ≡ returned (cell_of p m) (advanced m 4)
    place_lem =
        resolve_lem p (advanced m 4) (advanced-IsInRange m 4 p k)
        ∙ ap (λ c. returned c (advanced m 4)) (cell_of-advanced m 4 p)

    mov_lem : Alu.mov m ≡ returned tt (with_cell (cell_of p m) (read_source s m) (advanced m 4))
    unfolding Alu.mov write_arg
    mov_lem =
        bind_lem fetch_argument _ m fetch_place
        ∙ bind_lem fetch_argument _ (advanced m 2) fetch_source
        ∙ bind_lem (operand_of (source_type s) (source_value s)) _ (advanced m 4) read_lem
        ∙ bind_lem (resolve_writeable_arg (place_type p) (place_value p)) _ (advanced m 4) place_lem
        ∙ store_lem (cell_of p m) (read_source s m) (advanced m 4)

    arithmetic_lem :
        (op : ℕ → ℕ → ℕ)
        → arithmetic op m
          ≡ returned tt (
              with_cell
                (cell_of p m)
                (op (contents (cell_of p m) m) (read_source s m))
                (advanced m 4))
    unfolding arithmetic
    arithmetic_lem op =
        bind_lem fetch_argument _ m fetch_place
        ∙ bind_lem fetch_argument _ (advanced m 2) fetch_source
        ∙ bind_lem (operand_of (source_type s) (source_value s)) _ (advanced m 4) read_lem
        ∙ bind_lem (resolve_writeable_arg (place_type p) (place_value p)) _ (advanced m 4) place_lem
        ∙ bind_lem (load (cell_of p m)) _ (advanced m 4) (load_lem (cell_of p m) (advanced m 4))
        ∙ store_lem (cell_of p m) _ (advanced m 4)
        ∙ ap (λ v. returned tt (with_cell (cell_of p m) (op v (read_source s m)) (advanced m 4)))
            (contents-advanced m 4 (cell_of p m))

-- What the instruction does with the operands.
handled :
    (opcode : ℕ) (op : ℕ → ℕ → ℕ) (host : Host) (row : ℕ) (p : Place) (s : Source) (m : Machine)
    → Computes opcode op
    → Holds m.ram m.process.pc (operand_bytes p s)
    → m.process.pc + 4 ≤ ram_size
    → IsInRange p m
    → IsReadable s m
    → dispatch host row opcode (decode opcode) m
      ≡ returned tt
          (with_cell (cell_of p m) (op (contents (cell_of p m) m) (read_source s m)) (advanced m 4))
unfolding decode find_instruction dispatch execute Alu.add Alu.sub Alu.mul
handled opcode op host row p s m moves h l k r = mov_lem p s m h l k r
handled opcode op host row p s m adds h l k r = arithmetic_lem p s m h l k r add_byte
handled opcode op host row p s m subtracts h l k r = arithmetic_lem p s m h l k r sub_byte
handled opcode op host row p s m multiplies h l k r = arithmetic_lem p s m h l k r mul_byte

-- Where the opcode of MOV, ADD, SUB or MUL stands at the program counter with the bytes of its two
-- operands behind it, all in the RAM, the first operand a register or a cell that a register points
-- to, and the second one of these or a byte: a step writes the new value modulo 256 in the first
-- operand, moves the program counter behind the five bytes, and changes nothing else.
pub step-Computes :
    (host : Host) (row opcode : ℕ) (op : ℕ → ℕ → ℕ) (p : Place) (s : Source) (m : Machine)
    → Computes opcode op
    → Holds m.ram m.process.pc (opcode ∷ operand_bytes p s)
    → m.process.pc + 5 ≤ ram_size
    → IsInRange p m
    → IsReadable s m
    → step host row m
      ≡ returned tt
          (with_cell (cell_of p m) (op (contents (cell_of p m) m) (read_source s m)) (advanced m 5))
unfolding step
step-Computes host row opcode op p s m c h l k r =
    let next : to_addr (m.process.pc + 1) ≡ m.process.pc + 1 = omega (arith, l) in
    let end : m.process.pc + 1 + 4 ≡ m.process.pc + 5 = omega arith in
    read_then m.process.pc _ m (omega (arith, l))
    ∙ rw (h.0, next)
        (handled opcode op host row p s (advanced m 1) c h.1 (omega (arith, l))
            (advanced-IsInRange m 1 p k) (advanced-IsReadable m 1 s r)
          ∙ rw
              (
                cell_of-advanced m 1 p,
                contents-advanced m 1 (cell_of p m),
                read_source-advanced m 1 s,
                end,
              )
              refl)
