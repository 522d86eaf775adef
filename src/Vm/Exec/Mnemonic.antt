-- ===== src/Vm/Exec/Mnemonic.antt =====
-- The instruction table of src/main.cpp against the switch of `exec` in src/VM.cpp.
use custom_isa_8bit_vm.Base.{
  ◌==◌, ◌&&◌, if◌then◌else◌, Bool-cases, equal, Bytes, codes, ℕ, ◌+◌, ◌<◌, ◌≡◌, refl, sym, ap, ◌∙◌,
  inl, inr, Option, none, some, List, [], ◌∷◌, arith,
}
use custom_isa_8bit_vm.Config.{ram_size}
use custom_isa_8bit_vm.Process.{to_addr}
use custom_isa_8bit_vm.Isa.{InstructionSignature, InstructionTable, instruction_table, find_opcode}
use custom_isa_8bit_vm.Vm.State.{Machine, M, pure}
use custom_isa_8bit_vm.Vm.Effects.{read_then}
use custom_isa_8bit_vm.Vm.Operand.Fetch.{advanced}
use custom_isa_8bit_vm.Vm.Host.{Host}
use custom_isa_8bit_vm.Vm.Exec.{step, decode, find_instruction, dispatch, execute}
use custom_isa_8bit_vm.Vm.Alu
use custom_isa_8bit_vm.Vm.Stack
use custom_isa_8bit_vm.Vm.Control
use custom_isa_8bit_vm.Vm.Heap
use custom_isa_8bit_vm.Vm.Framebuffer

-- What the instructions are to do, by mnemonic and number of arguments.
abbrev pub Handlers : Type 0
Handlers = List (InstructionSignature × M (Unit {0}))

abbrev pub row_of : Bytes → ℕ → M (Unit {0}) → InstructionSignature × M (Unit {0})
row_of name n_args handler = (record { name = name; n_args = n_args }, handler)

unfoldable pub handlers : Host → Handlers
handlers host =
    row_of (codes "NOP") 0 (pure tt)
    ∷ row_of (codes "MOV") 2 Alu.mov
    ∷ row_of (codes "PRINT") 1 Alu.print_value
    ∷ row_of (codes "PRINTFLUSH") 0 Alu.print_flush
    ∷ row_of (codes "ADD") 2 Alu.add
    ∷ row_of (codes "SUB") 2 Alu.sub
    ∷ row_of (codes "MUL") 2 Alu.mul
    ∷ row_of (codes "DIV") 2 Alu.div
    ∷ row_of (codes "INPUT") 1 Framebuffer.input
    ∷ row_of (codes "JMP") 1 Control.jmp
    ∷ row_of (codes "CMP") 2 Alu.cmp
    ∷ row_of (codes "JE") 1 Control.je
    ∷ row_of (codes "JNE") 1 Control.jne
    ∷ row_of (codes "JG") 1 Control.jg
    ∷ row_of (codes "JNG") 1 Control.jng
    ∷ row_of (codes "SPUSH") 1 Stack.spush_instruction
    ∷ row_of (codes "SPOP") 1 Stack.spop_instruction
    ∷ row_of (codes "HALLOC") 2 Heap.halloc
    ∷ row_of (codes "HFREE") 1 Heap.hfree
    ∷ row_of (codes "CALL") 1 Control.call
    ∷ row_of (codes "RET") 0 Control.ret
    ∷ row_of (codes "FBSET") 2 Framebuffer.fbset
    ∷ row_of (codes "FBSYNC") 0 (Framebuffer.fbsync host)
    ∷ row_of (codes "HALT") 0 Control.halt
    ∷ []

unfoldable pub find_handler : Handlers → Bytes → ℕ → Option (M (Unit {0}))
find_handler [] name n_args = none
find_handler ((sig, handler) ∷ rest) name n_args =
    if equal sig.name name && sig.n_args == n_args
    then some handler
    else find_handler rest name n_args

some-injective {ℓ} : {A : Type ℓ} {a b : A} → some a ≡ some b → a ≡ b
some-injective e = cc

module _ (host : Host) (row : ℕ) where
  -- The two tables have the same rows, by what the switch does at the opcode.
  abbrev Agree : InstructionTable → Handlers → Type 0
  Agree [] [] = Unit
  Agree ((sig, opcode) ∷ table) ((sig', handler) ∷ rest) =
      (sig' ≡ sig) × (dispatch host row opcode (decode opcode) ≡ handler) × Agree table rest
  Agree _ _ = ⊥

  found :
      (table : InstructionTable) (rest : Handlers) (name : Bytes) (n_args opcode : ℕ)
      (handler : M (Unit {0}))
      → Agree table rest
      → find_opcode table name n_args ≡ some opcode
      → find_handler rest name n_args ≡ some handler
      → dispatch host row opcode (decode opcode) ≡ handler
  unfolding find_opcode find_handler
  found [] _ name n_args opcode handler a e f = cc
  found (_ ∷ table) [] name n_args opcode handler a e f = cc
  found ((sig, code) ∷ table) ((sig', h) ∷ rest) name n_args opcode handler a e f =
      elim (Bool-cases (equal sig.name name && sig.n_args == n_args)) [
        | inl same ↦
            let e' = rw same at e in
            let f' = rw (a.0, same) at f in
            ap (λ c. dispatch host row c (decode c)) (sym (some-injective e'))
            ∙ a.1
            ∙ some-injective f'
        | inr differs ↦
            let e' = rw differs at e in
            let f' = rw (a.0, differs) at f in found table rest name n_args opcode handler a.2 e' f'
      ]

  tables-Agree : Agree instruction_table (handlers host)
  unfolding instruction_table handlers decode find_instruction dispatch execute
  tables-Agree = (
    refl,
    refl,
    (
      refl,
      refl,
      (
        refl,
        refl,
        (
          refl,
          refl,
          (
            refl,
            refl,
            (
              refl,
              refl,
              (
                refl,
                refl,
                (
                  refl,
                  refl,
                  (
                    refl,
                    refl,
                    (
                      refl,
                      refl,
                      (
                        refl,
                        refl,
                        (
                          refl,
                          refl,
                          (
                            refl,
                            refl,
                            (
                              refl,
                              refl,
                              (
                                refl,
                                refl,
                                (
                                  refl,
                                  refl,
                                  (
                                    refl,
                                    refl,
                                    (
                                      refl,
                                      refl,
                                      (
                                        refl,
                                        refl,
                                        (
                                          refl,
                                          refl,
                                          (
                                            refl,
                                            refl,
                                            (refl, refl, (refl, refl, (refl, refl, tt))),
                                          ),
                                        ),
                                      ),
                                    ),
                                  ),
                                ),
                              ),
                            ),
                          ),
                        ),
                      ),
                    ),
                  ),
                ),
              ),
            ),
          ),
        ),
      ),
    ),
  )

-- For every mnemonic and number of arguments: where the assembler finds the opcode that stands at the
-- program counter, in the RAM, a round of the loop is the case of this instruction, behind the opcode.
pub step-find_opcode :
    (host : Host) (row : ℕ) (m : Machine) (name : Bytes) (n_args : ℕ) (handler : M (Unit {0}))
    → m.process.pc < ram_size
    → find_opcode instruction_table name n_args ≡ some (m.ram m.process.pc)
    → find_handler (handlers host) name n_args ≡ some handler
    → step host row m ≡ handler (advanced m 1)
unfolding step
step-find_opcode host row m name n_args handler l e f =
    let next : to_addr (m.process.pc + 1) ≡ m.process.pc + 1 = omega (arith, l) in
    read_then m.process.pc _ m l
    ∙ rw next refl
    ∙ ap (λ (x : M (Unit {0})). x (advanced m 1))
        (found host row instruction_table (handlers host) name n_args (m.ram m.process.pc) handler
          (tables-Agree host row) e f)
