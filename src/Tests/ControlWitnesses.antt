-- ===== src/Tests/ControlWitnesses.antt =====
-- The theorems on operands, jumps, calls, decoding, the loop and the framebuffer, applied.
use custom_isa_8bit_vm.Base.{codes, ℕ, ◌+◌, ◌≡◌, refl, [], ◌∷◌, arith}
use custom_isa_8bit_vm.Config.{framebuffer_tot_size}
use custom_isa_8bit_vm.Exception.{invalid_opcode}
use custom_isa_8bit_vm.Isa.{find_opcode, instruction_table}
use custom_isa_8bit_vm.Tests.Machines.{quiet, twenty_bytes, machine, zeros, comparison, gui_ram}
use custom_isa_8bit_vm.Vm.State.{
  Machine, number, register, address, returned, thrown, undefined, ◌>>◌, update, word, byte_of_type,
  framebuffer_start, get_gui,
}
use custom_isa_8bit_vm.Vm.Operand.{fetch_argument, operand_of}
use custom_isa_8bit_vm.Vm.Operand.Fetch.{fetch_argument_lem, advanced, value_of}
use custom_isa_8bit_vm.Vm.Alu.{cmp}
use custom_isa_8bit_vm.Vm.Control.{call_target, ret}
use custom_isa_8bit_vm.Vm.Control.Call.{called, ret-call}
use custom_isa_8bit_vm.Vm.Control.Compare.{compared}
use custom_isa_8bit_vm.Vm.Exec.Mnemonic.{handlers, find_handler, step-find_opcode}
use custom_isa_8bit_vm.Vm.Exec.Branch.{if_greater, jump_opcode, taken, jumped, cmp-jumps}
use custom_isa_8bit_vm.Vm.Exec.{step, exec}
use custom_isa_8bit_vm.Vm.Exec.Halts.{ended, exec-halts}
use custom_isa_8bit_vm.Vm.Exec.Decode.{step-invalid_opcode}
use custom_isa_8bit_vm.Vm.Framebuffer.{set_pixel, convert}
use custom_isa_8bit_vm.Vm.Framebuffer.Pixel.{set_pixel-register_unchecked}
use custom_isa_8bit_vm.Vm.Framebuffer.Sync.{Painted, convert-Painted, convert-undefined}

abbrev with_label : Machine
with_label = machine (update (update (update zeros 2 2) 3 1) 4 44) 2020

fetch_argument_lem_example :
    fetch_argument with_label
    ≡ returned (record { type = address; value = value_of (1 ∷ 44 ∷ []) }) (advanced with_label 3)
unfolding byte_of_type
fetch_argument_lem_example =
    fetch_argument_lem address (1 ∷ 44 ∷ []) with_label (tt, refl) (refl, (refl, (refl, tt)))
      (omega arith)

ret-call_example :
    (call_target address 9 (machine zeros 2020) ≡ returned tt (called 9 (machine zeros 2020)))
    × (ret (called 9 (machine zeros 2020))
        ≡ returned tt (record (called 9 (machine zeros 2020)) { process = twenty_bytes 2020 }))
ret-call_example =
    ret-call (machine zeros 2020)
      (record { above_limit = omega arith; below_top = omega arith; in_ram = omega arith }) 9
      (called 9 (machine zeros 2020)) (omega arith) (omega arith)
      (record { sp_back = refl; region = refl; high_kept = refl; low_kept = refl })

abbrev compares : Machine
compares = machine comparison 2020

cmp-jumps_example :
    (step quiet 1 >> step quiet (1 + 1)) compares
    ≡ returned tt (jumped (taken if_greater 5 3) (word 0 20) (compared 5 3 (advanced compares 5)))
unfolding operand_of byte_of_type jump_opcode
cmp-jumps_example =
    cmp-jumps quiet 1 if_greater (record { type = number; value = 5 })
      (record { type = number; value = 3 }) 5 3 0 20 compares (advanced compares 3)
      (advanced compares 5) (advanced compares 5) (advanced compares 5) (omega arith) refl
      (fetch_argument_lem number (5 ∷ []) (advanced compares 1) (tt, refl) (refl, (refl, tt))
        (omega arith))
      (fetch_argument_lem number (3 ∷ []) (advanced compares 3) (tt, refl) (refl, (refl, tt))
        (omega arith))
      refl refl (refl, (refl, (refl, (refl, tt)))) (omega arith)

step-find_opcode_example : step quiet 1 compares ≡ cmp (advanced compares 1)
unfolding find_opcode instruction_table find_handler handlers
step-find_opcode_example =
    step-find_opcode quiet 1 compares (codes "CMP") 2 cmp (omega arith) refl refl

abbrev bad_byte : Machine
bad_byte = machine (update zeros 2 5) 2020

step-invalid_opcode_example :
    step quiet 7 bad_byte
    ≡ thrown
        (invalid_opcode 7 5)
        (record bad_byte { process = record (twenty_bytes 2020) { pc = 3 } })
step-invalid_opcode_example = step-invalid_opcode quiet 7 bad_byte (omega arith) (omega arith)

abbrev screen : Machine
screen = machine gui_ram 2020

abbrev index_in_registers : Machine
index_in_registers = record screen { registers = λ i. 16 }

set_pixel-register_unchecked_example :
    set_pixel
      (record { type = register; value = 1 })
      (record { type = number; value = 3 })
      index_in_registers
    ≡ undefined
unfolding get_gui
set_pixel-register_unchecked_example =
    set_pixel-register_unchecked index_in_registers refl 1 3 (omega arith) (omega arith)
      (omega arith)

convert-Painted_example : Painted 3 0 screen
convert-Painted_example = convert-Painted 3 0 screen (omega arith) (omega arith)

abbrev off_palette : Machine
off_palette = machine (update gui_ram (framebuffer_start + 1) 8) 2020

convert-undefined_example : convert framebuffer_tot_size 0 off_palette ≡ undefined
convert-undefined_example =
    convert-undefined framebuffer_tot_size 0 1 off_palette (omega arith) (omega arith) (omega arith)
      (omega arith)

-- Two bytes that are 0 at the program counter, and HALT behind them.
abbrev halting_ram : ℕ → ℕ
halting_ram = update zeros 4 0xFF

exec-halts_example :
    exec quiet 9 (machine halting_ram 2020) ≡ returned tt (ended (machine halting_ram 2020))
unfolding get_gui
exec-halts_example =
    exec-halts quiet 2 5 (machine halting_ram 2020)
      (record {
        running = refl;
        zeros = λ i l. ground arith;
        stop = refl;
        in_code = omega arith;
        in_ram = omega arith;
      })
      refl (omega arith)
