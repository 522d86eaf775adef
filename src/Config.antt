-- ===== src/Config.antt =====
-- The sizes of custom-isa-8bit-vm/include/VMconf.hpp, the RAM that src/VM.cpp asks for, the register
-- file of include/VMRegisters.hpp, and the colours.
use custom_isa_8bit_vm.Base.{ℕ, ◌*◌, List, [], ◌∷◌}

abbrev pub ram_size : ℕ
ram_size = 64_000

abbrev pub program_stack_size_bytes : ℕ
program_stack_size_bytes = 1000

abbrev pub program_heap_starting_size_bytes : ℕ
program_heap_starting_size_bytes = 1000

abbrev pub framebuffer_x_size : ℕ
framebuffer_x_size = 64

abbrev pub framebuffer_y_size : ℕ
framebuffer_y_size = 64

abbrev pub framebuffer_tot_size : ℕ
framebuffer_tot_size = framebuffer_x_size * framebuffer_y_size

-- `A = 1`, `B`, `C`, `D`, `COUNT`
abbrev pub register_count : ℕ
register_count = 5

abbrev pub colors : List ℕ
colors =
    0xFF00_0000 ∷ 0xFFFF_FFFF ∷ 0xFFFF_0000 ∷ 0xFF00_FF00 ∷ 0xFF00_00FF ∷ 0xFFFF_CC00 ∷ 0xFFFF_00FF
    ∷ 0xFF00_FFFF ∷ []
