-- ===== src/Assembler.antt =====
-- custom-isa-8bit-vm/src/Assembler.cpp: a text of instructions, labels and `.skip` directives to code.
pub mod Text
pub mod Encode
pub mod Layout
pub mod Emit
pub mod Passes
