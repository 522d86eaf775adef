-- ===== src/Assembler/Passes.antt =====
-- The two passes of `asm_to_opcodes` in src/Assembler.cpp against each other, on well-formed lines.
pub mod Source
pub mod Operand
pub mod Size
pub mod Lines
pub mod Count
pub mod Block
pub mod Address
pub mod Wide
