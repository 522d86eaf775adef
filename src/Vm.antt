-- ===== src/Vm.antt =====
-- custom-isa-8bit-vm/src/VM.cpp, a module for each part of the class.
pub mod State
pub mod Effects
pub mod Operand
pub mod Alu
pub mod Stack
pub mod Control
pub mod Heap
pub mod Host
pub mod Framebuffer
pub mod Exec
pub mod Invariant
