-- ===== src/Vm/Invariant.antt =====
-- The invariant of the methods of custom-isa-8bit-vm/src/VM.cpp.
pub mod Rules
pub mod Instructions
pub mod Devices
pub mod Run
