-- ===== src/Brainfvck.antt =====
-- custom-isa-8bit-vm/src/Brainfvck.cpp: from Brainfvck to assembly, with two optimisers.
pub mod Format
pub mod Translate
pub mod RunLength
pub mod LoopShape
pub mod LoopReplace
pub mod Compile
