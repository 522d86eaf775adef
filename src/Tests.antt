-- ===== src/Tests.antt =====
-- Runs of the definitions on concrete inputs.
mod Machines
mod Witnesses
mod ControlWitnesses
mod MemoryWitnesses
mod CompilerWitnesses
mod AssemblerWitnesses
mod ProgramWitnesses
mod OptimizerWitnesses
mod Runs
