-- ===== src/Riscv.antt =====
-- The RISC-V instruction set simulator, risc-v/iss/src.
mod Tests
pub mod Opcode
pub mod Machine
pub mod State
pub mod Execute
pub mod Run
pub mod Loader
pub mod Main
pub mod Compare
pub mod Encode
pub mod Isa
pub mod Fields
pub mod Generator
