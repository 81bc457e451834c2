-- ===== src/Mips.antt =====
-- The MIPS instruction set simulator, mips/iss/src.
mod Tests
pub mod Opcode
pub mod Machine
pub mod State
pub mod Execute
pub mod Run
pub mod Encode
pub mod Fields
pub mod Isa
pub mod Loader
pub mod Main
pub mod Compare
pub mod Generator
