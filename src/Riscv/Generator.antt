-- ===== src/Riscv/Generator.antt =====
-- The generator of test programs, risc-v/hex_gen/src: it makes one instruction after the other, and
-- runs each on the simulator to know where the next one goes.
pub mod State
pub mod Check
pub mod Emit
pub mod Fields
pub mod Choose
pub mod Mix
pub mod Arguments
mod Tests
mod Advance
mod Choices
pub mod Program
