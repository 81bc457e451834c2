-- ===== src/Mips/Generator.antt =====
-- The generator of test programs, mips/hex_gen/src: it makes one instruction after the other, and runs
-- each on the simulator to know where the next one goes.
pub mod State
pub mod Check
pub mod Emit
pub mod Tame
pub mod Recorded
pub mod Invariant
pub mod Room
pub mod Random
pub mod Choices
pub mod Mix
pub mod Ends
pub mod Program
pub mod EndSeq
pub mod Files
pub mod Arguments
mod Tests
pub mod Print
pub mod Api
pub mod Directed
