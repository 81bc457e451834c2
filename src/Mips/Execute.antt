-- ===== src/Mips/Execute.antt =====
-- The instructions of mips/iss/src/sim.c.
pub mod Register
pub mod Special
pub mod Branch
pub mod Immediate
pub mod Access
pub mod Jump
pub mod Laws
pub mod Division
