-- ===== src/Riscv/Execute.antt =====
-- The instructions of risc-v/iss/src/sim.c, one module for each `execute_` function or half of one.
pub mod Register
pub mod Immediate
pub mod Load
pub mod Transfer
