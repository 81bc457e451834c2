-- ===== src/Riscv/Run.antt =====
mod Keep
mod Frame
pub mod Cycle
pub mod Loop
pub mod Hang
-- Fetch and dispatch of risc-v/iss/src/sim.c, and the loops of main.c that drive them.
use simple_cpu.Base.{
  ℕ, zero, suc, ◌+◌, true, false, ◌||◌, Option, none, some, ◌>>=◌, u32, ◌==◌, if◌then◌else◌,
  bit_and,
}
use simple_cpu.Driver
use simple_cpu.Driver.{Outcome}
use simple_cpu.Riscv.Machine.{Simulator, mem_read_32}
use simple_cpu.Riscv.Opcode
use simple_cpu.Riscv.Execute.Register.{decode_r}
use simple_cpu.Riscv.Execute.Immediate.{decode_i}
use simple_cpu.Riscv.Execute.Transfer.{decode_s, decode_b, decode_u, decode_j}

-- `R_TYPE` to `J_TYPE`, and -1.
pub data InstrType : Type 0 where
  r_type i_type s_type b_type u_type j_type no_type : InstrType

-- The type, and `RUN_BIT`, which an unknown opcode clears.
unfoldable pub decode_instr_type : ℕ → Simulator → InstrType × Simulator
decode_instr_type instr_opcode s =
    let opcode = bit_and instr_opcode 0x7f in
    if opcode == 0x33
    then (r_type, s)
    else if opcode == 0x13 || opcode == 0x03
    then (i_type, s)
    else if opcode == 0x23
    then (s_type, s)
    else if opcode == 0x63
    then (b_type, s)
    else if opcode == Opcode.auipc || opcode == Opcode.lui
    then (u_type, s)
    else if opcode == 0x6f
    then (j_type, s)
    else (no_type, record s { run_bit = false })

-- The chain of tests on `type`.
unfoldable pub dispatch : InstrType → ℕ → Simulator → Option Simulator
dispatch r_type w s = some (decode_r w s)
dispatch i_type w s = decode_i w s
dispatch s_type w s = decode_s w s
dispatch b_type w s = some (decode_b w s)
dispatch u_type w s = some (decode_u w s)
dispatch j_type w s = some (decode_j w s)
dispatch no_type w s = some (record s { run_bit = false })

-- `none` is an access outside an allocated block.
unfoldable pub process_instruction : Simulator → Option Simulator
process_instruction s = do
  w ← mem_read_32 s.mem s.current.pc
  let (type, s') = decode_instr_type w (record s { instr_opcode = w })
  done ← dispatch type w s'
  some (record done { instr_count = u32 (done.instr_count + 1) })

unfoldable pub cycle : Simulator → Option Simulator
cycle s = do
  done ← process_instruction s
  some (record done { current = done.next; instruction_count = u32 (done.instruction_count + 1) })

abbrev pub run : ℕ → Simulator → Outcome Simulator
run = Driver.run (λ s. s.run_bit) cycle

abbrev pub go : ℕ → Simulator → Outcome Simulator
go = Driver.go (λ s. s.run_bit) cycle
