-- ===== src/Mips/Run.antt =====
-- Fetch and dispatch of mips/iss/src/sim.c, and the loops of main.c that drive them.
mod Frame
mod Keep
pub mod Effect
pub mod Cycle
pub mod Halt
pub mod Steady
use simple_cpu.Base.{ℕ, ◌+◌, false, ◌||◌, Option, some, ◌>>=◌, u32, ◌>>>◌, ◌==◌, if◌then◌else◌}
use simple_cpu.Driver
use simple_cpu.Driver.{Outcome}
use simple_cpu.Mips.Machine.{Simulator, mem_read_32}
use simple_cpu.Mips.Execute.Register.{decode_r}
use simple_cpu.Mips.Execute.Access.{decode_i}
use simple_cpu.Mips.Execute.Jump.{decode_j}

-- `R_TYPE`, `I_TYPE` and `J_TYPE`.
pub data InstrType : Type 0 where
  r_type i_type j_type : InstrType

unfoldable pub decode_instr_type : ℕ → InstrType
decode_instr_type instr_opcode =
    let opcode = instr_opcode >>> 26 in
    if opcode == 0 then r_type else if opcode == 2 || opcode == 3 then j_type else i_type

unfoldable pub dispatch : InstrType → ℕ → Simulator → Option Simulator
dispatch r_type w s = decode_r w s
dispatch j_type w s = some (decode_j w s)
dispatch i_type w s = decode_i w s

-- `none` is an access outside an allocated block, or a division that C leaves undefined.
unfoldable pub process_instruction : Simulator → Option Simulator
process_instruction s = do
  w ← mem_read_32 s.mem s.current.pc
  let start = record s { rt_as_src = false; wr_link_reg = false; instr_opcode = w }
  done ← dispatch (decode_instr_type w) w start
  some (record done { instr_count = u32 (done.instr_count + 1) })

unfoldable pub cycle : Simulator → Option Simulator
cycle s = do
  done ← process_instruction s
  some (record done { current = done.next; instruction_count = u32 (done.instruction_count + 1) })

abbrev pub run : ℕ → Simulator → Outcome Simulator
run = Driver.run (λ s. s.run_bit) cycle

abbrev pub go : ℕ → Simulator → Outcome Simulator
go = Driver.go (λ s. s.run_bit) cycle
