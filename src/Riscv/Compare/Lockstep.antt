-- ===== src/Riscv/Compare/Lockstep.antt =====
-- The checks along a run: the test bench of risc-v/riscv-pipeline retires an instruction, lets the
-- simulator run one cycle, and calls the check of the instruction's type with what it observed.
use simple_cpu.Base.{ℕ, List, [], ◌∷◌, Bool, Option, none, some, if◌then◌else◌, ◌+◌, ◌==◌}
use simple_cpu.Driver.{Outcome, returned, exited, ◌>>=◌}
use simple_cpu.Riscv.Machine.{CpuState, Simulator}
use simple_cpu.Riscv.Isa.{Instr, alu, alu_imm, jalr, load, store, branch, lui, auipc, jal}
use simple_cpu.Riscv.Isa.Code.{encode}
use simple_cpu.Riscv.Run.{run}
use simple_cpu.Riscv.Compare.{compare_r, compare_i, compare_s, compare_b, compare_u, compare_j}

-- The arguments of a call, by the function called.
pub data Report : Type 0 where
  r_report : (pc instr rd rs1 rs2 rd_val rs1_val rs2_val : ℕ) → Report
  i_report : (pc instr rd rs1 rd_val rs1_val : ℕ) → Report
  s_report b_report : (pc instr rs1 rs2 rs1_val rs2_val : ℕ) → Report
  u_report j_report : (pc instr rd rd_val : ℕ) → Report

unfoldable pub check : Report → Simulator → Bool × Simulator
check (r_report pc instr rd rs1 rs2 rd_val rs1_val rs2_val) s =
    compare_r pc instr rd rs1 rs2 rd_val rs1_val rs2_val s
check (i_report pc instr rd rs1 rd_val rs1_val) s = compare_i pc instr rd rs1 rd_val rs1_val s
check (s_report pc instr rs1 rs2 rs1_val rs2_val) s = compare_s pc instr rs1 rs2 rs1_val rs2_val s
check (b_report pc instr rs1 rs2 rs1_val rs2_val) s = compare_b pc instr rs1 rs2 rs1_val rs2_val s
check (u_report pc instr rd rd_val) s = compare_u pc instr rd rd_val s
check (j_report pc instr rd rd_val) s = compare_j pc instr rd rd_val s

-- The reports that are still to come, `none` for an instruction of no type, after so many that were
-- retired: `$fatal` ends the process, and `$finish` the test after 200.
unfoldable pub lockstep : List (Option Report) → ℕ → Simulator → Outcome Simulator
lockstep [] instr_count s = returned s
lockstep (none ∷ rs) instr_count s = run 1 s >>= λ t. exited t
lockstep (some r ∷ rs) instr_count s = run 1 s >>= λ t.
    let (ok, u) = check r t in
    if ok
    then (if instr_count + 1 == 200 then returned u else lockstep rs (instr_count + 1) u)
    else exited u

-- What is observed of an instruction that leads from one processor state to another: the sources
-- before it, the destination after it.
abbrev pub report : Instr → CpuState → CpuState → Report
report (alu op rd rs1 rs2) b a =
    r_report b.pc (encode (alu op rd rs1 rs2)) rd rs1 rs2 (a.regs rd) (b.regs rs1) (b.regs rs2)
report (alu_imm op rd rs1 imm) b a =
    i_report b.pc (encode (alu_imm op rd rs1 imm)) rd rs1 (a.regs rd) (b.regs rs1)
report (jalr rd rs1 imm) b a =
    i_report b.pc (encode (jalr rd rs1 imm)) rd rs1 (a.regs rd) (b.regs rs1)
report (load op rd rs1 imm) b a =
    i_report b.pc (encode (load op rd rs1 imm)) rd rs1 (a.regs rd) (b.regs rs1)
report (store op src base imm) b a =
    s_report b.pc (encode (store op src base imm)) src base (b.regs src) (b.regs base)
report (branch op rs1 rs2 imm) b a =
    b_report b.pc (encode (branch op rs1 rs2 imm)) rs1 rs2 (b.regs rs1) (b.regs rs2)
report (lui rd imm) b a = u_report b.pc (encode (lui rd imm)) rd (a.regs rd)
report (auipc rd imm) b a = u_report b.pc (encode (auipc rd imm)) rd (a.regs rd)
report (jal rd imm) b a = j_report b.pc (encode (jal rd imm)) rd (a.regs rd)
