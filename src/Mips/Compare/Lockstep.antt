-- ===== src/Mips/Compare/Lockstep.antt =====
-- The checks along a run: on every clock, the test bench of mips/mips-single-cycle lets the
-- simulator run one cycle and calls the check of the instruction's type with what it observed.
use simple_cpu.Base.{ℕ, List, [], ◌∷◌, Bool, Option, none, some, if◌then◌else◌, ◌/◌, ◌%◌, ◌^◌}
use simple_cpu.Driver.{Outcome, returned, exited, ◌>>=◌}
use simple_cpu.Mips.Machine.{CpuState, Simulator}
use simple_cpu.Mips.Isa.{
  Instr, shift, alu, jr, jalr, mul, div, divu, mfhi, mflo, mthi, mtlo, syscall, alu_imm, lui, load,
  store, branch, branch_sign, j, jal, sign_links, is_shift,
}
use simple_cpu.Mips.Isa.Code.{encode, sign_rt}
use simple_cpu.Mips.Run.{run}
use simple_cpu.Mips.Compare.{compare_r, compare_i, compare_j}

-- The arguments of a call, by the function called.
pub data Report : Type 0 where
  r_report : (pc instr rd rs rt rd_val rs_val rt_val : ℕ) → Report
  i_report : (pc instr rs rt rs_val rt_val : ℕ) → Report
  j_report : (pc instr rt rt_val : ℕ) → Report

unfoldable pub check : Report → Simulator → Bool × Simulator
check (r_report pc instr rd rs rt rd_val rs_val rt_val) s =
    compare_r pc instr rd rs rt rd_val rs_val rt_val s
check (i_report pc instr rs rt rs_val rt_val) s = compare_i pc instr rs rt rs_val rt_val s
check (j_report pc instr rt rt_val) s = compare_j pc instr rt rt_val s

-- The reports that are still to come, `none` for an instruction of no type: `$fatal` ends the
-- process.
unfoldable pub lockstep : List (Option Report) → Simulator → Outcome Simulator
lockstep [] s = returned s
lockstep (none ∷ rs) s = run 1 s >>= λ t. exited t
lockstep (some r ∷ rs) s =
    run 1 s >>= λ t. let (ok, u) = check r t in if ok then lockstep rs u else exited u

-- What is observed of an instruction that leads from one processor state to another: the sources
-- before it, the destination after it. A shift by a field has rt for both sources, and so has one
-- by a register. A link names register 31 in place of rd and rt, that of `jalr` too.
abbrev pub report : Instr → CpuState → CpuState → Report
report (shift op rd rt n) b a =
    r_report b.pc (encode (shift op rd rt n)) rd rt rt (a.regs rd) (b.regs rt) (b.regs rt)
report (alu op rd rs rt) b a =
    let r = if is_shift (alu op rd rs rt) then rt else rs in
    r_report b.pc (encode (alu op rd rs rt)) rd r rt (a.regs rd) (b.regs r) (b.regs rt)
report (jr rd rs) b a = r_report b.pc (encode (jr rd rs)) rd rs 0 (a.regs rd) (b.regs rs) (b.regs 0)
report (jalr rd rs) b a =
    r_report b.pc (encode (jalr rd rs)) 31 rs 31 (a.regs 31) (b.regs rs) (b.regs 31)
report (mul op rd rs rt) b a =
    r_report b.pc (encode (mul op rd rs rt)) rd rs rt (a.regs rd) (b.regs rs) (b.regs rt)
report (div rd rs rt) b a =
    r_report b.pc (encode (div rd rs rt)) rd rs rt (a.regs rd) (b.regs rs) (b.regs rt)
report (divu rd rs rt) b a =
    r_report b.pc (encode (divu rd rs rt)) rd rs rt (a.regs rd) (b.regs rs) (b.regs rt)
report (mfhi rd) b a = r_report b.pc (encode (mfhi rd)) rd 0 0 (a.regs rd) (b.regs 0) (b.regs 0)
report (mflo rd) b a = r_report b.pc (encode (mflo rd)) rd 0 0 (a.regs rd) (b.regs 0) (b.regs 0)
report (mthi rd rs) b a =
    r_report b.pc (encode (mthi rd rs)) rd rs 0 (a.regs rd) (b.regs rs) (b.regs 0)
report (mtlo rd rs) b a =
    r_report b.pc (encode (mtlo rd rs)) rd rs 0 (a.regs rd) (b.regs rs) (b.regs 0)
report syscall b a = r_report b.pc (encode syscall) 0 0 0 (a.regs 0) (b.regs 0) (b.regs 0)
report (alu_imm op rt rs imm) b a =
    i_report b.pc (encode (alu_imm op rt rs imm)) rs rt (b.regs rs) (a.regs rt)
report (lui rt imm) b a = i_report b.pc (encode (lui rt imm)) 0 rt (b.regs 0) (a.regs rt)
report (load op rt rs imm) b a =
    i_report b.pc (encode (load op rt rs imm)) rs rt (b.regs rs) (a.regs rt)
report (store op rt rs imm) b a =
    i_report b.pc (encode (store op rt rs imm)) rs rt (b.regs rs) (a.regs rt)
report (branch op rs rt imm) b a =
    i_report b.pc (encode (branch op rs rt imm)) rs rt (b.regs rs) (a.regs rt)
report (branch_sign op rs imm) b a =
    let rt = if sign_links op then 31 else sign_rt op in
    i_report b.pc (encode (branch_sign op rs imm)) rs rt (b.regs rs) (a.regs rt)
report (j target) b a =
    let rt = target / 2 ^ 16 % 2 ^ 5 in j_report b.pc (encode (j target)) rt (a.regs rt)
report (jal target) b a = j_report b.pc (encode (jal target)) 31 (a.regs 31)
