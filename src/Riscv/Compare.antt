-- ===== src/Riscv/Compare.antt =====
-- The checks of a step of the hardware against the simulator, risc-v/iss/src/sim.c. Every argument is
-- the bit pattern of an `int`. A check gives its result and the state after it.
use simple_cpu.Base.{ℕ, Bool, true, false, not, ◌>>>◌, ◌==◌, if◌then◌else◌, bit_and}
pub mod Laws
pub mod Lockstep
mod Accept
pub mod Run
use simple_cpu.Riscv.Machine.{Simulator}

-- The arm of a failed comparison: `RUN_BIT = 0` and `return 0`.
abbrev pub mismatch : Simulator → Bool × Simulator
mismatch s = (false, record s { run_bit = false })

-- The end of a check: `prev_pc = CURRENT_STATE.PC` and `return 1`.
abbrev pub matched : Simulator → Bool × Simulator
matched s = (true, record s { prev_pc = s.current.pc })

unfoldable pub compare_r : ℕ → ℕ → ℕ → ℕ → ℕ → ℕ → ℕ → ℕ → Simulator → Bool × Simulator
compare_r pc instr rd rs1 rs2 rd_val rs1_val rs2_val s =
    let instr_model = s.instr_opcode in
    let rs1_model = bit_and (instr_model >>> 15) 0x1f in
    let rs2_model = bit_and (instr_model >>> 20) 0x1f in
    let rd_model = bit_and (instr_model >>> 7) 0x1f in
    let rs1_val_model = s.current.regs rs1_model in
    let rs2_val_model = s.current.regs rs2_model in
    let rd_val_model = s.current.regs rd_model in
    let rs1_seen = if rs1 == rd then rd_val else rs1_val in
    let rs2_seen = if rs2 == rd then rd_val else rs2_val in
    if not (s.prev_pc == pc)
    then mismatch s
    else if not (instr == instr_model)
    then mismatch s
    else if not (rd == rd_model)
    then mismatch s
    else if not (rs1 == rs1_model)
    then mismatch s
    else if not (rs2 == rs2_model)
    then mismatch s
    else if not (rd_val == rd_val_model)
    then mismatch s
    else if not (rs1_seen == rs1_val_model)
    then mismatch s
    else if not (rs2_seen == rs2_val_model)
    then mismatch s
    else matched s

unfoldable pub compare_i : ℕ → ℕ → ℕ → ℕ → ℕ → ℕ → Simulator → Bool × Simulator
compare_i pc instr rd rs1 rd_val rs1_val s =
    let instr_model = s.instr_opcode in
    let rd_model = bit_and (instr_model >>> 7) 0x1f in
    let rs1_model = bit_and (instr_model >>> 15) 0x1f in
    let rd_val_model = s.current.regs rd_model in
    let rs1_val_model = s.current.regs rs1_model in
    let rs1_seen = if rs1 == rd then rd_val else rs1_val in
    if not (s.prev_pc == pc)
    then mismatch s
    else if not (instr == instr_model)
    then mismatch s
    else if not (rs1 == rs1_model)
    then mismatch s
    else if not (rd == rd_model)
    then mismatch s
    else if not (rd_val == rd_val_model)
    then mismatch s
    else if not (rs1_seen == rs1_val_model)
    then mismatch s
    else matched s

unfoldable pub compare_s : ℕ → ℕ → ℕ → ℕ → ℕ → ℕ → Simulator → Bool × Simulator
compare_s pc instr rs1 rs2 rs1_val rs2_val s =
    let instr_model = s.instr_opcode in
    let rs1_model = bit_and (instr_model >>> 15) 0x1f in
    let rs2_model = bit_and (instr_model >>> 20) 0x1f in
    let rs1_val_model = s.current.regs rs1_model in
    let rs2_val_model = s.current.regs rs2_model in
    if not (s.prev_pc == pc)
    then mismatch s
    else if not (instr == instr_model)
    then mismatch s
    else if not (rs1 == rs1_model)
    then mismatch s
    else if not (rs2 == rs2_model)
    then mismatch s
    else if not (rs2_val == rs2_val_model)
    then mismatch s
    else if not (rs1_val == rs1_val_model)
    then mismatch s
    else matched s

unfoldable pub compare_b : ℕ → ℕ → ℕ → ℕ → ℕ → ℕ → Simulator → Bool × Simulator
compare_b pc instr rs1 rs2 rs1_val rs2_val s =
    let instr_model = s.instr_opcode in
    let rs1_model = bit_and (instr_model >>> 15) 0x1f in
    let rs2_model = bit_and (instr_model >>> 20) 0x1f in
    let rs1_val_model = s.current.regs rs1_model in
    let rs2_val_model = s.current.regs rs2_model in
    if not (s.prev_pc == pc)
    then mismatch s
    else if not (instr == instr_model)
    then mismatch s
    else if not (rs1 == rs1_model)
    then mismatch s
    else if not (rs2 == rs2_model)
    then mismatch s
    else if not (rs2_val == rs2_val_model)
    then mismatch s
    else if not (rs1_val == rs1_val_model)
    then mismatch s
    else matched s

unfoldable pub compare_u : ℕ → ℕ → ℕ → ℕ → Simulator → Bool × Simulator
compare_u pc instr rd rd_val s =
    let instr_model = s.instr_opcode in
    let rd_model = bit_and (instr_model >>> 7) 0x1f in
    let rd_val_model = s.current.regs rd_model in
    if not (s.prev_pc == pc)
    then mismatch s
    else if not (instr == instr_model)
    then mismatch s
    else if not (rd == rd_model)
    then mismatch s
    else if not (rd_val == rd_val_model)
    then mismatch s
    else matched s

unfoldable pub compare_j : ℕ → ℕ → ℕ → ℕ → Simulator → Bool × Simulator
compare_j pc instr rd rd_val s =
    let instr_model = s.instr_opcode in
    let rd_model = bit_and (instr_model >>> 7) 0x1f in
    let rd_val_model = s.current.regs rd_model in
    if not (s.prev_pc == pc)
    then mismatch s
    else if not (instr == instr_model)
    then mismatch s
    else if not (rd == rd_model)
    then mismatch s
    else if not (rd_val == rd_val_model)
    then mismatch s
    else matched s
