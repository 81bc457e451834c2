-- ===== src/Mips/Compare.antt =====
-- The checks of a step of the hardware against the simulator, mips/iss/src/sim.c. Every argument is
-- the bit pattern of an `int`. A check gives its result and the state after it.
pub mod Laws
pub mod Lockstep
mod Kept
mod Accept
pub mod Run
use simple_cpu.Base.{ℕ, Bool, true, false, not, ◌>>>◌, ◌==◌, ◌&&◌, if◌then◌else◌, bit_and}
use simple_cpu.Mips.Machine.{Simulator}

-- The arm of a failed comparison: `RUN_BIT = 0` and `return 0`.
abbrev pub mismatch : Simulator → Bool × Simulator
mismatch s = (false, record s { run_bit = false })

-- The end of a check: `prev_pc = CURRENT_STATE.PC` and `return 1`.
abbrev pub matched : Simulator → Bool × Simulator
matched s = (true, record s { prev_pc = s.current.pc })

unfoldable pub compare_r : ℕ → ℕ → ℕ → ℕ → ℕ → ℕ → ℕ → ℕ → Simulator → Bool × Simulator
compare_r pc instr rd rs rt rd_val rs_val rt_val s =
    let instr_model = s.instr_opcode in
    let rt_model = bit_and (instr_model >>> 16) 0x1f in
    let rd_model = bit_and (instr_model >>> 11) 0x1f in
    let rs_model = if s.rt_as_src then rt_model else bit_and (instr_model >>> 21) 0x1f in
    let rs_val_model = s.current.regs rs_model in
    let rt_val_model = s.current.regs rt_model in
    let rd_val_model = if s.wr_link_reg then s.current.regs 31 else s.current.regs rd_model in
    let rs_seen = if rs == rd then rd_val else rs_val in
    let rt_seen = if rt == rd then rd_val else rt_val in
    if not (s.prev_pc == pc)
    then mismatch s
    else if not (instr == instr_model)
    then mismatch s
    else if not (rd == rd_model)
    then mismatch s
    else if not (rs == rs_model)
    then mismatch s
    else if not (rt == rt_model)
    then mismatch s
    else if not (rd_val == rd_val_model)
    then mismatch s
    else if not (rs_seen == rs_val_model)
    then mismatch s
    else if not (rt_seen == rt_val_model)
    then mismatch s
    else matched s

unfoldable pub compare_i : ℕ → ℕ → ℕ → ℕ → ℕ → ℕ → Simulator → Bool × Simulator
compare_i pc instr rs rt rs_val rt_val s =
    let instr_model = s.instr_opcode in
    let rs_model = bit_and (instr_model >>> 21) 0x1f in
    let rt_model = if s.wr_link_reg then 0x1f else bit_and (instr_model >>> 16) 0x1f in
    let rs_val_model = s.current.regs rs_model in
    let rt_val_model = s.current.regs rt_model in
    let rs_seen = if rs == rt then rt_val else rs_val in
    if not (s.prev_pc == pc)
    then mismatch s
    else if not (instr == instr_model)
    then mismatch s
    else if not (rs == rs_model)
    then mismatch s
    else if not (rt == rt_model)
    then mismatch s
    else if not (rs_seen == rs_val_model)
    then mismatch s
    else if not (rt_val == rt_val_model)
    then mismatch s
    else matched s

-- The register counts only if the jump links.
unfoldable pub compare_j : ℕ → ℕ → ℕ → ℕ → Simulator → Bool × Simulator
compare_j pc instr rt rt_val s =
    let instr_model = s.instr_opcode in
    let rt_model = if s.wr_link_reg then 0x1f else bit_and (instr_model >>> 16) 0x1f in
    let rt_val_model = s.current.regs rt_model in
    if not (s.prev_pc == pc)
    then mismatch s
    else if not (instr == instr_model)
    then mismatch s
    else if s.wr_link_reg && not (rt == rt_model)
    then mismatch s
    else if s.wr_link_reg && not (rt_val == rt_val_model)
    then mismatch s
    else matched s
