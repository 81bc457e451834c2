-- ===== src/Mips/Generator/Check.antt =====
-- The checks of addresses in mips/hex_gen/src/hex_gen.c. Results are bit patterns of an `int`.
pub mod Laws
use simple_cpu.Base.{
  ℕ, ◌+◌, ◌-◌, ◌^◌, ◌&&◌, u32, ◌<<<◌, ◌>>>◌, slt, ltb, leb, ◌==◌, if◌then◌else◌, bit_and,
}
use simple_cpu.Extend.{shift_const, extend}
use simple_cpu.Mips.Machine.{reg}
use simple_cpu.Mips.Generator.State.{Generator}

abbrev pub mem_data_start : ℕ
mem_data_start = 0x2000

abbrev pub mem_data_size : ℕ
mem_data_size = 0x100000

-- `MEM_TEXT_START + MEM_TEXT_SIZE - 0xFF`
abbrev pub text_limit : ℕ
text_limit = 0x1fff - 0xff

-- The address, 2 for a register that is out of reach, or 0.
unfoldable pub check_ls_addr : ℕ → ℕ → Generator → ℕ
check_ls_addr rs imm g =
    let shift_val = shift_const 16 in
    let sign = bit_and imm 0x8000 >>> 15 in
    let addr = u32 (reg g.sim rs + extend sign shift_val imm) in
    if ltb mem_data_start addr && ltb addr (mem_data_start + mem_data_size)
    then addr
    else if ltb (mem_data_start + mem_data_size) (reg g.sim rs)
    then 2
    else 0

-- The target of the branch, or -1.
unfoldable pub check_brn_addr : ℕ → Generator → ℕ
check_brn_addr imm g =
    let shift_val = shift_const 14 in
    let sign = bit_and imm 0x8000 >>> 15 in
    let addr = u32 (g.sim.current.pc + 4 + extend sign shift_val (imm <<< 2)) in
    if ltb 0 addr && (leb addr text_limit && g.pc addr == 0) then addr else 2 ^ 32 - 1

-- The comparisons are those of `int`.
unfoldable pub check_j_addr : ℕ → Generator → ℕ
check_j_addr addr g = if slt 0 addr && (slt addr text_limit && g.pc addr == 0) then 1 else 0
