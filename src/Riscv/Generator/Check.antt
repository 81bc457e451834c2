-- ===== src/Riscv/Generator/Check.antt =====
-- The checks of addresses and the outcome of a branch in risc-v/hex_gen/src/hex_gen.c. Results are bit
-- patterns of an `int`.
pub mod Laws
use simple_cpu.Base.{
  ℕ, ◌+◌, ◌-◌, ◌^◌, Bool, ◌&&◌, u32, ◌<<<◌, ◌>>>◌, slt, ltb, leb, ◌==◌, if◌then◌else◌, bit_and,
}
use simple_cpu.Extend.{shift_const, extend}
use simple_cpu.Riscv.Machine.{reg, mem_text_start}
use simple_cpu.Riscv.Opcode
use simple_cpu.Riscv.Generator.State.{Generator}

-- `MEM_DATA_START + MEM_DATA_SIZE`; the segment starts at 0.
abbrev pub data_limit : ℕ
data_limit = 0x1fff

-- `MEM_TEXT_START + MEM_TEXT_SIZE - 0xFF`
abbrev pub text_limit : ℕ
text_limit = 0x2000 + 0x1fff - 0xff

-- The address, 2 for a register that is out of reach, or 0.
unfoldable pub check_ls_addr : ℕ → ℕ → Generator → ℕ
check_ls_addr rs imm g =
    let shift_val = shift_const 20 in
    let sign = bit_and imm 0x800 >>> 11 in
    let addr = bit_and (u32 (reg g.sim rs + extend sign shift_val imm)) 0xfffffffc in
    if ltb 0 addr && ltb addr data_limit
    then addr
    else if ltb data_limit (reg g.sim rs)
    then 2
    else 0

-- The test that the target is in the text segment, and its place free.
unfoldable pub is_free : ℕ → Generator → Bool
is_free addr g =
    ltb mem_text_start addr && (leb addr text_limit && g.pc (addr - mem_text_start) == 0)

-- The target of the branch, or -1; the argument for the register is not used.
unfoldable pub check_brn_addr : ℕ → ℕ → Generator → ℕ
check_brn_addr rs imm g =
    let shift_val = shift_const 19 in
    let sign = bit_and imm 0x1000 >>> 12 in
    let addr = u32 (g.sim.current.pc + extend sign shift_val imm) in
    if is_free addr g then addr else 2 ^ 32 - 1

-- `imm<<1` is added to the program counter; for `JALR` the sum with the register is shifted.
unfoldable pub check_j_addr : ℕ → ℕ → ℕ → Generator → ℕ
check_j_addr imm funct rs1 g =
    let is_jalr = funct == Opcode.jalr in
    let shift_val = if is_jalr then shift_const 20 else shift_const 11 in
    let sign = if is_jalr then bit_and imm 0x800 >>> 11 else bit_and imm 0x100000 >>> 20 in
    let offset = extend sign shift_val imm in
    let addr =
      if is_jalr
      then u32 (reg g.sim rs1 + offset) <<< 1
      else u32 (g.sim.current.pc + (offset <<< 1)) in
    if is_free addr g then 1 else 0

-- `branch_taken`.
unfoldable pub decode_brn_result : ℕ → ℕ → ℕ → Generator → ℕ
decode_brn_result rs1 rs2 funct3 g =
    let x = reg g.sim rs1 in
    let y = reg g.sim rs2 in
    if funct3 == Opcode.beq
    then (if x == y then 1 else 0)
    else if funct3 == Opcode.bne
    then (if x == y then 0 else 1)
    else if funct3 == Opcode.blt
    then (if slt x y then 1 else 0)
    else if funct3 == Opcode.bltu
    then (if ltb x y then 1 else 0)
    else if funct3 == Opcode.bge
    then (if slt x y then 0 else 1)
    else if funct3 == Opcode.bgeu
    then (if leb y x then 1 else 0)
    else 0
