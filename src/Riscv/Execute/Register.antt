-- ===== src/Riscv/Execute/Register.antt =====
-- `execute_r` and `decode_r`.
use simple_cpu.Base.{
  ℕ, ◌+◌, u32, ◌<<<◌, ◌>>>◌, sub32, slt, to_int, ltb, ◌==◌, if◌then◌else◌, bit_and, bit_or, bit_xor,
}
use simple_cpu.Extend.{shift_const}
use simple_cpu.Riscv.Machine.{Simulator, reg, set_reg, next_pc}
use simple_cpu.Riscv.Opcode

-- What `SRA` leaves in `NEXT_STATE.REGS[rd]` after its two assignments.
unfoldable pub sra_value : ℕ → ℕ → ℕ
sra_value x amount =
    let shift_val = shift_const (bit_and amount 0x1f) in
    let shifted = x >>> bit_and amount 0x1f in
    if x >>> 31 == 1 then bit_or shifted shift_val else shifted

unfoldable pub execute_r : ℕ → ℕ → ℕ → ℕ → ℕ → Simulator → Simulator
execute_r rs1 rs2 rd funct7 funct3 s =
    let funct = bit_or (bit_and (funct7 >>> 5) 0x1 <<< 3) funct3 in
    if rd == 0
    then next_pc s
    else if funct == Opcode.sll
    then next_pc (set_reg rd (reg s rs1 <<< bit_and (reg s rs2) 0x1f) s)
    else if funct == Opcode.srl
    then next_pc (set_reg rd (reg s rs1 >>> bit_and (reg s rs2) 0x1f) s)
    else if funct == Opcode.sra
    then next_pc (set_reg rd (sra_value (reg s rs1) (reg s rs2)) s)
    else if funct == Opcode.add
    then next_pc (set_reg rd (u32 (reg s rs1 + reg s rs2)) s)
    else if funct == Opcode.sub
    then next_pc (set_reg rd (sub32 (reg s rs1) (reg s rs2)) s)
    else if funct == Opcode.and
    then next_pc (set_reg rd (bit_and (reg s rs1) (reg s rs2)) s)
    else if funct == Opcode.or
    then next_pc (set_reg rd (bit_or (reg s rs1) (reg s rs2)) s)
    else if funct == Opcode.xor
    then next_pc (set_reg rd (bit_xor (reg s rs1) (reg s rs2)) s)
    else if funct == Opcode.slt
    then next_pc (set_reg rd (to_int (slt (reg s rs1) (reg s rs2))) s)
    else if funct == Opcode.sltu
    then next_pc (set_reg rd (to_int (ltb (reg s rs1) (reg s rs2))) s)
    else s

unfoldable pub decode_r : ℕ → Simulator → Simulator
decode_r instr_opcode s =
    let rs1 = bit_and (instr_opcode >>> 15) 0x1f in
    let rs2 = bit_and (instr_opcode >>> 20) 0x1f in
    let rd = bit_and (instr_opcode >>> 7) 0x1f in
    let funct3 = bit_and (instr_opcode >>> 12) 0x07 in
    let funct7 = bit_and (instr_opcode >>> 25) 0x7f in execute_r rs1 rs2 rd funct7 funct3 s
