-- ===== src/Riscv/Execute/Immediate.antt =====
-- `execute_i` up to `JALR`, and `decode_i`.
use simple_cpu.Base.{
  ℕ, ◌+◌, Option, some, u32, ◌<<<◌, ◌>>>◌, slt, to_int, ltb, ◌==◌, if◌then◌else◌, bit_and, bit_or,
  bit_xor,
}
use simple_cpu.Extend.{shift_const, extend}
use simple_cpu.Riscv.Machine.{Simulator, reg, set_reg, set_pc, next_pc}
use simple_cpu.Riscv.Opcode
use simple_cpu.Riscv.Execute.Load.{execute_load}

-- `if (rd == 0) { NEXT_STATE.PC = …; return; }` and the two assignments behind it.
unfoldable pub finish_i : ℕ → ℕ → Simulator → Simulator
finish_i rd v s = if rd == 0 then next_pc s else next_pc (set_reg rd v s)

-- `JALR`: the jump, and the link unless `rd` is 0.
unfoldable pub execute_jalr : ℕ → ℕ → ℕ → Simulator → Simulator
execute_jalr rs1 rd imm s =
    let jumped = set_pc (u32 (reg s rs1 + imm)) s in
    if rd == 0 then jumped else set_reg rd (u32 (s.current.pc + 4)) jumped

unfoldable pub execute_i : ℕ → ℕ → ℕ → ℕ → ℕ → Simulator → Option Simulator
execute_i funct3 opcode rs1 rd imm12 s =
    let funct = bit_or (bit_and (opcode >>> 4) 0x1 <<< 4) funct3 in
    let shift_val = shift_const 20 in
    let sign = bit_and imm12 0x800 >>> 11 in
    let imm = extend sign shift_val imm12 in
    if funct == Opcode.addi
    then some (finish_i rd (u32 (reg s rs1 + imm)) s)
    else if funct == Opcode.slti
    then some (finish_i rd (to_int (slt (reg s rs1) imm)) s)
    else if funct == Opcode.sltiu
    then some (finish_i rd (to_int (ltb (reg s rs1) imm)) s)
    else if funct == Opcode.andi
    then some (finish_i rd (bit_and (reg s rs1) imm) s)
    else if funct == Opcode.ori
    then some (finish_i rd (bit_or (reg s rs1) imm) s)
    else if funct == Opcode.xori
    then some (finish_i rd (bit_xor (reg s rs1) imm) s)
    else if funct == Opcode.jalr
    then some (execute_jalr rs1 rd imm s)
    else execute_load funct shift_val rs1 rd imm s

unfoldable pub decode_i : ℕ → Simulator → Option Simulator
decode_i instr_opcode s =
    let funct3 = bit_and (instr_opcode >>> 12) 0x07 in
    let opcode = bit_and instr_opcode 0x7f in
    let rs1 = bit_and (instr_opcode >>> 15) 0x1f in
    let rd = bit_and (instr_opcode >>> 7) 0x1f in
    let imm = bit_and (instr_opcode >>> 20) 0xfff in execute_i funct3 opcode rs1 rd imm s
