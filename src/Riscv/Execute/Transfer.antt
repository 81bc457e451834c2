-- ===== src/Riscv/Execute/Transfer.antt =====
-- Stores, branches, upper immediates and jumps: the pairs of `execute_` and `decode_` functions of
-- the types S, B, U and J.
use simple_cpu.Base.{
  ℕ, ◌+◌, Bool, not, Option, some, ◌>>=◌, u32, ◌<<<◌, ◌>>>◌, slt, ltb, ◌==◌, if◌then◌else◌, bit_and,
  bit_or,
}
use simple_cpu.Extend.{shift_const, extend}
use simple_cpu.Riscv.Machine.{Simulator, reg, set_reg, set_pc, next_pc, mem_write_32}
use simple_cpu.Riscv.Opcode

-- `mem_write_32 (address, value)` and the step to the next instruction.
unfoldable pub finish_store : ℕ → ℕ → Simulator → Option Simulator
finish_store address value s = do
  mem ← mem_write_32 s.mem address value
  some (next_pc (record s { mem = mem }))

-- The base register is `rs2`, and `rs1` is stored.
unfoldable pub execute_s : ℕ → ℕ → ℕ → ℕ → Simulator → Option Simulator
execute_s funct3 rs1 rs2 imm s =
    if funct3 == Opcode.sb
    then (let offset = extend (bit_and imm 0x800 >>> 11) (shift_const 12) imm in
        finish_store (u32 (reg s rs2 + offset)) (bit_and (reg s rs1) 0xff) s)
    else if funct3 == Opcode.sh
    then (let offset = extend (bit_and imm 0x8000 >>> 15) (shift_const 16) imm in
        finish_store (u32 (reg s rs2 + offset)) (bit_and (reg s rs1) 0xffff) s)
    else if funct3 == Opcode.sw
    then (let offset = extend (bit_and imm 0x8000 >>> 15) (shift_const 16) imm in
        finish_store (bit_and (u32 (reg s rs2 + offset)) 0xfffffffc) (reg s rs1) s)
    else some s

unfoldable pub decode_s : ℕ → Simulator → Option Simulator
decode_s instr_opcode s =
    let funct3 = bit_and (instr_opcode >>> 12) 0x07 in
    let rs1 = bit_and (instr_opcode >>> 15) 0x1f in
    let rs2 = bit_and (instr_opcode >>> 20) 0x1f in
    let imm =
      bit_or (bit_and (instr_opcode >>> 25) 0x7f <<< 5) (bit_and (instr_opcode >>> 7) 0x1f) in
    execute_s funct3 rs1 rs2 imm s

-- The two arms that every branch has.
unfoldable pub branch : Bool → ℕ → Simulator → Simulator
branch taken imm s =
    let address = extend (bit_and imm 0x1000 >>> 12) (shift_const 19) imm in
    if taken then set_pc (u32 (s.current.pc + address)) s else next_pc s

unfoldable pub execute_b : ℕ → ℕ → ℕ → ℕ → Simulator → Simulator
execute_b funct3 rs1 rs2 imm s =
    if funct3 == Opcode.beq
    then branch (reg s rs1 == reg s rs2) imm s
    else if funct3 == Opcode.bne
    then branch (not (reg s rs1 == reg s rs2)) imm s
    else if funct3 == Opcode.blt
    then branch (slt (reg s rs1) (reg s rs2)) imm s
    else if funct3 == Opcode.bltu
    then branch (ltb (reg s rs1) (reg s rs2)) imm s
    else if funct3 == Opcode.bge
    then branch (not (slt (reg s rs1) (reg s rs2))) imm s
    else if funct3 == Opcode.bgeu
    then branch (not (ltb (reg s rs1) (reg s rs2))) imm s
    else s

unfoldable pub decode_b : ℕ → Simulator → Simulator
decode_b instr_opcode s =
    let funct3 = bit_and (instr_opcode >>> 12) 0x07 in
    let rs1 = bit_and (instr_opcode >>> 15) 0x1f in
    let rs2 = bit_and (instr_opcode >>> 20) 0x1f in
    let imm =
      bit_or
        (bit_or
          (bit_or (bit_and (instr_opcode >>> 31) 0x01 <<< 12)
            (bit_and (instr_opcode >>> 7) 0x01 <<< 11))
          (bit_and (instr_opcode >>> 25) 0x3f <<< 5))
        (bit_and (instr_opcode >>> 8) 0x0f <<< 1) in
    execute_b funct3 rs1 rs2 imm s

-- `NEXT_STATE.REGS[rd] = rd ? … : 0`.
unfoldable pub execute_u : ℕ → ℕ → ℕ → Simulator → Simulator
execute_u opcode rd imm s =
    let u_val = imm <<< 12 in
    if opcode == Opcode.lui
    then next_pc (set_reg rd (if rd == 0 then 0 else u_val) s)
    else if opcode == Opcode.auipc
    then next_pc (set_reg rd (if rd == 0 then 0 else u32 (s.current.pc + u_val)) s)
    else s

unfoldable pub decode_u : ℕ → Simulator → Simulator
decode_u instr_opcode s =
    let opcode = bit_and instr_opcode 0x7f in
    let rd = bit_and (instr_opcode >>> 7) 0x1f in
    let imm = bit_and (instr_opcode >>> 12) 0xfffff in execute_u opcode rd imm s

unfoldable pub execute_j : ℕ → ℕ → Simulator → Simulator
execute_j rd imm s =
    let address = extend (bit_and imm 0x100000 >>> 20) (shift_const 11) imm in
    let jumped = set_pc (u32 (s.current.pc + address)) s in
    if rd == 0 then jumped else set_reg rd (u32 (s.current.pc + 4)) jumped

unfoldable pub decode_j : ℕ → Simulator → Simulator
decode_j instr_opcode s =
    let rd = bit_and (instr_opcode >>> 7) 0x1f in
    let imm =
      bit_or
        (bit_or
          (bit_or (bit_and (instr_opcode >>> 31) 0x01 <<< 20)
            (bit_and (instr_opcode >>> 12) 0xff <<< 12))
          (bit_and (instr_opcode >>> 20) 0x01 <<< 11))
        (bit_and (instr_opcode >>> 21) 0x3ff <<< 1) in
    execute_j rd imm s
