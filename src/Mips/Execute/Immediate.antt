-- ===== src/Mips/Execute/Immediate.antt =====
-- The cases of `execute_i` from `ADDI` to `LUI`, which write `REGS[rt]`.
use simple_cpu.Base.{
  ℕ, ◌+◌, Option, some, u32, ◌<<<◌, ◌>>>◌, slt, to_int, ltb, ◌==◌, if◌then◌else◌, bit_and, bit_or,
  bit_xor,
}
use simple_cpu.Extend.{shift_const, extend}
use simple_cpu.Mips.Machine.{Simulator, reg, set_reg, next_pc}
use simple_cpu.Mips.Opcode

-- The 16 bits of `imm`, sign extended.
abbrev pub immediate : ℕ → ℕ
immediate imm = extend (bit_and imm 0x8000 >>> 15) (shift_const 16) imm

-- The return of `rt == 0`, and the two assignments after it.
unfoldable pub finish_i : ℕ → ℕ → Simulator → Simulator
finish_i rt v s = if rt == 0 then next_pc s else next_pc (set_reg rt v s)

-- `done` stands for the rest of the `switch`.
unfoldable pub execute_immediate : ℕ → ℕ → ℕ → ℕ → Simulator → Option Simulator → Option Simulator
execute_immediate opcode rs rt imm s done =
    let x = reg s rs in
    let offset = immediate imm in
    if opcode == Opcode.addi
    then some (finish_i rt (u32 (x + offset)) s)
    else if opcode == Opcode.addiu
    then some (finish_i rt (u32 (x + offset)) s)
    else if opcode == Opcode.slti
    then some (finish_i rt (to_int (slt x offset)) s)
    else if opcode == Opcode.sltiu
    then some (finish_i rt (to_int (ltb x offset)) s)
    else if opcode == Opcode.andi
    then some (finish_i rt (bit_and x imm) s)
    else if opcode == Opcode.ori
    then some (finish_i rt (bit_or x imm) s)
    else if opcode == Opcode.xori
    then some (finish_i rt (bit_xor x imm) s)
    else if opcode == Opcode.lui
    then some (finish_i rt (imm <<< 16) s)
    else done
