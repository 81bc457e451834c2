-- ===== src/Mips/Execute/Register.antt =====
-- `execute_r` up to `SLTU`, and `decode_r`.
use simple_cpu.Base.{
  ℕ, ◌+◌, Bool, true, false, not, Option, some, u32, ◌<<<◌, ◌>>>◌, sub32, not32, slt, to_int, ltb,
  ◌==◌, ◌&&◌, ◌||◌, if◌then◌else◌, bit_and, bit_or, bit_xor,
}
use simple_cpu.Extend.{shift_const}
use simple_cpu.Mips.Machine.{Simulator, reg, set_reg, set_pc, next_pc}
use simple_cpu.Mips.Opcode
use simple_cpu.Mips.Execute.Special.{execute_special}

-- The tests for the six shifts, and `rt_as_src = 1`.
unfoldable pub is_shift : ℕ → Bool
is_shift funct =
    funct == Opcode.sll
    || funct == Opcode.srl
    || funct == Opcode.sra
    || funct == Opcode.sllv
    || funct == Opcode.srlv
    || funct == Opcode.srav

abbrev pub use_rt : Simulator → Simulator
use_rt s = record s { rt_as_src = true }

-- What `SRA` and `SRAV` leave in `NEXT_STATE.REGS[rd]`: the sign is taken from `REGS[rs]`.
unfoldable pub sra_value : ℕ → ℕ → ℕ → ℕ
sra_value rs_val rt_val amount =
    let sign = bit_and rs_val 0x10000000 >>> 31 in
    let shift_val = shift_const amount in
    let shifted = rt_val >>> amount in if sign == 1 then bit_or shifted shift_val else shifted

-- The cases from `SLL` to `SRAV`; `done` stands for the rest of the `switch`.
unfoldable pub execute_shift : ℕ → ℕ → ℕ → ℕ → ℕ → Simulator → Option Simulator → Option Simulator
execute_shift funct rs rt rd shamt s done =
    let amount = bit_and (reg s rs) 0x1f in
    if funct == Opcode.sll
    then some (next_pc (set_reg rd (reg s rt <<< shamt) (use_rt s)))
    else if funct == Opcode.srl
    then some (next_pc (set_reg rd (reg s rt >>> shamt) (use_rt s)))
    else if funct == Opcode.sra
    then some (next_pc (set_reg rd (sra_value (reg s rs) (reg s rt) shamt) (use_rt s)))
    else if funct == Opcode.sllv
    then some (next_pc (set_reg rd (reg s rt <<< amount) (use_rt s)))
    else if funct == Opcode.srlv
    then some (next_pc (set_reg rd (reg s rt >>> amount) (use_rt s)))
    else if funct == Opcode.srav
    then some (next_pc (set_reg rd (sra_value (reg s rs) (reg s rt) amount) (use_rt s)))
    else done

-- The cases from `JR` to `SLTU`.
unfoldable pub execute_alu : ℕ → ℕ → ℕ → ℕ → Simulator → Option Simulator → Option Simulator
execute_alu funct rs rt rd s done =
    let x = reg s rs in
    let y = reg s rt in
    if funct == Opcode.jr
    then some (set_pc x s)
    else if funct == Opcode.jalr
    then (let linked = set_reg 31 (u32 (s.current.pc + 4)) (set_pc x s) in
        some (record linked { wr_link_reg = false }))
    else if funct == Opcode.add
    then some (next_pc (set_reg rd (u32 (x + y)) s))
    else if funct == Opcode.addu
    then some (next_pc (set_reg rd (u32 (x + y)) s))
    else if funct == Opcode.sub
    then some (next_pc (set_reg rd (sub32 x y) s))
    else if funct == Opcode.subu
    then some (next_pc (set_reg rd (sub32 x y) s))
    else if funct == Opcode.and
    then some (next_pc (set_reg rd (bit_and x y) s))
    else if funct == Opcode.or
    then some (next_pc (set_reg rd (bit_or x y) s))
    else if funct == Opcode.xor
    then some (next_pc (set_reg rd (bit_xor x y) s))
    else if funct == Opcode.nor
    then some (next_pc (set_reg rd (not32 (bit_or x y)) s))
    else if funct == Opcode.slt
    then some (next_pc (set_reg rd (to_int (slt x y)) s))
    else if funct == Opcode.sltu
    then some (next_pc (set_reg rd (to_int (ltb x y)) s))
    else done

-- With `rd` 0 everything but `SYSCALL` only moves on.
unfoldable pub execute_r : ℕ → ℕ → ℕ → ℕ → ℕ → Simulator → Option Simulator
execute_r rs rt rd shamt funct s =
    if rd == 0 && not (funct == 0x0c)
    then some (next_pc (if is_shift funct then use_rt s else s))
    else execute_shift funct rs rt rd shamt s
        (execute_alu funct rs rt rd s (execute_special funct rs rt rd s))

unfoldable pub decode_r : ℕ → Simulator → Option Simulator
decode_r instr_opcode s =
    let rs = bit_and (instr_opcode >>> 21) 0x1f in
    let rt = bit_and (instr_opcode >>> 16) 0x1f in
    let rd = bit_and (instr_opcode >>> 11) 0x1f in
    let shamt = bit_and (instr_opcode >>> 6) 0x1f in
    let funct = bit_and instr_opcode 0x3f in execute_r rs rt rd shamt funct s
