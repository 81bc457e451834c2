-- ===== src/Riscv/Execute/Load.antt =====
-- The loads of `execute_i`: the cases from `LB` on. `imm` is sign-extended, and `shift_val` is what
-- `execute_i` left in that variable.
use simple_cpu.Base.{ℕ, ◌+◌, Option, some, ◌>>=◌, u32, ◌>>>◌, ◌==◌, if◌then◌else◌, bit_and}
use simple_cpu.Extend.{shift_const, extend}
use simple_cpu.Riscv.Machine.{Simulator, reg, set_reg, next_pc, mem_read_32}
use simple_cpu.Riscv.Opcode

-- The end of every load: nothing is written to register 0.
unfoldable pub finish_load : ℕ → ℕ → Simulator → Simulator
finish_load rd content s = if rd == 0 then next_pc s else next_pc (set_reg rd content s)

-- `none` is a read outside the block of its region. The `switch` has no default.
unfoldable pub execute_load : ℕ → ℕ → ℕ → ℕ → ℕ → Simulator → Option Simulator
execute_load funct shift_val rs1 rd imm s =
    let address = u32 (reg s rs1 + imm) in
    if funct == Opcode.lb
    then (do
      word ← mem_read_32 s.mem address
      let mem_content = bit_and word 0xff
      some (finish_load rd (extend (mem_content >>> 7) (shift_const 24) mem_content) s))
    else if funct == Opcode.lh
    then (do
      word ← mem_read_32 s.mem address
      let mem_content = bit_and word 0xffff
      some (finish_load rd (extend (mem_content >>> 15) shift_val mem_content) s))
    else if funct == Opcode.lw
    then (do mem_content ← mem_read_32 s.mem address; some (finish_load rd mem_content s))
    else if funct == Opcode.lbu
    then (do word ← mem_read_32 s.mem address; some (finish_load rd (bit_and word 0xff) s))
    else if funct == Opcode.lhu
    then (do word ← mem_read_32 s.mem address; some (finish_load rd (bit_and word 0xffff) s))
    else some s
