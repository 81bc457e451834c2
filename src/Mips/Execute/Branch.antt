-- ===== src/Mips/Execute/Branch.antt =====
-- The branches of `execute_i`. `BVAR` is the opcode of four of them, told apart by the field rt.
use simple_cpu.Base.{
  ℕ, ◌+◌, Bool, true, not, Option, some, ◌||◌, u32, ◌<<<◌, ◌>>>◌, is_neg, ◌==◌, if◌then◌else◌,
  bit_and,
}
use simple_cpu.Extend.{shift_const, extend}
use simple_cpu.Mips.Machine.{Simulator, reg, set_reg, set_pc, next_pc}
use simple_cpu.Mips.Opcode

-- The two arms that every branch has.
unfoldable pub branch : Bool → ℕ → Simulator → Simulator
branch taken imm s =
    let sign = bit_and imm 0x8000 >>> 15 in
    let address = extend sign (shift_const 14) (imm <<< 2) in
    if taken then set_pc (u32 (s.current.pc + 4 + address)) s else next_pc s

-- `NEXT_STATE.REGS[31] = CURRENT_STATE.PC + 4` and `wr_link_reg = 1`.
unfoldable pub link : Simulator → Simulator
link s = let linked = set_reg 31 (u32 (s.current.pc + 4)) s in record linked { wr_link_reg = true }

-- The `else if` chain of `BVAR`; any other rt only prints an error.
unfoldable pub execute_bvar : ℕ → ℕ → ℕ → Simulator → Simulator
execute_bvar rs rt imm s =
    if rt == Opcode.bltz
    then branch (is_neg (reg s rs)) imm s
    else if rt == Opcode.bgez
    then branch (not (is_neg (reg s rs))) imm s
    else if rt == Opcode.bltzal
    then link (branch (is_neg (reg s rs)) imm s)
    else if rt == Opcode.bgezal
    then link (branch (not (is_neg (reg s rs))) imm s)
    else s

-- The cases from `BEQ` to `BGTZ`; `done` stands for the rest of the `switch`.
unfoldable pub execute_branch : ℕ → ℕ → ℕ → ℕ → Simulator → Option Simulator → Option Simulator
execute_branch opcode rs rt imm s done =
    let x = reg s rs in
    if opcode == Opcode.beq
    then some (branch (x == reg s rt) imm s)
    else if opcode == Opcode.bne
    then some (branch (not (x == reg s rt)) imm s)
    else if opcode == Opcode.blez
    then some (branch (is_neg x || x == 0) imm s)
    else if opcode == Opcode.bgtz
    then some (branch (not (is_neg x || x == 0)) imm s)
    else done
