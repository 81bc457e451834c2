-- ===== src/Mips/Isa.antt =====
-- The instructions that the simulator of mips/iss implements, described without its code: what each
-- one does to the processor and the memory. Words are bit patterns below 2 ^ 32.
pub mod Code
mod State
pub mod Program
pub mod Range
mod Alu
mod Flow
pub mod Refine
pub mod Trace
mod Tests
use simple_cpu.Base.{
  ℕ, ◌+◌, ◌-◌, ◌*◌, ◌/◌, ◌%◌, ◌^◌, ◌<◌, ◌≤◌, ◌≡◌, Bool, true, false, not, ◌&&◌, ◌||◌, Option, none,
  some, ◌>>=◌, u32, to_int, ltb, ◌==◌, update, write_reg, if◌then◌else◌, bit_and, bit_or, bit_xor,
}
use simple_cpu.Extend.Laws.{sext, signed_lt}
use simple_cpu.Memory.{Store}
use simple_cpu.Mips.Machine.{CpuState, mem_read_32, mem_write_32}

-- By a field of the instruction, and by a register.
pub data ShiftOp : Type 0 where
  sll srl sra : ShiftOp

pub data AluOp : Type 0 where
  sllv srlv srav add addu sub subu and or xor nor slt_op sltu : AluOp

pub data MulOp : Type 0 where
  mult multu : MulOp

pub data ImmOp : Type 0 where
  addi addiu slti sltiu andi ori xori : ImmOp

pub data LoadOp : Type 0 where
  lb lh lw lbu lhu : LoadOp

pub data StoreOp : Type 0 where
  sb sh sw : StoreOp

pub data BranchOp : Type 0 where
  beq bne blez bgtz : BranchOp

pub data SignOp : Type 0 where
  bltz bgez bltzal bgezal : SignOp

-- The register that is written comes first. `jr` and the instructions on `HI` and `LO` have the
-- field rd too: it must not be 0 for the simulator to execute them.
pub data Instr : Type 0 where
  shift : ShiftOp → ℕ → ℕ → ℕ → Instr
  alu : AluOp → ℕ → ℕ → ℕ → Instr
  jr jalr : ℕ → ℕ → Instr
  mul : MulOp → ℕ → ℕ → ℕ → Instr
  div divu : ℕ → ℕ → ℕ → Instr
  mfhi mflo : ℕ → Instr
  mthi mtlo : ℕ → ℕ → Instr
  syscall : Instr
  alu_imm : ImmOp → ℕ → ℕ → ℕ → Instr
  lui : ℕ → ℕ → Instr
  load : LoadOp → ℕ → ℕ → ℕ → Instr
  store : StoreOp → ℕ → ℕ → ℕ → Instr
  branch : BranchOp → ℕ → ℕ → ℕ → Instr
  branch_sign : SignOp → ℕ → ℕ → Instr
  j jal : ℕ → Instr

-- `sra` shifts zeros in, as `srl`.
abbrev pub shift_value : ShiftOp → ℕ → ℕ → ℕ
shift_value sll y n = y * 2 ^ n % 2 ^ 32
shift_value srl y n = y / 2 ^ n
shift_value sra y n = y / 2 ^ n

abbrev pub alu_value : AluOp → ℕ → ℕ → ℕ
alu_value sllv x y = shift_value sll y (x % 32)
alu_value srlv x y = shift_value srl y (x % 32)
alu_value srav x y = shift_value sra y (x % 32)
alu_value add x y = (x + y) % 2 ^ 32
alu_value addu x y = (x + y) % 2 ^ 32
alu_value sub x y = (x + (2 ^ 32 - y)) % 2 ^ 32
alu_value subu x y = (x + (2 ^ 32 - y)) % 2 ^ 32
alu_value and x y = bit_and x y
alu_value or x y = bit_or x y
alu_value xor x y = bit_xor x y
alu_value nor x y = 2 ^ 32 - 1 - bit_or x y
alu_value slt_op x y = to_int (signed_lt x y)
alu_value sltu x y = to_int (ltb x y)

-- The immediate is extended by its sign for sums and comparisons, and by zeros for bits.
abbrev pub imm_value : ImmOp → ℕ → ℕ → ℕ
imm_value addi x imm = alu_value add x (sext 16 imm)
imm_value addiu x imm = alu_value addu x (sext 16 imm)
imm_value slti x imm = alu_value slt_op x (sext 16 imm)
imm_value sltiu x imm = alu_value sltu x (sext 16 imm)
imm_value andi x imm = alu_value and x imm
imm_value ori x imm = alu_value or x imm
imm_value xori x imm = alu_value xor x imm

-- Where an access of memory takes place: a word at the last multiple of 4.
abbrev pub load_at : LoadOp → ℕ → ℕ
load_at lw a = a / 4 * 4
load_at lb a = a
load_at lh a = a
load_at lbu a = a
load_at lhu a = a

-- The part of the word found there that a load takes.
abbrev pub load_value : LoadOp → ℕ → ℕ
load_value lb w = sext 8 (w % 2 ^ 8)
load_value lh w = sext 16 (w % 2 ^ 16)
load_value lw w = w
load_value lbu w = w % 2 ^ 8
load_value lhu w = w % 2 ^ 16

-- A store of a part writes a whole word all the same, the rest of it 0.
abbrev pub store_at : StoreOp → ℕ → ℕ
store_at sb a = a
store_at sh a = a
store_at sw a = a / 4 * 4

abbrev pub store_value : StoreOp → ℕ → ℕ
store_value sb y = y % 2 ^ 8
store_value sh y = y % 2 ^ 16
store_value sw y = y

abbrev pub taken : BranchOp → ℕ → ℕ → Bool
taken beq x y = x == y
taken bne x y = not (x == y)
taken blez x y = not (signed_lt 0 x)
taken bgtz x y = signed_lt 0 x

abbrev pub sign_taken : SignOp → ℕ → Bool
sign_taken bltz x = signed_lt x 0
sign_taken bgez x = not (signed_lt x 0)
sign_taken bltzal x = signed_lt x 0
sign_taken bgezal x = not (signed_lt x 0)

abbrev pub sign_links : SignOp → Bool
sign_links bltz = false
sign_links bgez = false
sign_links bltzal = true
sign_links bgezal = true

-- The address of the next instruction, on which branches and jumps build.
abbrev pub following : CpuState → ℕ
following c = (c.pc + 4) % 2 ^ 32

abbrev pub branch_to : CpuState → Bool → ℕ → ℕ
branch_to c b imm = if b then (c.pc + 4 + sext 18 (4 * imm)) % 2 ^ 32 else following c

abbrev pub jump_to : CpuState → ℕ → ℕ
jump_to c target = following c / 2 ^ 28 * 2 ^ 28 + 4 * target

abbrev pub advance : CpuState → CpuState
advance c = record c { pc = following c }

abbrev pub write : ℕ → ℕ → CpuState → CpuState
write rd v c = record c { pc = following c; regs = write_reg rd v c.regs }

abbrev pub address : CpuState → ℕ → ℕ → ℕ
address c rs imm = u32 (c.regs rs + sext 16 imm)

-- The absolute value of a signed word.
abbrev pub distance : ℕ → ℕ
distance x = if ltb x (2 ^ 31) then x else 2 ^ 32 - x

-- Division that rounds towards 0, by the signs of the operands.
abbrev pub truncated_div : ℕ → ℕ → ℕ
truncated_div x y =
    let q = distance x / distance y in
    if ltb x (2 ^ 31)
    then (if ltb y (2 ^ 31) then q else u32 (2 ^ 32 - q))
    else (if ltb y (2 ^ 31) then u32 (2 ^ 32 - q) else q)

-- The remainder has the sign of the dividend.
abbrev pub truncated_rem : ℕ → ℕ → ℕ
truncated_rem x y =
    let r = distance x % distance y in if ltb x (2 ^ 31) then r else u32 (2 ^ 32 - r)

-- One instruction. `none` is an access outside the memory that is allocated, or a division by 0
-- or of -2 ^ 31 by -1. Signed division rounds towards 0.
abbrev pub step : Instr → CpuState → Store → Option (CpuState × Store)
step (shift op rd rt n) c m = some (write rd (shift_value op (c.regs rt) n) c, m)
step (alu op rd rs rt) c m = some (write rd (alu_value op (c.regs rs) (c.regs rt)) c, m)
step (jr rd rs) c m = some (record c { pc = c.regs rs }, m)
step (jalr rd rs) c m = some (record c { pc = c.regs rs; regs = update c.regs 31 (following c) }, m)
step (mul op rd rs rt) c m =
    some (record c { pc = following c; hi = 0; lo = c.regs rs * c.regs rt % 2 ^ 32 }, m)
step (div rd rs rt) c m =
    let x = c.regs rs in
    let y = c.regs rt in
    if y == 0 || x == 2 ^ 31 && y == 2 ^ 32 - 1
    then none
    else some (record c { pc = following c; hi = truncated_rem x y; lo = truncated_div x y }, m)
step (divu rd rs rt) c m =
    if c.regs rt == 0
    then none
    else some
        (record c { pc = following c; hi = c.regs rs % c.regs rt; lo = c.regs rs / c.regs rt }, m)
step (mfhi rd) c m = some (write rd c.hi c, m)
step (mflo rd) c m = some (write rd c.lo c, m)
step (mthi rd rs) c m = some (record c { pc = following c; hi = c.regs rs }, m)
step (mtlo rd rs) c m = some (record c { pc = following c; lo = c.regs rs }, m)
step syscall c m = some (advance c, m)
step (alu_imm op rt rs imm) c m = some (write rt (imm_value op (c.regs rs) imm) c, m)
step (lui rt imm) c m = some (write rt (imm * 2 ^ 16) c, m)
step (load op rt rs imm) c m = do
  w ← mem_read_32 m (load_at op (address c rs imm))
  some (write rt (load_value op w) c, m)
step (store op rt rs imm) c m = do
  m' ← mem_write_32 m (store_at op (address c rs imm)) (store_value op (c.regs rt))
  some (advance c, m')
step (branch op rs rt imm) c m =
    some (record c { pc = branch_to c (taken op (c.regs rs) (c.regs rt)) imm }, m)
step (branch_sign op rs imm) c m = some (
  record c {
    pc = branch_to c (sign_taken op (c.regs rs)) imm;
    regs = if sign_links op then update c.regs 31 (following c) else c.regs;
  },
  m,
)
step (j target) c m = some (record c { pc = jump_to c target }, m)
step (jal target) c m =
    some (record c { pc = jump_to c target; regs = update c.regs 31 (following c) }, m)

-- What the checks of the hardware are told: a shift, and a link to register 31. `jalr` is no link.
abbrev pub is_shift : Instr → Bool
is_shift (shift op rd rt n) = true
is_shift (alu sllv rd rs rt) = true
is_shift (alu srlv rd rs rt) = true
is_shift (alu srav rd rs rt) = true
is_shift i = false

abbrev pub is_link : Instr → Bool
is_link (branch_sign op rs imm) = sign_links op
is_link (jal target) = true
is_link i = false

-- The request to exit.
abbrev pub is_exit : Instr → CpuState → Bool
is_exit syscall c = c.regs 2 == 10
is_exit i c = false
