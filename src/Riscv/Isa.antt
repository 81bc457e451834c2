-- ===== src/Riscv/Isa.antt =====
pub mod Code
mod Execute
pub mod Program
pub mod Refine
mod Tests
pub mod Trace
-- The instructions that the simulator implements, described without its code: what each one does to
-- the program counter, the registers and the memory. Words are bit patterns below 2 ^ 32.
use simple_cpu.Base.{
  ℕ, ◌+◌, ◌-◌, ◌*◌, ◌/◌, ◌%◌, ◌^◌, ◌<◌, ◌≡◌, Bool, not, Option, some, ◌>>=◌, u32, to_int, ltb, ◌==◌,
  update, write_reg, if◌then◌else◌, bit_and, bit_or, bit_xor,
}
use simple_cpu.Extend.Laws.{sext, sra, signed_lt}
use simple_cpu.Memory.{Store}
use simple_cpu.Riscv.Machine.{CpuState, mem_read_32, mem_write_32}
use simple_cpu.Riscv.Opcode
use simple_cpu.Riscv.Encode.{encode_r, encode_i, encode_s, encode_b, encode_u, encode_j}

pub data AluOp : Type 0 where
  sll srl sra_op add sub and or xor slt_op sltu : AluOp

pub data ImmOp : Type 0 where
  addi slti sltiu ori xori : ImmOp

pub data LoadOp : Type 0 where
  lb lh lw lbu lhu : LoadOp

pub data StoreOp : Type 0 where
  sb sh sw : StoreOp

pub data BranchOp : Type 0 where
  beq bne blt bltu bge bgeu : BranchOp

-- Destination, then sources, then the immediate. A store has the register that is stored first.
pub data Instr : Type 0 where
  alu : AluOp → ℕ → ℕ → ℕ → Instr
  alu_imm : ImmOp → ℕ → ℕ → ℕ → Instr
  jalr : ℕ → ℕ → ℕ → Instr
  load : LoadOp → ℕ → ℕ → ℕ → Instr
  store : StoreOp → ℕ → ℕ → ℕ → Instr
  branch : BranchOp → ℕ → ℕ → ℕ → Instr
  lui auipc : ℕ → ℕ → Instr
  jal : ℕ → ℕ → Instr

abbrev pub alu_value : AluOp → ℕ → ℕ → ℕ
alu_value sll x y = x * 2 ^ (y % 32) % 2 ^ 32
alu_value srl x y = x / 2 ^ (y % 32)
alu_value sra_op x y = sra x (y % 32)
alu_value add x y = (x + y) % 2 ^ 32
alu_value sub x y = (x + (2 ^ 32 - y)) % 2 ^ 32
alu_value and x y = bit_and x y
alu_value or x y = bit_or x y
alu_value xor x y = bit_xor x y
alu_value slt_op x y = to_int (signed_lt x y)
alu_value sltu x y = to_int (ltb x y)

abbrev pub imm_value : ImmOp → ℕ → ℕ → ℕ
imm_value addi x y = alu_value add x y
imm_value slti x y = alu_value slt_op x y
imm_value sltiu x y = alu_value sltu x y
imm_value ori x y = alu_value or x y
imm_value xori x y = alu_value xor x y

-- The part of the word at the address that a load takes. `lh` extends the sign of a half word as if
-- it had 12 bits.
abbrev pub load_value : LoadOp → ℕ → ℕ
load_value lb w = sext 8 (w % 2 ^ 8)
load_value lh w = if ltb (w % 2 ^ 16) (2 ^ 15) then w % 2 ^ 16 else w % 2 ^ 12 + 2 ^ 32 - 2 ^ 12
load_value lw w = w
load_value lbu w = w % 2 ^ 8
load_value lhu w = w % 2 ^ 16

-- Where a store takes place. Only the offset of `sb` has a sign, above 20 bits; a word is stored at
-- the last multiple of 4.
abbrev pub store_at : StoreOp → ℕ → ℕ → ℕ
store_at sb x imm = u32 (x + (if ltb imm (2 ^ 11) then imm else imm + 2 ^ 32 - 2 ^ 20))
store_at sh x imm = u32 (x + imm)
store_at sw x imm = u32 (x + imm) / 4 * 4

-- A store of a part writes a whole word all the same, the rest of it 0.
abbrev pub store_value : StoreOp → ℕ → ℕ
store_value sb y = y % 2 ^ 8
store_value sh y = y % 2 ^ 16
store_value sw y = y

abbrev pub taken : BranchOp → ℕ → ℕ → Bool
taken beq x y = x == y
taken bne x y = not (x == y)
taken blt x y = signed_lt x y
taken bltu x y = ltb x y
taken bge x y = not (signed_lt x y)
taken bgeu x y = not (ltb x y)

abbrev pub advance : CpuState → (ℕ → ℕ) → CpuState
advance c regs = record { pc = u32 (c.pc + 4); regs = regs }

abbrev pub jump : ℕ → (ℕ → ℕ) → CpuState
jump pc regs = record { pc = pc; regs = regs }

-- One instruction. `none` is an access outside the memory that is allocated.
abbrev pub step : Instr → CpuState → Store → Option (CpuState × Store)
step (alu op rd rs1 rs2) c m =
    some (advance c (write_reg rd (alu_value op (c.regs rs1) (c.regs rs2)) c.regs), m)
step (alu_imm op rd rs1 imm) c m =
    some (advance c (write_reg rd (imm_value op (c.regs rs1) (sext 12 imm)) c.regs), m)
step (jalr rd rs1 imm) c m =
    some (jump (u32 (c.regs rs1 + sext 12 imm)) (write_reg rd (u32 (c.pc + 4)) c.regs), m)
step (load op rd rs1 imm) c m = do
  w ← mem_read_32 m (u32 (c.regs rs1 + sext 12 imm))
  some (advance c (write_reg rd (load_value op w) c.regs), m)
step (store op src base imm) c m = do
  m' ← mem_write_32 m (store_at op (c.regs base) imm) (store_value op (c.regs src))
  some (advance c c.regs, m')
step (branch op rs1 rs2 imm) c m = some (
  if taken op (c.regs rs1) (c.regs rs2)
      then jump (u32 (c.pc + sext 13 imm)) c.regs
      else advance c c.regs,
  m,
)
step (lui rd imm) c m = some (advance c (write_reg rd (imm * 2 ^ 12) c.regs), m)
step (auipc rd imm) c m = some (advance c (write_reg rd (u32 (c.pc + imm * 2 ^ 12)) c.regs), m)
step (jal rd imm) c m =
    some (jump (u32 (c.pc + sext 21 imm)) (write_reg rd (u32 (c.pc + 4)) c.regs), m)
