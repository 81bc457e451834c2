-- ===== src/Mips/Isa/Range.antt =====
-- The fields of the instructions are in the range of their formats.
use simple_cpu.Base.{ℕ, ◌<◌, ◌≢◌, refl, arith}
use simple_cpu.Mips.Fields.Formats.{InRange}
use simple_cpu.Mips.Isa.{
  Instr, ShiftOp, AluOp, MulOp, ImmOp, LoadOp, StoreOp, BranchOp, SignOp, shift, alu, jr, jalr, mul,
  div, divu, mfhi, mflo, mthi, mtlo, syscall, alu_imm, lui, load, store, branch, branch_sign, j,
  jal,
}
use simple_cpu.Mips.Isa.Code.{
  format, IsValid, shift_funct, alu_funct, mul_funct, imm_opcode, load_opcode, store_opcode,
  branch_opcode, sign_rt,
}

-- An opcode of an I-type word.
abbrev IsIType : ℕ → Type 0
IsIType opcode = (opcode ≢ 0) × (opcode ≢ 2) × (opcode ≢ 3) × (opcode < 64)

shift_funct-lt : (op : ShiftOp) → shift_funct op < 64
shift_funct-lt ShiftOp.sll = omega arith
shift_funct-lt ShiftOp.srl = omega arith
shift_funct-lt ShiftOp.sra = omega arith

alu_funct-lt : (op : AluOp) → alu_funct op < 64
alu_funct-lt AluOp.sllv = omega arith
alu_funct-lt AluOp.srlv = omega arith
alu_funct-lt AluOp.srav = omega arith
alu_funct-lt AluOp.add = omega arith
alu_funct-lt AluOp.addu = omega arith
alu_funct-lt AluOp.sub = omega arith
alu_funct-lt AluOp.subu = omega arith
alu_funct-lt AluOp.and = omega arith
alu_funct-lt AluOp.or = omega arith
alu_funct-lt AluOp.xor = omega arith
alu_funct-lt AluOp.nor = omega arith
alu_funct-lt AluOp.slt_op = omega arith
alu_funct-lt AluOp.sltu = omega arith

mul_funct-lt : (op : MulOp) → mul_funct op < 64
mul_funct-lt MulOp.mult = omega arith
mul_funct-lt MulOp.multu = omega arith

sign_rt-lt : (op : SignOp) → sign_rt op < 32
sign_rt-lt SignOp.bltz = omega arith
sign_rt-lt SignOp.bgez = omega arith
sign_rt-lt SignOp.bltzal = omega arith
sign_rt-lt SignOp.bgezal = omega arith

imm_opcode-IsIType : (op : ImmOp) → IsIType (imm_opcode op)
imm_opcode-IsIType ImmOp.addi = (omega arith, omega arith, omega arith, omega arith)
imm_opcode-IsIType ImmOp.addiu = (omega arith, omega arith, omega arith, omega arith)
imm_opcode-IsIType ImmOp.slti = (omega arith, omega arith, omega arith, omega arith)
imm_opcode-IsIType ImmOp.sltiu = (omega arith, omega arith, omega arith, omega arith)
imm_opcode-IsIType ImmOp.andi = (omega arith, omega arith, omega arith, omega arith)
imm_opcode-IsIType ImmOp.ori = (omega arith, omega arith, omega arith, omega arith)
imm_opcode-IsIType ImmOp.xori = (omega arith, omega arith, omega arith, omega arith)

load_opcode-IsIType : (op : LoadOp) → IsIType (load_opcode op)
load_opcode-IsIType LoadOp.lb = (omega arith, omega arith, omega arith, omega arith)
load_opcode-IsIType LoadOp.lh = (omega arith, omega arith, omega arith, omega arith)
load_opcode-IsIType LoadOp.lw = (omega arith, omega arith, omega arith, omega arith)
load_opcode-IsIType LoadOp.lbu = (omega arith, omega arith, omega arith, omega arith)
load_opcode-IsIType LoadOp.lhu = (omega arith, omega arith, omega arith, omega arith)

store_opcode-IsIType : (op : StoreOp) → IsIType (store_opcode op)
store_opcode-IsIType StoreOp.sb = (omega arith, omega arith, omega arith, omega arith)
store_opcode-IsIType StoreOp.sh = (omega arith, omega arith, omega arith, omega arith)
store_opcode-IsIType StoreOp.sw = (omega arith, omega arith, omega arith, omega arith)

branch_opcode-IsIType : (op : BranchOp) → IsIType (branch_opcode op)
branch_opcode-IsIType BranchOp.beq = (omega arith, omega arith, omega arith, omega arith)
branch_opcode-IsIType BranchOp.bne = (omega arith, omega arith, omega arith, omega arith)
branch_opcode-IsIType BranchOp.blez = (omega arith, omega arith, omega arith, omega arith)
branch_opcode-IsIType BranchOp.bgtz = (omega arith, omega arith, omega arith, omega arith)

pub format-InRange : (i : Instr) → IsValid i → InRange (format i)
format-InRange (shift op rd rt n) v = (omega arith, v.1, v.0, v.2, shift_funct-lt op)
format-InRange (alu op rd rs rt) v = (v.1, v.2, v.0, omega arith, alu_funct-lt op)
format-InRange (jr rd rs) v = (v.1, omega arith, v.0, omega arith, omega arith)
format-InRange (jalr rd rs) v = (v.1, omega arith, v.0, omega arith, omega arith)
format-InRange (mul op rd rs rt) v = (v.1, v.2, v.0, omega arith, mul_funct-lt op)
format-InRange (div rd rs rt) v = (v.1, v.2, v.0, omega arith, omega arith)
format-InRange (divu rd rs rt) v = (v.1, v.2, v.0, omega arith, omega arith)
format-InRange (mfhi rd) v = (omega arith, omega arith, v, omega arith, omega arith)
format-InRange (mflo rd) v = (omega arith, omega arith, v, omega arith, omega arith)
format-InRange (mthi rd rs) v = (v.1, omega arith, v.0, omega arith, omega arith)
format-InRange (mtlo rd rs) v = (v.1, omega arith, v.0, omega arith, omega arith)
format-InRange syscall v = (omega arith, omega arith, omega arith, omega arith, omega arith)
format-InRange (alu_imm op rt rs imm) v =
    let (n0, n2, n3, ho) = imm_opcode-IsIType op in (n0, n2, n3, ho, v.1, v.0, v.2)
format-InRange (lui rt imm) v =
    (omega arith, omega arith, omega arith, omega arith, omega arith, v.0, v.1)
format-InRange (load op rt rs imm) v =
    let (n0, n2, n3, ho) = load_opcode-IsIType op in (n0, n2, n3, ho, v.1, v.0, v.2)
format-InRange (store op rt rs imm) v =
    let (n0, n2, n3, ho) = store_opcode-IsIType op in (n0, n2, n3, ho, v.1, v.0, v.2)
format-InRange (branch op rs rt imm) v =
    let (n0, n2, n3, ho) = branch_opcode-IsIType op in (n0, n2, n3, ho, v.0, v.1, v.2)
format-InRange (branch_sign op rs imm) v =
    (omega arith, omega arith, omega arith, omega arith, v.0, sign_rt-lt op, v.1)
format-InRange (j target) v = (refl, v)
format-InRange (jal target) v = (refl, v)
