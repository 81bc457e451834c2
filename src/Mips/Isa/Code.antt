-- ===== src/Mips/Isa/Code.antt =====
-- The words of the instructions, their fields as mips/hex_gen puts them together.
use simple_cpu.Base.{ℕ, zero, ◌^◌, ◌<◌, ◌≡◌}
use simple_cpu.Mips.Opcode
use simple_cpu.Mips.Fields.Formats.{Format, r_format, i_format, j_format, assemble}
use simple_cpu.Mips.Isa.{
  Instr, ShiftOp, AluOp, MulOp, ImmOp, LoadOp, StoreOp, BranchOp, SignOp, shift, alu, jr, jalr, mul,
  div, divu, mfhi, mflo, mthi, mtlo, syscall, alu_imm, lui, load, store, branch, branch_sign, j,
  jal,
}

abbrev pub shift_funct : ShiftOp → ℕ
shift_funct ShiftOp.sll = Opcode.sll
shift_funct ShiftOp.srl = Opcode.srl
shift_funct ShiftOp.sra = Opcode.sra

abbrev pub alu_funct : AluOp → ℕ
alu_funct AluOp.sllv = Opcode.sllv
alu_funct AluOp.srlv = Opcode.srlv
alu_funct AluOp.srav = Opcode.srav
alu_funct AluOp.add = Opcode.add
alu_funct AluOp.addu = Opcode.addu
alu_funct AluOp.sub = Opcode.sub
alu_funct AluOp.subu = Opcode.subu
alu_funct AluOp.and = Opcode.and
alu_funct AluOp.or = Opcode.or
alu_funct AluOp.xor = Opcode.xor
alu_funct AluOp.nor = Opcode.nor
alu_funct AluOp.slt_op = Opcode.slt
alu_funct AluOp.sltu = Opcode.sltu

abbrev pub mul_funct : MulOp → ℕ
mul_funct MulOp.mult = Opcode.mult
mul_funct MulOp.multu = Opcode.multu

abbrev pub imm_opcode : ImmOp → ℕ
imm_opcode ImmOp.addi = Opcode.addi
imm_opcode ImmOp.addiu = Opcode.addiu
imm_opcode ImmOp.slti = Opcode.slti
imm_opcode ImmOp.sltiu = Opcode.sltiu
imm_opcode ImmOp.andi = Opcode.andi
imm_opcode ImmOp.ori = Opcode.ori
imm_opcode ImmOp.xori = Opcode.xori

abbrev pub load_opcode : LoadOp → ℕ
load_opcode LoadOp.lb = Opcode.lb
load_opcode LoadOp.lh = Opcode.lh
load_opcode LoadOp.lw = Opcode.lw
load_opcode LoadOp.lbu = Opcode.lbu
load_opcode LoadOp.lhu = Opcode.lhu

abbrev pub store_opcode : StoreOp → ℕ
store_opcode StoreOp.sb = Opcode.sb
store_opcode StoreOp.sh = Opcode.sh
store_opcode StoreOp.sw = Opcode.sw

abbrev pub branch_opcode : BranchOp → ℕ
branch_opcode BranchOp.beq = Opcode.beq
branch_opcode BranchOp.bne = Opcode.bne
branch_opcode BranchOp.blez = Opcode.blez
branch_opcode BranchOp.bgtz = Opcode.bgtz

-- `BVAR` is told apart by the field rt.
abbrev pub sign_rt : SignOp → ℕ
sign_rt SignOp.bltz = Opcode.bltz
sign_rt SignOp.bgez = Opcode.bgez
sign_rt SignOp.bltzal = Opcode.bltzal
sign_rt SignOp.bgezal = Opcode.bgezal

abbrev pub format : Instr → Format
format (shift op rd rt n) = r_format 0 rt rd n (shift_funct op)
format (alu op rd rs rt) = r_format rs rt rd 0 (alu_funct op)
format (jr rd rs) = r_format rs 0 rd 0 Opcode.jr
format (jalr rd rs) = r_format rs 0 rd 0 Opcode.jalr
format (mul op rd rs rt) = r_format rs rt rd 0 (mul_funct op)
format (div rd rs rt) = r_format rs rt rd 0 Opcode.div
format (divu rd rs rt) = r_format rs rt rd 0 Opcode.divu
format (mfhi rd) = r_format 0 0 rd 0 Opcode.mfhi
format (mflo rd) = r_format 0 0 rd 0 Opcode.mflo
format (mthi rd rs) = r_format rs 0 rd 0 Opcode.mthi
format (mtlo rd rs) = r_format rs 0 rd 0 Opcode.mtlo
format syscall = r_format 0 0 0 0 Opcode.syscall
format (alu_imm op rt rs imm) = i_format (imm_opcode op) rs rt imm
format (lui rt imm) = i_format Opcode.lui 0 rt imm
format (load op rt rs imm) = i_format (load_opcode op) rs rt imm
format (store op rt rs imm) = i_format (store_opcode op) rs rt imm
format (branch op rs rt imm) = i_format (branch_opcode op) rs rt imm
format (branch_sign op rs imm) = i_format Opcode.bvar rs (sign_rt op) imm
format (j target) = j_format Opcode.j target
format (jal target) = j_format Opcode.jal target

abbrev pub encode : Instr → ℕ
encode i = assemble (format i)

-- The fields fit their places, and the field rd of an instruction that does not write it is not 0.
abbrev pub IsValid : Instr → Type 0
IsValid (shift op rd rt n) = (rd < 32) × (rt < 32) × (n < 32)
IsValid (alu op rd rs rt) = (rd < 32) × (rs < 32) × (rt < 32)
IsValid (jr rd rs) = (rd < 32) × (rs < 32) × (0 < rd)
IsValid (jalr rd rs) = (rd < 32) × (rs < 32) × (0 < rd)
IsValid (mul op rd rs rt) = (rd < 32) × (rs < 32) × (rt < 32) × (0 < rd)
IsValid (div rd rs rt) = (rd < 32) × (rs < 32) × (rt < 32) × (0 < rd)
IsValid (divu rd rs rt) = (rd < 32) × (rs < 32) × (rt < 32) × (0 < rd)
IsValid (mfhi rd) = rd < 32
IsValid (mflo rd) = rd < 32
IsValid (mthi rd rs) = (rd < 32) × (rs < 32) × (0 < rd)
IsValid (mtlo rd rs) = (rd < 32) × (rs < 32) × (0 < rd)
IsValid syscall = zero ≡ zero
IsValid (alu_imm op rt rs imm) = (rt < 32) × (rs < 32) × (imm < 2 ^ 16)
IsValid (lui rt imm) = (rt < 32) × (imm < 2 ^ 16)
IsValid (load op rt rs imm) = (rt < 32) × (rs < 32) × (imm < 2 ^ 16)
IsValid (store op rt rs imm) = (rt < 32) × (rs < 32) × (imm < 2 ^ 16)
IsValid (branch op rs rt imm) = (rs < 32) × (rt < 32) × (imm < 2 ^ 16)
IsValid (branch_sign op rs imm) = (rs < 32) × (imm < 2 ^ 16)
IsValid (j target) = target < 2 ^ 26
IsValid (jal target) = target < 2 ^ 26
