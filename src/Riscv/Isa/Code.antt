-- ===== src/Riscv/Isa/Code.antt =====
-- The words of the instructions, their fields as risc-v/hex_gen puts them together.
use simple_cpu.Base.{ℕ, ◌*◌, ◌/◌, ◌%◌, ◌^◌, ◌<◌, ◌≡◌}
use simple_cpu.Riscv.Opcode
use simple_cpu.Riscv.Encode.{encode_r, encode_i, encode_s, encode_b, encode_u, encode_j}
use simple_cpu.Riscv.Isa.{
  AluOp, sll, srl, sra_op, add, sub, and, or, xor, slt_op, sltu, ImmOp, addi, slti, sltiu, ori,
  xori, LoadOp, lb, lh, lw, lbu, lhu, StoreOp, sb, sh, sw, BranchOp, beq, bne, blt, bltu, bge, bgeu,
  Instr, alu, alu_imm, jalr, load, store, branch, lui, auipc, jal,
}

-- Four bits for an R-type instruction: funct7[5] and funct3.
abbrev pub alu_funct : AluOp → ℕ
alu_funct sll = Opcode.sll
alu_funct srl = Opcode.srl
alu_funct sra_op = Opcode.sra
alu_funct add = Opcode.add
alu_funct sub = Opcode.sub
alu_funct and = Opcode.and
alu_funct or = Opcode.or
alu_funct xor = Opcode.xor
alu_funct slt_op = Opcode.slt
alu_funct sltu = Opcode.sltu

abbrev pub imm_funct : ImmOp → ℕ
imm_funct addi = Opcode.addi
imm_funct slti = Opcode.slti
imm_funct sltiu = Opcode.sltiu
imm_funct ori = Opcode.ori
imm_funct xori = Opcode.xori

abbrev pub load_funct : LoadOp → ℕ
load_funct lb = Opcode.lb
load_funct lh = Opcode.lh
load_funct lw = Opcode.lw
load_funct lbu = Opcode.lbu
load_funct lhu = Opcode.lhu

abbrev pub store_funct : StoreOp → ℕ
store_funct sb = Opcode.sb
store_funct sh = Opcode.sh
store_funct sw = Opcode.sw

abbrev pub branch_funct : BranchOp → ℕ
branch_funct beq = Opcode.beq
branch_funct bne = Opcode.bne
branch_funct blt = Opcode.blt
branch_funct bltu = Opcode.bltu
branch_funct bge = Opcode.bge
branch_funct bgeu = Opcode.bgeu

-- The word of an instruction, its fields taken from the opcode table as the generator takes them.
abbrev pub encode : Instr → ℕ
encode (alu op rd rs1 rs2) = encode_r (alu_funct op / 8 % 2 * 2 ^ 5) rs2 rs1 (alu_funct op % 8) rd
encode (alu_imm op rd rs1 imm) = encode_i imm rs1 (imm_funct op % 8) rd 0x13
encode (jalr rd rs1 imm) = encode_i imm rs1 (Opcode.jalr % 8) rd 0x03
encode (load op rd rs1 imm) = encode_i imm rs1 (load_funct op % 8) rd 0x03
encode (store op src base imm) = encode_s imm base src (store_funct op)
encode (branch op rs1 rs2 imm) = encode_b imm rs2 rs1 (branch_funct op)
encode (lui rd imm) = encode_u imm rd Opcode.lui
encode (auipc rd imm) = encode_u imm rd Opcode.auipc
encode (jal rd imm) = encode_j imm rd

-- The fields fit their places, and the offset of a branch or a jump is even.
abbrev pub IsValid : Instr → Type 0
IsValid (alu op rd rs1 rs2) = (rd < 32) × (rs1 < 32) × (rs2 < 32)
IsValid (alu_imm op rd rs1 imm) = (rd < 32) × (rs1 < 32) × (imm < 2 ^ 12)
IsValid (jalr rd rs1 imm) = (rd < 32) × (rs1 < 32) × (imm < 2 ^ 12)
IsValid (load op rd rs1 imm) = (rd < 32) × (rs1 < 32) × (imm < 2 ^ 12)
IsValid (store op src base imm) = (src < 32) × (base < 32) × (imm < 2 ^ 12)
IsValid (branch op rs1 rs2 imm) = (rs1 < 32) × (rs2 < 32) × (imm < 2 ^ 13) × (imm % 2 ≡ 0)
IsValid (lui rd imm) = (rd < 32) × (imm < 2 ^ 20)
IsValid (auipc rd imm) = (rd < 32) × (imm < 2 ^ 20)
IsValid (jal rd imm) = (rd < 32) × (imm < 2 ^ 21) × (imm % 2 ≡ 0)
