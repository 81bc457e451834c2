-- ===== src/Riscv/Opcode.antt =====
-- risc-v/shared/riscv_instr_defines.h: for an R-type the bit funct7[5] and funct3, for an I-type bit
-- 4 of the opcode and funct3, for an S- or B-type funct3, for a U-type the opcode.
use simple_cpu.Base.{ℕ}

abbrev pub add : ℕ
add = 0x0

abbrev pub addi : ℕ
addi = 0x10

abbrev pub and : ℕ
and = 0x7

abbrev pub andi : ℕ
andi = 0x1c

abbrev pub beq : ℕ
beq = 0x0

abbrev pub bne : ℕ
bne = 0x1

abbrev pub blt : ℕ
blt = 0x4

abbrev pub bge : ℕ
bge = 0x5

abbrev pub bltu : ℕ
bltu = 0x6

abbrev pub bgeu : ℕ
bgeu = 0x7

abbrev pub jal : ℕ
jal = 0x3

abbrev pub jalr : ℕ
jalr = 0x7

abbrev pub lb : ℕ
lb = 0x0

abbrev pub lbu : ℕ
lbu = 0x4

abbrev pub lh : ℕ
lh = 0x1

abbrev pub lhu : ℕ
lhu = 0x5

abbrev pub lw : ℕ
lw = 0x2

abbrev pub auipc : ℕ
auipc = 0x27

abbrev pub lui : ℕ
lui = 0x37

abbrev pub or : ℕ
or = 0x6

abbrev pub ori : ℕ
ori = 0x16

abbrev pub sb : ℕ
sb = 0x0

abbrev pub sh : ℕ
sh = 0x1

abbrev pub sw : ℕ
sw = 0x2

abbrev pub sll : ℕ
sll = 0x1

abbrev pub slli : ℕ
slli = 0x1

abbrev pub slt : ℕ
slt = 0x2

abbrev pub slti : ℕ
slti = 0x12

abbrev pub sltiu : ℕ
sltiu = 0x13

abbrev pub sltu : ℕ
sltu = 0x3

abbrev pub sra : ℕ
sra = 0xd

abbrev pub srai : ℕ
srai = 0x15

abbrev pub srl : ℕ
srl = 0x5

abbrev pub srli : ℕ
srli = 0x5

abbrev pub sub : ℕ
sub = 0x8

abbrev pub xor : ℕ
xor = 0x4

abbrev pub xori : ℕ
xori = 0x14
