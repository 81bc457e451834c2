-- ===== src/Mips/Opcode.antt =====
-- mips/shared/mips_instr_defines.h: the function field of an R-type instruction, the opcode of the
-- others, and for the branches of opcode `bvar` the field rt.
use simple_cpu.Base.{ℕ}

abbrev pub add : ℕ
add = 0x20

abbrev pub addu : ℕ
addu = 0x21

abbrev pub addi : ℕ
addi = 0x8

abbrev pub addiu : ℕ
addiu = 0x9

abbrev pub and : ℕ
and = 0x24

abbrev pub andi : ℕ
andi = 0xc

abbrev pub bvar : ℕ
bvar = 0x1

abbrev pub beq : ℕ
beq = 0x4

abbrev pub bgez : ℕ
bgez = 0x1

abbrev pub bgezal : ℕ
bgezal = 0x11

abbrev pub bltz : ℕ
bltz = 0x0

abbrev pub bltzal : ℕ
bltzal = 0x10

abbrev pub bgtz : ℕ
bgtz = 0x7

abbrev pub blez : ℕ
blez = 0x6

abbrev pub bne : ℕ
bne = 0x5

abbrev pub div : ℕ
div = 0x1a

abbrev pub divu : ℕ
divu = 0x1b

abbrev pub j : ℕ
j = 0x2

abbrev pub jal : ℕ
jal = 0x3

abbrev pub jalr : ℕ
jalr = 0x9

abbrev pub jr : ℕ
jr = 0x8

abbrev pub lb : ℕ
lb = 0x20

abbrev pub lbu : ℕ
lbu = 0x24

abbrev pub lh : ℕ
lh = 0x21

abbrev pub lhu : ℕ
lhu = 0x25

abbrev pub lui : ℕ
lui = 0xf

abbrev pub lw : ℕ
lw = 0x23

abbrev pub mfhi : ℕ
mfhi = 0x10

abbrev pub mflo : ℕ
mflo = 0x12

abbrev pub mthi : ℕ
mthi = 0x11

abbrev pub mtlo : ℕ
mtlo = 0x13

abbrev pub mult : ℕ
mult = 0x18

abbrev pub multu : ℕ
multu = 0x19

abbrev pub nor : ℕ
nor = 0x27

abbrev pub or : ℕ
or = 0x25

abbrev pub ori : ℕ
ori = 0xd

abbrev pub sb : ℕ
sb = 0x28

abbrev pub sh : ℕ
sh = 0x29

abbrev pub sw : ℕ
sw = 0x2b

abbrev pub sll : ℕ
sll = 0x0

abbrev pub sllv : ℕ
sllv = 0x4

abbrev pub slt : ℕ
slt = 0x2a

abbrev pub slti : ℕ
slti = 0xa

abbrev pub sltiu : ℕ
sltiu = 0xb

abbrev pub sltu : ℕ
sltu = 0x2b

abbrev pub sra : ℕ
sra = 0x3

abbrev pub srav : ℕ
srav = 0x7

abbrev pub srl : ℕ
srl = 0x2

abbrev pub srlv : ℕ
srlv = 0x6

abbrev pub sub : ℕ
sub = 0x22

abbrev pub subu : ℕ
subu = 0x23

abbrev pub syscall : ℕ
syscall = 0xc

abbrev pub xor : ℕ
xor = 0x26

abbrev pub xori : ℕ
xori = 0xe
