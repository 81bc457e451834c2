-- ===== src/Riscv/Encode.antt =====
-- The instruction words that risc-v/hex_gen/src/hex_gen.c puts together from the fields: the
-- assignments to `hex_instr`. The `int` sums wrap.
use simple_cpu.Base.{ℕ, ◌+◌, u32, ◌<<<◌, ◌>>>◌, bit_and}

unfoldable pub encode_r : ℕ → ℕ → ℕ → ℕ → ℕ → ℕ
encode_r funct7 rs2 rs1 funct3 rd =
    u32 ((funct7 <<< 25) + (rs2 <<< 20) + (rs1 <<< 15) + (funct3 <<< 12) + (rd <<< 7) + 0x33)

unfoldable pub encode_i : ℕ → ℕ → ℕ → ℕ → ℕ → ℕ
encode_i imm rs1 funct3 rd opcode =
    u32 ((imm <<< 20) + (rs1 <<< 15) + (funct3 <<< 12) + (rd <<< 7) + opcode)

unfoldable pub encode_s : ℕ → ℕ → ℕ → ℕ → ℕ
encode_s imm rs2 rs1 funct3 = u32 (
    (imm >>> 5 <<< 25)
    + (rs2 <<< 20)
    + (rs1 <<< 15)
    + (funct3 <<< 12)
    + (bit_and imm 0x1f <<< 7)
    + 0x23)

unfoldable pub encode_b : ℕ → ℕ → ℕ → ℕ → ℕ
encode_b imm rs2 rs1 funct3 = u32 (
    (imm >>> 12 <<< 31)
    + (bit_and (imm >>> 5) 0x3f <<< 25)
    + (rs2 <<< 20)
    + (rs1 <<< 15)
    + (funct3 <<< 12)
    + (bit_and (imm >>> 1) 0xf <<< 8)
    + (bit_and (imm >>> 11) 0x1 <<< 7)
    + 0x63)

unfoldable pub encode_u : ℕ → ℕ → ℕ → ℕ
encode_u imm rd opcode = u32 ((imm <<< 12) + (rd <<< 7) + opcode)

unfoldable pub encode_j : ℕ → ℕ → ℕ
encode_j imm rd = u32 (
    (bit_and (imm >>> 20) 0x1 <<< 31)
    + (bit_and (imm >>> 1) 0x3ff <<< 21)
    + (bit_and (imm >>> 11) 0x1 <<< 20)
    + (bit_and (imm >>> 12) 0xff <<< 12)
    + (rd <<< 7)
    + 0x6f)
