-- ===== src/Mips/Encode.antt =====
-- The instruction words that mips/hex_gen/src/hex_gen.c puts together from the fields: the
-- assignments to `hex_instr`. The `int` sums wrap.
use simple_cpu.Base.{ℕ, ◌+◌, u32, ◌<<<◌}

unfoldable pub encode_r : ℕ → ℕ → ℕ → ℕ → ℕ → ℕ
encode_r rs rt rd shamt funct =
    u32 ((0 <<< 26) + (rs <<< 21) + (rt <<< 16) + (rd <<< 11) + (shamt <<< 6) + funct)

unfoldable pub encode_i : ℕ → ℕ → ℕ → ℕ → ℕ
encode_i opcode rs rt imm = u32 ((opcode <<< 26) + (rs <<< 21) + (rt <<< 16) + imm)

unfoldable pub encode_j : ℕ → ℕ → ℕ
encode_j opcode target = u32 ((opcode <<< 26) + target)
