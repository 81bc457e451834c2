-- ===== src/Riscv/Fields/Formats.antt =====
-- The six formats of instruction words together: what risc-v/hex_gen/src/hex_gen.c puts together, and
-- what the dispatch of risc-v/iss/src/sim.c makes of it.
use simple_cpu.Base.{ℕ, ◌%◌, ◌^◌, ◌<◌, ◌≡◌, arith, ap, true, Option, some, ◌==◌, ◌||◌}
use simple_cpu.Riscv.Machine.{Simulator}
use simple_cpu.Riscv.Opcode
use simple_cpu.Riscv.Encode.{encode_r, encode_i, encode_s, encode_b, encode_u, encode_j}
use simple_cpu.Riscv.Execute.Register.{execute_r}
use simple_cpu.Riscv.Execute.Immediate.{execute_i}
use simple_cpu.Riscv.Execute.Transfer.{execute_s, execute_b, execute_u, execute_j}
use simple_cpu.Riscv.Run.{
  InstrType, r_type, i_type, s_type, b_type, u_type, j_type, decode_instr_type, dispatch,
}
use simple_cpu.Riscv.Fields.{
  r_fields, i_fields, s_fields, decode_r-encode_r, decode_i-encode_i, decode_s-encode_s,
}
use simple_cpu.Riscv.Fields.Jump.{
  b_fields, u_fields, j_fields, decode_b-encode_b, decode_u-encode_u, decode_j-encode_j,
}

-- The fields in the order of the generator's assignments.
pub data Format : Type 0 where
  r_format : (f7 rs2 rs1 f3 rd : ℕ) → Format
  i_format : (imm rs1 f3 rd opcode : ℕ) → Format
  s_format : (imm rs2 rs1 f3 : ℕ) → Format
  b_format : (imm rs2 rs1 f3 : ℕ) → Format
  u_format : (imm rd opcode : ℕ) → Format
  j_format : (imm rd : ℕ) → Format

abbrev pub assemble : Format → ℕ
assemble (r_format f7 rs2 rs1 f3 rd) = encode_r f7 rs2 rs1 f3 rd
assemble (i_format imm rs1 f3 rd opcode) = encode_i imm rs1 f3 rd opcode
assemble (s_format imm rs2 rs1 f3) = encode_s imm rs2 rs1 f3
assemble (b_format imm rs2 rs1 f3) = encode_b imm rs2 rs1 f3
assemble (u_format imm rd opcode) = encode_u imm rd opcode
assemble (j_format imm rd) = encode_j imm rd

abbrev pub execute : Format → Simulator → Option Simulator
execute (r_format f7 rs2 rs1 f3 rd) s = some (execute_r rs1 rs2 rd f7 f3 s)
execute (i_format imm rs1 f3 rd opcode) s = execute_i f3 opcode rs1 rd imm s
execute (s_format imm rs2 rs1 f3) s = execute_s f3 rs1 rs2 imm s
execute (b_format imm rs2 rs1 f3) s = some (execute_b f3 rs1 rs2 imm s)
execute (u_format imm rd opcode) s = some (execute_u opcode rd imm s)
execute (j_format imm rd) s = some (execute_j rd imm s)

-- Each field fits its place, the offsets of `b` and `j` are even, and the opcode is one of the type.
abbrev pub InRange : Format → Type 0
InRange (r_format f7 rs2 rs1 f3 rd) = (f7 < 128) × (rs2 < 32) × (rs1 < 32) × (f3 < 8) × (rd < 32)
InRange (i_format imm rs1 f3 rd opcode) =
    (imm < 2 ^ 12) × (rs1 < 32) × (f3 < 8) × (rd < 32) × ((opcode == 0x13 || opcode == 0x03) ≡ true)
InRange (s_format imm rs2 rs1 f3) = (imm < 2 ^ 12) × (rs2 < 32) × (rs1 < 32) × (f3 < 8)
InRange (b_format imm rs2 rs1 f3) =
    (imm < 2 ^ 13) × (imm % 2 ≡ 0) × (rs2 < 32) × (rs1 < 32) × (f3 < 8)
InRange (u_format imm rd opcode) =
    (imm < 2 ^ 20) × (rd < 32) × ((opcode == Opcode.auipc || opcode == Opcode.lui) ≡ true)
InRange (j_format imm rd) = (imm < 2 ^ 21) × (imm % 2 ≡ 0) × (rd < 32)

typed :
    (type : InstrType) (w : ℕ) (s : Simulator) (r : Option Simulator)
    → decode_instr_type w s ≡ (type, s)
    → dispatch type w s ≡ r
    → (let (t, s') = decode_instr_type w s in dispatch t w s') ≡ r
typed type w s r e f = rw e f

-- A word that the generator puts together in any of the six formats, from fields in range (the
-- immediates of B and J even, the opcode of I or U one of its type), is dispatched by its opcode
-- and executed with the same fields; the parts of the immediates are joined again.
pub dispatch-assemble :
    (x : Format) (s : Simulator)
    → InRange x
    → (let (type, s') = decode_instr_type (assemble x) s in dispatch type (assemble x) s')
      ≡ execute x s
unfolding decode_instr_type dispatch
dispatch-assemble (r_format f7 rs2 rs1 f3 rd) s (h7, h2, h1, h3, hd) =
    let top = (r_fields f7 rs2 rs1 f3 rd h7 h2 h1 h3 hd).5 in
    typed r_type (encode_r f7 rs2 rs1 f3 rd) s _ (ground (arith, top))
      (ap some (decode_r-encode_r f7 rs2 rs1 f3 rd s h7 h2 h1 h3 hd))
dispatch-assemble (i_format imm rs1 f3 rd opcode) s (hi, h1, h3, hd, ho) =
    let small : opcode < 128 = ground (arith, ho) in
    let top = (i_fields imm rs1 f3 rd opcode hi h1 h3 hd small).1 in
    typed i_type (encode_i imm rs1 f3 rd opcode) s _ (ground (arith, top, ho))
      (decode_i-encode_i imm rs1 f3 rd opcode s hi h1 h3 hd small)
dispatch-assemble (s_format imm rs2 rs1 f3) s (hi, h2, h1, h3) =
    let top = (s_fields imm rs2 rs1 f3 hi h2 h1 h3).5 in
    typed s_type (encode_s imm rs2 rs1 f3) s _ (ground (arith, top))
      (decode_s-encode_s imm rs2 rs1 f3 s hi h2 h1 h3)
dispatch-assemble (b_format imm rs2 rs1 f3) s (hi, even, h2, h1, h3) =
    let top = (b_fields imm rs2 rs1 f3 hi h2 h1 h3).7 in
    typed b_type (encode_b imm rs2 rs1 f3) s _ (ground (arith, top))
      (ap some (decode_b-encode_b imm rs2 rs1 f3 s hi even h2 h1 h3))
dispatch-assemble (u_format imm rd opcode) s (hi, hd, ho) =
    let small : opcode < 128 = ground (arith, ho) in
    let top = (u_fields imm rd opcode hi hd small).0 in
    typed u_type (encode_u imm rd opcode) s _ (ground (arith, top, ho))
      (ap some (decode_u-encode_u imm rd opcode s hi hd small))
dispatch-assemble (j_format imm rd) s (hi, even, hd) =
    let top = (j_fields imm rd hi hd).5 in
    typed j_type (encode_j imm rd) s _ (ground (arith, top))
      (ap some (decode_j-encode_j imm rd s hi even hd))
