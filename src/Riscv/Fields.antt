-- ===== src/Riscv/Fields.antt =====
-- The fields that the simulator decodes from a word of the generator.
pub mod Jump
pub mod Formats
use simple_cpu.Base.{
  ℕ, ◌*◌, ◌/◌, ◌%◌, ◌^◌, ◌<◌, ◌≡◌, arith, ◌<<<◌, ◌>>>◌, bit_and, bit_or, bit_and_mask,
  bit_or_fields,
}
use simple_cpu.Riscv.Machine.{Simulator}
use simple_cpu.Riscv.Encode.{encode_r, encode_i, encode_s, encode_b, encode_u, encode_j}
use simple_cpu.Riscv.Execute.Register.{execute_r, decode_r}
use simple_cpu.Riscv.Execute.Immediate.{execute_i, decode_i}
use simple_cpu.Riscv.Execute.Transfer.{
  execute_s, decode_s, execute_b, decode_b, execute_u, decode_u, execute_j, decode_j,
}

module _ (f7 rs2 rs1 f3 rd : ℕ) where
  pub r_fields :
      f7 < 128
      → rs2 < 32
      → rs1 < 32
      → f3 < 8
      → rd < 32
      → (bit_and (encode_r f7 rs2 rs1 f3 rd >>> 15) 0x1f ≡ rs1)
        × (bit_and (encode_r f7 rs2 rs1 f3 rd >>> 20) 0x1f ≡ rs2)
        × (bit_and (encode_r f7 rs2 rs1 f3 rd >>> 7) 0x1f ≡ rd)
        × (bit_and (encode_r f7 rs2 rs1 f3 rd >>> 12) 0x07 ≡ f3)
        × (bit_and (encode_r f7 rs2 rs1 f3 rd >>> 25) 0x7f ≡ f7)
        × (bit_and (encode_r f7 rs2 rs1 f3 rd) 0x7f ≡ 0x33)
  unfolding encode_r
  r_fields h7 h2 h1 h3 hd =
      let w = encode_r f7 rs2 rs1 f3 rd in
      (
        omega (arith, bit_and_mask 5 (w / 2 ^ 15)),
        omega (arith, bit_and_mask 5 (w / 2 ^ 20)),
        omega (arith, bit_and_mask 5 (w / 2 ^ 7)),
        omega (arith, bit_and_mask 3 (w / 2 ^ 12)),
        omega (arith, bit_and_mask 7 (w / 2 ^ 25)),
        omega (arith, bit_and_mask 7 w),
      )

  -- An R-type word that the generator puts together from fields in range is executed by the
  -- simulator with the same fields.
  pub decode_r-encode_r :
      (s : Simulator)
      → f7 < 128
      → rs2 < 32
      → rs1 < 32
      → f3 < 8
      → rd < 32
      → decode_r (encode_r f7 rs2 rs1 f3 rd) s ≡ execute_r rs1 rs2 rd f7 f3 s
  unfolding decode_r
  decode_r-encode_r s h7 h2 h1 h3 hd =
      let (e1, e2, ed, e3, e7, eo) = r_fields h7 h2 h1 h3 hd in rw (e1, e2, ed, e3, e7)

module _ (imm rs1 f3 rd opcode : ℕ) where
  pub i_fields :
      imm < 2 ^ 12
      → rs1 < 32
      → f3 < 8
      → rd < 32
      → opcode < 128
      → (bit_and (encode_i imm rs1 f3 rd opcode >>> 12) 0x07 ≡ f3)
        × (bit_and (encode_i imm rs1 f3 rd opcode) 0x7f ≡ opcode)
        × (bit_and (encode_i imm rs1 f3 rd opcode >>> 15) 0x1f ≡ rs1)
        × (bit_and (encode_i imm rs1 f3 rd opcode >>> 7) 0x1f ≡ rd)
        × (bit_and (encode_i imm rs1 f3 rd opcode >>> 20) 0xfff ≡ imm)
  unfolding encode_i
  i_fields hi h1 h3 hd ho =
      let w = encode_i imm rs1 f3 rd opcode in
      (
        omega (arith, bit_and_mask 3 (w / 2 ^ 12)),
        omega (arith, bit_and_mask 7 w),
        omega (arith, bit_and_mask 5 (w / 2 ^ 15)),
        omega (arith, bit_and_mask 5 (w / 2 ^ 7)),
        omega (arith, bit_and_mask 12 (w / 2 ^ 20)),
      )

  -- An I-type word that the generator puts together from fields in range, an immediate of 12 bits
  -- among them, is executed by the simulator with the same fields.
  pub decode_i-encode_i :
      (s : Simulator)
      → imm < 2 ^ 12
      → rs1 < 32
      → f3 < 8
      → rd < 32
      → opcode < 128
      → decode_i (encode_i imm rs1 f3 rd opcode) s ≡ execute_i f3 opcode rs1 rd imm s
  unfolding decode_i
  decode_i-encode_i s hi h1 h3 hd ho =
      let (e3, eo, e1, ed, ei) = i_fields hi h1 h3 hd ho in rw (e3, eo, e1, ed, ei)

module _ (imm rs2 rs1 f3 : ℕ) where
  pub s_fields :
      imm < 2 ^ 12
      → rs2 < 32
      → rs1 < 32
      → f3 < 8
      → (bit_and (encode_s imm rs2 rs1 f3 >>> 12) 0x07 ≡ f3)
        × (bit_and (encode_s imm rs2 rs1 f3 >>> 15) 0x1f ≡ rs1)
        × (bit_and (encode_s imm rs2 rs1 f3 >>> 20) 0x1f ≡ rs2)
        × (bit_and (encode_s imm rs2 rs1 f3 >>> 25) 0x7f ≡ imm / 2 ^ 5)
        × (bit_and (encode_s imm rs2 rs1 f3 >>> 7) 0x1f ≡ imm % 2 ^ 5)
        × (bit_and (encode_s imm rs2 rs1 f3) 0x7f ≡ 0x23)
  unfolding encode_s
  s_fields hi h2 h1 h3 =
      let w = encode_s imm rs2 rs1 f3 in
      (
        omega (arith, bit_and_mask 5 imm, bit_and_mask 3 (w / 2 ^ 12)),
        omega (arith, bit_and_mask 5 imm, bit_and_mask 5 (w / 2 ^ 15)),
        omega (arith, bit_and_mask 5 imm, bit_and_mask 5 (w / 2 ^ 20)),
        omega (arith, bit_and_mask 5 imm, bit_and_mask 7 (w / 2 ^ 25)),
        omega (arith, bit_and_mask 5 imm, bit_and_mask 5 (w / 2 ^ 7)),
        omega (arith, bit_and_mask 5 imm, bit_and_mask 7 w),
      )

  s_imm : imm < 2 ^ 12 → bit_or (imm / 2 ^ 5 <<< 5) (imm % 2 ^ 5) ≡ imm
  s_imm hi = ground (arith, bit_or_fields 5 (imm / 2 ^ 5) (imm % 2 ^ 5) (omega arith))

  -- An S-type word that the generator puts together from fields in range is executed by the
  -- simulator with the same fields: the two parts of the 12-bit immediate are joined again.
  pub decode_s-encode_s :
      (s : Simulator)
      → imm < 2 ^ 12
      → rs2 < 32
      → rs1 < 32
      → f3 < 8
      → decode_s (encode_s imm rs2 rs1 f3) s ≡ execute_s f3 rs1 rs2 imm s
  unfolding decode_s
  decode_s-encode_s s hi h2 h1 h3 =
      let (e3, e1, e2, eh, el, eo) = s_fields hi h2 h1 h3 in rw (e3, e1, e2, eh, el, s_imm hi)
