-- ===== src/Riscv/Fields/Jump.antt =====
-- The same for the words whose immediates are scattered or long: branches, U-type words and jumps.
use simple_cpu.Base.{
  ℕ, ◌*◌, ◌/◌, ◌%◌, ◌^◌, ◌<◌, ◌≡◌, arith, ◌<<<◌, ◌>>>◌, bit_and, bit_or, bit_and_mask,
  bit_or_fields,
}
use simple_cpu.Riscv.Machine.{Simulator}
use simple_cpu.Riscv.Encode.{encode_b, encode_u, encode_j}
use simple_cpu.Riscv.Execute.Transfer.{
  execute_b, decode_b, execute_u, decode_u, execute_j, decode_j,
}

module _ (imm rs2 rs1 f3 : ℕ) where
  pub b_fields :
      imm < 2 ^ 13
      → rs2 < 32
      → rs1 < 32
      → f3 < 8
      → (bit_and (encode_b imm rs2 rs1 f3 >>> 12) 0x07 ≡ f3)
        × (bit_and (encode_b imm rs2 rs1 f3 >>> 15) 0x1f ≡ rs1)
        × (bit_and (encode_b imm rs2 rs1 f3 >>> 20) 0x1f ≡ rs2)
        × (bit_and (encode_b imm rs2 rs1 f3 >>> 31) 0x01 ≡ imm / 2 ^ 12)
        × (bit_and (encode_b imm rs2 rs1 f3 >>> 7) 0x01 ≡ imm / 2 ^ 11 % 2)
        × (bit_and (encode_b imm rs2 rs1 f3 >>> 25) 0x3f ≡ imm / 2 ^ 5 % 2 ^ 6)
        × (bit_and (encode_b imm rs2 rs1 f3 >>> 8) 0x0f ≡ imm / 2 % 2 ^ 4)
        × (bit_and (encode_b imm rs2 rs1 f3) 0x7f ≡ 0x63)
  unfolding encode_b
  b_fields hi h2 h1 h3 =
      let w = encode_b imm rs2 rs1 f3 in
      let m6 = bit_and_mask 6 (imm / 2 ^ 5) in
      let m4 = bit_and_mask 4 (imm / 2 ^ 1) in
      let m1 = bit_and_mask 1 (imm / 2 ^ 11) in
      (
        omega (arith, m6, m4, m1, bit_and_mask 3 (w / 2 ^ 12)),
        omega (arith, m6, m4, m1, bit_and_mask 5 (w / 2 ^ 15)),
        omega (arith, m6, m4, m1, bit_and_mask 5 (w / 2 ^ 20)),
        omega (arith, m6, m4, m1, bit_and_mask 1 (w / 2 ^ 31)),
        omega (arith, m6, m4, m1, bit_and_mask 1 (w / 2 ^ 7)),
        omega (arith, m6, m4, m1, bit_and_mask 6 (w / 2 ^ 25)),
        omega (arith, m6, m4, m1, bit_and_mask 4 (w / 2 ^ 8)),
        omega (arith, m6, m4, m1, bit_and_mask 7 w),
      )

  -- The parts of an even offset, put together again.
  b_imm :
      imm < 2 ^ 13
      → imm % 2 ≡ 0
      → bit_or
          (bit_or
            (bit_or (imm / 2 ^ 12 <<< 12) (imm / 2 ^ 11 % 2 <<< 11))
            (imm / 2 ^ 5 % 2 ^ 6 <<< 5))
          (imm / 2 % 2 ^ 4 <<< 1)
        ≡ imm
  b_imm hi even = ground (
    arith,
    bit_or_fields 12 (imm / 2 ^ 12) (imm / 2 ^ 11 % 2 * 2 ^ 11) (omega arith),
    bit_or_fields 11 (imm / 2 ^ 11) (imm / 2 ^ 5 % 2 ^ 6 * 2 ^ 5) (omega arith),
    bit_or_fields 5 (imm / 2 ^ 5) (imm / 2 % 2 ^ 4 * 2) (omega arith),
  )

  -- A B-type word that the generator puts together from fields in range and an even immediate of
  -- 13 bits is executed by the simulator with the same fields: the four parts of the immediate
  -- are joined again.
  pub decode_b-encode_b :
      (s : Simulator)
      → imm < 2 ^ 13
      → imm % 2 ≡ 0
      → rs2 < 32
      → rs1 < 32
      → f3 < 8
      → decode_b (encode_b imm rs2 rs1 f3) s ≡ execute_b f3 rs1 rs2 imm s
  unfolding decode_b
  decode_b-encode_b s hi even h2 h1 h3 =
      let (e3, e1, e2, e12, e11, e5, e1', eo) = b_fields hi h2 h1 h3 in
      rw (e3, e1, e2, e12, e11, e5, e1', b_imm hi even)

module _ (imm rd opcode : ℕ) where
  pub u_fields :
      imm < 2 ^ 20
      → rd < 32
      → opcode < 128
      → (bit_and (encode_u imm rd opcode) 0x7f ≡ opcode)
        × (bit_and (encode_u imm rd opcode >>> 7) 0x1f ≡ rd)
        × (bit_and (encode_u imm rd opcode >>> 12) 0xfffff ≡ imm)
  unfolding encode_u
  u_fields hi hd ho =
      let w = encode_u imm rd opcode in
      (
        omega (arith, bit_and_mask 7 w),
        omega (arith, bit_and_mask 5 (w / 2 ^ 7)),
        omega (arith, bit_and_mask 20 (w / 2 ^ 12)),
      )

  -- A U-type word that the generator puts together from an immediate of 20 bits, a register and
  -- an opcode is executed by the simulator with the same fields.
  pub decode_u-encode_u :
      (s : Simulator)
      → imm < 2 ^ 20
      → rd < 32
      → opcode < 128
      → decode_u (encode_u imm rd opcode) s ≡ execute_u opcode rd imm s
  unfolding decode_u
  decode_u-encode_u s hi hd ho = let (eo, ed, ei) = u_fields hi hd ho in rw (eo, ed, ei)

module _ (imm rd : ℕ) where
  pub j_fields :
      imm < 2 ^ 21
      → rd < 32
      → (bit_and (encode_j imm rd >>> 7) 0x1f ≡ rd)
        × (bit_and (encode_j imm rd >>> 31) 0x01 ≡ imm / 2 ^ 20)
        × (bit_and (encode_j imm rd >>> 12) 0xff ≡ imm / 2 ^ 12 % 2 ^ 8)
        × (bit_and (encode_j imm rd >>> 20) 0x01 ≡ imm / 2 ^ 11 % 2)
        × (bit_and (encode_j imm rd >>> 21) 0x3ff ≡ imm / 2 % 2 ^ 10)
        × (bit_and (encode_j imm rd) 0x7f ≡ 0x6f)
  unfolding encode_j
  j_fields hi hd =
      let w = encode_j imm rd in
      let m20 = bit_and_mask 1 (imm / 2 ^ 20) in
      let m10 = bit_and_mask 10 (imm / 2 ^ 1) in
      let m1 = bit_and_mask 1 (imm / 2 ^ 11) in
      let m8 = bit_and_mask 8 (imm / 2 ^ 12) in
      (
        omega (arith, m20, m10, m1, m8, bit_and_mask 5 (w / 2 ^ 7)),
        omega (arith, m20, m10, m1, m8, bit_and_mask 1 (w / 2 ^ 31)),
        omega (arith, m20, m10, m1, m8, bit_and_mask 8 (w / 2 ^ 12)),
        omega (arith, m20, m10, m1, m8, bit_and_mask 1 (w / 2 ^ 20)),
        omega (arith, m20, m10, m1, m8, bit_and_mask 10 (w / 2 ^ 21)),
        omega (arith, m20, m10, m1, m8, bit_and_mask 7 w),
      )

  j_imm :
      imm < 2 ^ 21
      → imm % 2 ≡ 0
      → bit_or
          (bit_or
            (bit_or (imm / 2 ^ 20 <<< 20) (imm / 2 ^ 12 % 2 ^ 8 <<< 12))
            (imm / 2 ^ 11 % 2 <<< 11))
          (imm / 2 % 2 ^ 10 <<< 1)
        ≡ imm
  j_imm hi even = ground (
    arith,
    bit_or_fields 20 (imm / 2 ^ 20) (imm / 2 ^ 12 % 2 ^ 8 * 2 ^ 12) (omega arith),
    bit_or_fields 12 (imm / 2 ^ 12) (imm / 2 ^ 11 % 2 * 2 ^ 11) (omega arith),
    bit_or_fields 11 (imm / 2 ^ 11) (imm / 2 % 2 ^ 10 * 2) (omega arith),
  )

  -- A J-type word that the generator puts together from an even immediate of 21 bits and a
  -- register is executed by the simulator with the same fields: the four parts of the immediate
  -- are joined again.
  pub decode_j-encode_j :
      (s : Simulator)
      → imm < 2 ^ 21
      → imm % 2 ≡ 0
      → rd < 32
      → decode_j (encode_j imm rd) s ≡ execute_j rd imm s
  unfolding decode_j
  decode_j-encode_j s hi even hd =
      let (ed, e20, e12, e11, e1, eo) = j_fields hi hd in rw (ed, e20, e12, e11, e1, j_imm hi even)
