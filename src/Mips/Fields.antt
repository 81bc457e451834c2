-- ===== src/Mips/Fields.antt =====
-- The fields that the simulator decodes from a word of the generator, and its dispatch on them.
pub mod Formats
use simple_cpu.Base.{
  ◌∙◌, Bool-cases, ℕ, ◌/◌, ◌^◌, ◌<◌, ◌≡◌, ◌≢◌, arith, some, ◌==◌, ◌||◌, ◌>>>◌, bit_and,
  bit_and_mask, true,
}
use simple_cpu.Mips.Machine.{Simulator, next_pc}
use simple_cpu.Mips.Encode.{encode_r, encode_i, encode_j}
use simple_cpu.Mips.Execute.Register.{execute_r, decode_r, is_shift}
use simple_cpu.Mips.Execute.Access.{execute_i, decode_i}
use simple_cpu.Mips.Execute.Jump.{execute_j, decode_j}
use simple_cpu.Mips.Run.{i_type, j_type, decode_instr_type, dispatch}

module _ (rs rt rd shamt funct : ℕ) where
  pub r_fields :
      rs < 32
      → rt < 32
      → rd < 32
      → shamt < 32
      → funct < 64
      → (bit_and (encode_r rs rt rd shamt funct >>> 21) 0x1f ≡ rs)
        × (bit_and (encode_r rs rt rd shamt funct >>> 16) 0x1f ≡ rt)
        × (bit_and (encode_r rs rt rd shamt funct >>> 11) 0x1f ≡ rd)
        × (bit_and (encode_r rs rt rd shamt funct >>> 6) 0x1f ≡ shamt)
        × (bit_and (encode_r rs rt rd shamt funct) 0x3f ≡ funct)
        × (encode_r rs rt rd shamt funct >>> 26 ≡ 0)
  unfolding encode_r
  r_fields hs ht hd ha hf =
      let w = encode_r rs rt rd shamt funct in
      (
        omega (arith, bit_and_mask 5 (w / 2 ^ 21)),
        omega (arith, bit_and_mask 5 (w / 2 ^ 16)),
        omega (arith, bit_and_mask 5 (w / 2 ^ 11)),
        omega (arith, bit_and_mask 5 (w / 2 ^ 6)),
        omega (arith, bit_and_mask 6 w),
        omega arith,
      )

  -- An R-type word that the generator puts together from fields in range is dispatched as one,
  -- and executed with the same fields.
  pub dispatch-encode_r :
      (s : Simulator)
      → rs < 32
      → rt < 32
      → rd < 32
      → shamt < 32
      → funct < 64
      → dispatch
          (decode_instr_type (encode_r rs rt rd shamt funct))
          (encode_r rs rt rd shamt funct)
          s
        ≡ execute_r rs rt rd shamt funct s
  unfolding dispatch decode_instr_type decode_r
  dispatch-encode_r s hs ht hd ha hf =
      let (es, et, ed, ea, ef, eo) = r_fields hs ht hd ha hf in
      rw (eo, dispatch) (rw (es, et, ed, ea, ef))

-- An R-type word with destination 0, whatever its other fields in range, `jr` and `mult` as the
-- standard encodes them among them, only moves on to the next instruction and notes for the
-- checks whether it is a shift, unless it is `SYSCALL`.
pub dispatch-encode_r_zero :
    (rs rt shamt funct : ℕ) (s : Simulator)
    → rs < 32
    → rt < 32
    → shamt < 32
    → funct < 64
    → funct ≢ 0xc
    → dispatch (decode_instr_type (encode_r rs rt 0 shamt funct)) (encode_r rs rt 0 shamt funct) s
      ≡ some (next_pc (record s { rt_as_src = is_shift funct || s.rt_as_src }))
unfolding execute_r
dispatch-encode_r_zero rs rt shamt funct s hs ht ha hf other =
    dispatch-encode_r rs rt 0 shamt funct s hs ht (omega arith) ha hf
    ∙ ground (arith, Bool-cases (is_shift funct))

module _ (opcode rs rt imm : ℕ) where
  pub i_fields :
      opcode < 64
      → rs < 32
      → rt < 32
      → imm < 2 ^ 16
      → (bit_and (encode_i opcode rs rt imm >>> 26) 0x3f ≡ opcode)
        × (bit_and (encode_i opcode rs rt imm >>> 21) 0x1f ≡ rs)
        × (bit_and (encode_i opcode rs rt imm >>> 16) 0x1f ≡ rt)
        × (bit_and (encode_i opcode rs rt imm) 0xffff ≡ imm)
        × (encode_i opcode rs rt imm >>> 26 ≡ opcode)
  unfolding encode_i
  i_fields ho hs ht hi =
      let w = encode_i opcode rs rt imm in
      (
        omega (arith, bit_and_mask 6 (w / 2 ^ 26)),
        omega (arith, bit_and_mask 5 (w / 2 ^ 21)),
        omega (arith, bit_and_mask 5 (w / 2 ^ 16)),
        omega (arith, bit_and_mask 16 w),
        omega arith,
      )

  -- An I-type word that the generator puts together from fields in range, with an opcode other
  -- than 0, 2 and 3, is dispatched as one, and executed with the same fields.
  pub dispatch-encode_i :
      (s : Simulator)
      → opcode ≢ 0
      → opcode ≢ 2
      → opcode ≢ 3
      → opcode < 64
      → rs < 32
      → rt < 32
      → imm < 2 ^ 16
      → dispatch (decode_instr_type (encode_i opcode rs rt imm)) (encode_i opcode rs rt imm) s
        ≡ execute_i opcode rs rt imm s
  unfolding dispatch decode_instr_type decode_i
  dispatch-encode_i s n0 n2 n3 ho hs ht hi =
      let (eo, es, et, ei, top) = i_fields ho hs ht hi in
      let typed : decode_instr_type (encode_i opcode rs rt imm) ≡ i_type = ground (arith, top) in
      rw (typed, dispatch) (rw (eo, es, et, ei))

module _ (opcode target : ℕ) where
  pub j_fields :
      opcode < 64
      → target < 2 ^ 26
      → (bit_and (encode_j opcode target >>> 26) 0x3f ≡ opcode)
        × (bit_and (encode_j opcode target) 0x3ffffff ≡ target)
        × (encode_j opcode target >>> 26 ≡ opcode)
  unfolding encode_j
  j_fields ho ht =
      let w = encode_j opcode target in
      (omega (arith, bit_and_mask 6 (w / 2 ^ 26)), omega (arith, bit_and_mask 26 w), omega arith)

  -- A J-type word that the generator puts together from the opcode 2 or 3 and a target of 26 bits
  -- is dispatched as one, and executed with the same fields.
  pub dispatch-encode_j :
      (s : Simulator)
      → (opcode == 2 || opcode == 3) ≡ true
      → target < 2 ^ 26
      → dispatch (decode_instr_type (encode_j opcode target)) (encode_j opcode target) s
        ≡ some (execute_j opcode target s)
  unfolding dispatch decode_instr_type decode_j
  dispatch-encode_j s jump ht =
      let (eo, et, top) = j_fields (ground arith) ht in
      let typed : decode_instr_type (encode_j opcode target) ≡ j_type = ground (arith, top) in
      rw (typed, dispatch) (rw (eo, et))
