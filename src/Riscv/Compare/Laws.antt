-- ===== src/Riscv/Compare/Laws.antt =====
-- What the checks of the hardware against the simulator accept.
use simple_cpu.Base.{
  ℕ, ◌/◌, ◌%◌, ◌^◌, ◌≡◌, ◌↔◌, ◌⊎◌, arith, true, false, ◌==◌, if◌then◌else◌, bit_and_mask,
}
use simple_cpu.Riscv.Machine.{Simulator}
use simple_cpu.Riscv.Compare.{compare_r, compare_i, compare_s, compare_b, compare_u, compare_j}
use simple_cpu.Riscv.Compare.Lockstep.{
  Report, r_report, i_report, s_report, b_report, u_report, j_report, check,
}

compare_r_iff :
    (pc instr rd rs1 rs2 rd_val rs1_val rs2_val : ℕ) (s : Simulator)
    → ((compare_r pc instr rd rs1 rs2 rd_val rs1_val rs2_val s).0 ≡ true) ↔ (
        (s.prev_pc ≡ pc)
        × (s.instr_opcode ≡ instr)
        × (instr / 2 ^ 7 % 2 ^ 5 ≡ rd)
        × (instr / 2 ^ 15 % 2 ^ 5 ≡ rs1)
        × (instr / 2 ^ 20 % 2 ^ 5 ≡ rs2)
        × (s.current.regs rd ≡ rd_val)
        × (s.current.regs rs1 ≡ (if rs1 == rd then rd_val else rs1_val))
        × (s.current.regs rs2 ≡ (if rs2 == rd then rd_val else rs2_val)))
unfolding compare_r
compare_r_iff pc instr rd rs1 rs2 rd_val rs1_val rs2_val s = ground (
  arith,
  bit_and_mask 5 (s.instr_opcode / 2 ^ 7),
  bit_and_mask 5 (s.instr_opcode / 2 ^ 15),
  bit_and_mask 5 (s.instr_opcode / 2 ^ 20),
)

compare_r-effect :
    (pc instr rd rs1 rs2 rd_val rs1_val rs2_val : ℕ) (s : Simulator)
    → (compare_r pc instr rd rs1 rs2 rd_val rs1_val rs2_val s
        ≡ (true, record s { prev_pc = s.current.pc }))
      ⊎ (compare_r pc instr rd rs1 rs2 rd_val rs1_val rs2_val s
          ≡ (false, record s { run_bit = false }))
unfolding compare_r
compare_r-effect pc instr rd rs1 rs2 rd_val rs1_val rs2_val s = ground arith

-- What a report has to say for its check to accept it: the program counter of the last match, the
-- word last executed, its register fields, and the values of these registers after it. A source
-- that is also the destination is compared by the value reported for the destination.
abbrev pub Agrees : Report → Simulator → Type 0
Agrees (r_report pc instr rd rs1 rs2 rd_val rs1_val rs2_val) s =
    (s.prev_pc ≡ pc)
    × (s.instr_opcode ≡ instr)
    × (instr / 2 ^ 7 % 2 ^ 5 ≡ rd)
    × (instr / 2 ^ 15 % 2 ^ 5 ≡ rs1)
    × (instr / 2 ^ 20 % 2 ^ 5 ≡ rs2)
    × (s.current.regs rd ≡ rd_val)
    × (s.current.regs rs1 ≡ (if rs1 == rd then rd_val else rs1_val))
    × (s.current.regs rs2 ≡ (if rs2 == rd then rd_val else rs2_val))
Agrees (i_report pc instr rd rs1 rd_val rs1_val) s =
    (s.prev_pc ≡ pc)
    × (s.instr_opcode ≡ instr)
    × (instr / 2 ^ 7 % 2 ^ 5 ≡ rd)
    × (instr / 2 ^ 15 % 2 ^ 5 ≡ rs1)
    × (s.current.regs rd ≡ rd_val)
    × (s.current.regs rs1 ≡ (if rs1 == rd then rd_val else rs1_val))
Agrees (s_report pc instr rs1 rs2 rs1_val rs2_val) s =
    (s.prev_pc ≡ pc)
    × (s.instr_opcode ≡ instr)
    × (instr / 2 ^ 15 % 2 ^ 5 ≡ rs1)
    × (instr / 2 ^ 20 % 2 ^ 5 ≡ rs2)
    × (s.current.regs rs1 ≡ rs1_val)
    × (s.current.regs rs2 ≡ rs2_val)
Agrees (b_report pc instr rs1 rs2 rs1_val rs2_val) s =
    (s.prev_pc ≡ pc)
    × (s.instr_opcode ≡ instr)
    × (instr / 2 ^ 15 % 2 ^ 5 ≡ rs1)
    × (instr / 2 ^ 20 % 2 ^ 5 ≡ rs2)
    × (s.current.regs rs1 ≡ rs1_val)
    × (s.current.regs rs2 ≡ rs2_val)
Agrees (u_report pc instr rd rd_val) s =
    (s.prev_pc ≡ pc)
    × (s.instr_opcode ≡ instr)
    × (instr / 2 ^ 7 % 2 ^ 5 ≡ rd)
    × (s.current.regs rd ≡ rd_val)
Agrees (j_report pc instr rd rd_val) s =
    (s.prev_pc ≡ pc)
    × (s.instr_opcode ≡ instr)
    × (instr / 2 ^ 7 % 2 ^ 5 ≡ rd)
    × (s.current.regs rd ≡ rd_val)

-- Each of the six checks accepts a report exactly when it agrees with the simulator (`Agrees`):
-- the program counter is the one of the last match, the word and its register fields are those of
-- the word last executed, and the values are those of the registers after it, where a source that
-- is also the destination is compared by the value reported for the destination.
pub check_iff : (r : Report) (s : Simulator) → ((check r s).0 ≡ true) ↔ Agrees r s
unfolding check compare_i compare_s compare_b compare_u compare_j
check_iff (r_report pc instr rd rs1 rs2 rd_val rs1_val rs2_val) s =
    compare_r_iff pc instr rd rs1 rs2 rd_val rs1_val rs2_val s
check_iff (i_report pc instr rd rs1 rd_val rs1_val) s =
    ground
      (arith, bit_and_mask 5 (s.instr_opcode / 2 ^ 7), bit_and_mask 5 (s.instr_opcode / 2 ^ 15))
check_iff (s_report pc instr rs1 rs2 rs1_val rs2_val) s =
    ground
      (arith, bit_and_mask 5 (s.instr_opcode / 2 ^ 15), bit_and_mask 5 (s.instr_opcode / 2 ^ 20))
check_iff (b_report pc instr rs1 rs2 rs1_val rs2_val) s =
    ground
      (arith, bit_and_mask 5 (s.instr_opcode / 2 ^ 15), bit_and_mask 5 (s.instr_opcode / 2 ^ 20))
check_iff (u_report pc instr rd rd_val) s = ground (arith, bit_and_mask 5 (s.instr_opcode / 2 ^ 7))
check_iff (j_report pc instr rd rd_val) s = ground (arith, bit_and_mask 5 (s.instr_opcode / 2 ^ 7))

-- Each of the six checks either accepts and records the program counter for the next check, or
-- rejects and clears `RUN_BIT`; it changes nothing else.
pub check-effect :
    (r : Report) (s : Simulator)
    → (check r s ≡ (true, record s { prev_pc = s.current.pc }))
      ⊎ (check r s ≡ (false, record s { run_bit = false }))
unfolding check compare_i compare_s compare_b compare_u compare_j
check-effect (r_report pc instr rd rs1 rs2 rd_val rs1_val rs2_val) s =
    compare_r-effect pc instr rd rs1 rs2 rd_val rs1_val rs2_val s
check-effect (i_report pc instr rd rs1 rd_val rs1_val) s = ground arith
check-effect (s_report pc instr rs1 rs2 rs1_val rs2_val) s = ground arith
check-effect (b_report pc instr rs1 rs2 rs1_val rs2_val) s = ground arith
check-effect (u_report pc instr rd rd_val) s = ground arith
check-effect (j_report pc instr rd rd_val) s = ground arith
