-- ===== src/Mips/Compare/Laws.antt =====
-- What the checks of the hardware against the simulator accept.
use simple_cpu.Base.{
  ℕ, ◌/◌, ◌^◌, ◌≡◌, ◌↔◌, ◌⊎◌, arith, true, false, bit_and_mask, ◌==◌, ◌%◌, if◌then◌else◌,
}
use simple_cpu.Mips.Machine.{Simulator}
use simple_cpu.Mips.Compare.{compare_r, compare_i, compare_j}
use simple_cpu.Mips.Compare.Lockstep.{Report, r_report, i_report, j_report, check}

compare_j_iff :
    (pc instr rt rt_val : ℕ) (s : Simulator)
    → ((compare_j pc instr rt rt_val s).0 ≡ true) ↔ (
        (s.prev_pc ≡ pc)
        × (s.instr_opcode ≡ instr)
        × ((s.wr_link_reg ≡ false) ⊎ ((rt ≡ 31) × (s.current.regs 31 ≡ rt_val))))
unfolding compare_j
compare_j_iff pc instr rt rt_val s = ground (arith, bit_and_mask 5 (s.instr_opcode / 2 ^ 16))

-- What a report has to say for its check to accept it: the program counter of the last match, the
-- word last executed, its registers, and their values after it. A shift has rt for its source, a
-- link names register 31, and a source that is also the destination is compared by the value
-- reported for the destination. The register of a jump that does not link is ignored.
abbrev pub Agrees : Report → Simulator → Type 0
Agrees (r_report pc instr rd rs rt rd_val rs_val rt_val) s =
    (s.prev_pc ≡ pc)
    × (s.instr_opcode ≡ instr)
    × (instr / 2 ^ 11 % 2 ^ 5 ≡ rd)
    × ((if s.rt_as_src then instr / 2 ^ 16 % 2 ^ 5 else instr / 2 ^ 21 % 2 ^ 5) ≡ rs)
    × (instr / 2 ^ 16 % 2 ^ 5 ≡ rt)
    × (s.current.regs (if s.wr_link_reg then 31 else rd) ≡ rd_val)
    × (s.current.regs rs ≡ (if rs == rd then rd_val else rs_val))
    × (s.current.regs rt ≡ (if rt == rd then rd_val else rt_val))
Agrees (i_report pc instr rs rt rs_val rt_val) s =
    (s.prev_pc ≡ pc)
    × (s.instr_opcode ≡ instr)
    × (instr / 2 ^ 21 % 2 ^ 5 ≡ rs)
    × ((if s.wr_link_reg then 31 else instr / 2 ^ 16 % 2 ^ 5) ≡ rt)
    × (s.current.regs rs ≡ (if rs == rt then rt_val else rs_val))
    × (s.current.regs rt ≡ rt_val)
Agrees (j_report pc instr rt rt_val) s =
    (s.prev_pc ≡ pc)
    × (s.instr_opcode ≡ instr)
    × ((s.wr_link_reg ≡ false) ⊎ ((rt ≡ 31) × (s.current.regs 31 ≡ rt_val)))

-- Each of the three checks of the MIPS simulator accepts a report exactly when it agrees with the
-- simulator (`Agrees`): the program counter is the one of the last match, the word and its
-- registers are those of the word last executed, with rt for the source of a shift and register
-- 31 for a link, and the values are those of the registers after it, where a source that is also
-- the destination is compared by the value reported for the destination; the register of a jump
-- that does not link is ignored.
pub check-Agrees_iff : (r : Report) (s : Simulator) → ((check r s).0 ≡ true) ↔ Agrees r s
unfolding check compare_r compare_i
check-Agrees_iff (r_report pc instr rd rs rt rd_val rs_val rt_val) s = ground (
  arith,
  bit_and_mask 5 (s.instr_opcode / 2 ^ 11),
  bit_and_mask 5 (s.instr_opcode / 2 ^ 16),
  bit_and_mask 5 (s.instr_opcode / 2 ^ 21),
)
check-Agrees_iff (i_report pc instr rs rt rs_val rt_val) s =
    ground
      (arith, bit_and_mask 5 (s.instr_opcode / 2 ^ 16), bit_and_mask 5 (s.instr_opcode / 2 ^ 21))
check-Agrees_iff (j_report pc instr rt rt_val) s = compare_j_iff pc instr rt rt_val s
