-- ===== src/Riscv/Run/Keep.antt =====
-- What every instruction keeps of the state that is being built, whatever the word executed.
pub mod Result
use simple_cpu.Base.{
  ℕ, ◌+◌, ◌^◌, ◌<◌, ◌≡◌, arith, Bool, true, false, Option, none, some, u32, to_int, ◌==◌,
  if◌then◌else◌, bit_and, bit_or, bit_and_mask, bit_and-lt, bit_or-lt, bit_xor-lt, ◌<<<◌, ◌>>>◌,
  update, Bool-cases, Option-cases, inl, inr,
}
use native.Mathlib.Nat.{div-le_self}
use simple_cpu.Extend.{shift_const, extend}
use simple_cpu.Extend.Laws.{shift_const-lt, extend-lt}
use simple_cpu.Memory.Laws.{mem_write_32-IsBytes, mem_read_32-lt}
use simple_cpu.Riscv.Machine.{
  Simulator, mem_regions, mem_read_32, mem_write_32, reg, set_reg, set_pc, next_pc,
}
use simple_cpu.Riscv.State.{IsGood}
use simple_cpu.Riscv.Opcode
use simple_cpu.Riscv.Execute.Register.{sra_value, execute_r, decode_r}
use simple_cpu.Riscv.Execute.Immediate.{finish_i, execute_jalr, execute_i, decode_i}
use simple_cpu.Riscv.Execute.Load.{finish_load, execute_load}
use simple_cpu.Riscv.Execute.Transfer.{
  finish_store, execute_s, decode_s, branch, execute_b, decode_b, execute_u, decode_u, execute_j,
  decode_j,
}
use simple_cpu.Riscv.Run.{
  InstrType, r_type, i_type, s_type, b_type, u_type, j_type, no_type, dispatch,
}
use simple_cpu.Riscv.Run.Keep.Result.{
  MaybeGood, if-IsGood, if-MaybeGood, update-word, set_pc-IsGood, next_pc-IsGood, set_reg-IsGood,
  result-IsGood, u32-lt, to_int-lt, shift-lt, sra_value-lt,
}

execute_r-IsGood :
    (rs1 rs2 rd f7 f3 : ℕ) (s : Simulator) → IsGood s → IsGood (execute_r rs1 rs2 rd f7 f3 s)
unfolding execute_r
execute_r-IsGood rs1 rs2 rd f7 f3 s g = elim (Bool-cases (rd == 0)) [
  | inl at ↦ rw at (next_pc-IsGood s g)
  | inr off ↦
      let x = g.old.words rs1 in
      let y = g.old.words rs2 in
      let put = λ (v : ℕ) (h : v < 2 ^ 32). next_pc-IsGood _ (set_reg-IsGood rd v s off h g) in
      let funct = bit_or (bit_and (f7 >>> 5) 0x1 <<< 3) f3 in
      rw off (
        if-IsGood (funct == Opcode.sll) (put _ (u32-lt _)) (
          if-IsGood (funct == Opcode.srl) (put _ (shift-lt _ _ x)) (
            if-IsGood (funct == Opcode.sra) (put _ (sra_value-lt _ _ x)) (
              if-IsGood (funct == Opcode.add) (put _ (u32-lt _)) (
                if-IsGood (funct == Opcode.sub) (put _ (u32-lt _)) (
                  if-IsGood (funct == Opcode.and) (put _ (bit_and-lt _ _ _ x)) (
                    if-IsGood (funct == Opcode.or) (put _ (bit_or-lt 32 _ _ x y)) (
                      if-IsGood (funct == Opcode.xor) (put _ (bit_xor-lt 32 _ _ x y)) (
                        if-IsGood (funct == Opcode.slt) (put _ (to_int-lt _))
                          (if-IsGood (funct == Opcode.sltu) (put _ (to_int-lt _)) g))))))))))
]

loaded : (rd v : ℕ) (s : Simulator) → v < 2 ^ 32 → IsGood s → IsGood (finish_load rd v s)
unfolding finish_load
loaded rd v s h g = result-IsGood rd v s h g

execute_load-MaybeGood :
    (funct shift_val rs1 rd imm : ℕ) (s : Simulator)
    → shift_val < 2 ^ 32
    → IsGood s
    → MaybeGood (execute_load funct shift_val rs1 rd imm s)
unfolding execute_load
execute_load-MaybeGood funct shift_val rs1 rd imm s hv g =
    elim (Option-cases (mem_read_32 s.mem (u32 (reg s rs1 + imm)))) [
      | inl bad ↦ rw bad (
          if-MaybeGood (funct == Opcode.lb) _ _ (tt {0}) (
            if-MaybeGood (funct == Opcode.lh) _ _ (tt {0}) (
              if-MaybeGood (funct == Opcode.lw) _ _ (tt {0}) (
                if-MaybeGood (funct == Opcode.lbu) _ _ (tt {0})
                  (if-MaybeGood (funct == Opcode.lhu) _ _ (tt {0}) g)))))
      | inr (w, found) ↦
          let word = mem_read_32-lt mem_regions s.mem _ w g.bytes found in
          let byte : bit_and w 0xff < 2 ^ 32 = bit_and-lt _ _ _ word in
          let half : bit_and w 0xffff < 2 ^ 32 = bit_and-lt _ _ _ word in
          rw found (
            if-MaybeGood (funct == Opcode.lb) _ _
              (loaded rd _ s (extend-lt _ _ _ (shift_const-lt 24 (omega arith)) byte) g)
              (if-MaybeGood (funct == Opcode.lh) _ _ (loaded rd _ s (extend-lt _ _ _ hv half) g) (
                if-MaybeGood (funct == Opcode.lw) _ _ (loaded rd w s word g) (
                  if-MaybeGood (funct == Opcode.lbu) _ _ (loaded rd _ s byte g)
                    (if-MaybeGood (funct == Opcode.lhu) _ _ (loaded rd _ s half g) g)))))
    ]

execute_jalr-IsGood :
    (rs1 rd imm : ℕ) (s : Simulator) → IsGood s → IsGood (execute_jalr rs1 rd imm s)
unfolding execute_jalr
execute_jalr-IsGood rs1 rd imm s g =
    let jumped = set_pc-IsGood _ s (u32-lt (reg s rs1 + imm)) g in
    elim (Bool-cases (rd == 0)) [
      | inl at ↦ rw at jumped
      | inr off ↦ rw off (set_reg-IsGood rd _ _ off (u32-lt _) jumped)
    ]

execute_i-MaybeGood :
    (f3 opcode rs1 rd imm : ℕ) (s : Simulator)
    → imm < 2 ^ 32
    → IsGood s
    → MaybeGood (execute_i f3 opcode rs1 rd imm s)
unfolding execute_i finish_i
execute_i-MaybeGood f3 opcode rs1 rd imm s hi g =
    let x = g.old.words rs1 in
    let funct = bit_or (bit_and (opcode >>> 4) 0x1 <<< 4) f3 in
    let ones = shift_const-lt 20 (omega arith) in
    let y = extend-lt (bit_and imm 0x800 >>> 11) (shift_const 20) imm ones hi in
    if-MaybeGood (funct == Opcode.addi) _ _ (result-IsGood rd _ s (u32-lt _) g) (
      if-MaybeGood (funct == Opcode.slti) _ _ (result-IsGood rd _ s (to_int-lt _) g) (
        if-MaybeGood (funct == Opcode.sltiu) _ _ (result-IsGood rd _ s (to_int-lt _) g) (
          if-MaybeGood (funct == Opcode.andi) _ _ (result-IsGood rd _ s (bit_and-lt _ _ _ x) g) (
            if-MaybeGood (funct == Opcode.ori) _ _ (result-IsGood rd _ s (bit_or-lt 32 _ _ x y) g) (
              if-MaybeGood (funct == Opcode.xori) _ _
                (result-IsGood rd _ s (bit_xor-lt 32 _ _ x y) g)
                (if-MaybeGood (funct == Opcode.jalr) _ _ (execute_jalr-IsGood rs1 rd _ s g)
                  (execute_load-MaybeGood _ _ rs1 rd _ s ones g)))))))

finish_store-MaybeGood : (a v : ℕ) (s : Simulator) → IsGood s → MaybeGood (finish_store a v s)
unfolding finish_store
finish_store-MaybeGood a v s g = elim (Option-cases (mem_write_32 s.mem a v)) [
  | inl bad ↦ rw bad tt
  | inr (m, good) ↦ rw good (
      next_pc-IsGood (record s { mem = m })
        (record {
          old = g.old;
          new = g.new;
          bytes = mem_write_32-IsBytes mem_regions s.mem m a v g.bytes good;
        }))
]

execute_s-MaybeGood :
    (f3 rs1 rs2 imm : ℕ) (s : Simulator) → IsGood s → MaybeGood (execute_s f3 rs1 rs2 imm s)
unfolding execute_s
execute_s-MaybeGood f3 rs1 rs2 imm s g =
    if-MaybeGood (f3 == Opcode.sb) _ _ (finish_store-MaybeGood _ _ s g) (
      if-MaybeGood (f3 == Opcode.sh) _ _ (finish_store-MaybeGood _ _ s g)
        (if-MaybeGood (f3 == Opcode.sw) _ _ (finish_store-MaybeGood _ _ s g) g))

branch-IsGood : (b : Bool) (imm : ℕ) (s : Simulator) → IsGood s → IsGood (branch b imm s)
unfolding branch
branch-IsGood b imm s g = if-IsGood b (set_pc-IsGood _ s (u32-lt _) g) (next_pc-IsGood s g)

execute_b-IsGood :
    (f3 rs1 rs2 imm : ℕ) (s : Simulator) → IsGood s → IsGood (execute_b f3 rs1 rs2 imm s)
unfolding execute_b
execute_b-IsGood f3 rs1 rs2 imm s g =
    let b = λ (t : Bool). branch-IsGood t imm s g in
    if-IsGood (f3 == Opcode.beq) (b _) (
      if-IsGood (f3 == Opcode.bne) (b _) (
        if-IsGood (f3 == Opcode.blt) (b _) (
          if-IsGood (f3 == Opcode.bltu) (b _)
            (if-IsGood (f3 == Opcode.bge) (b _) (if-IsGood (f3 == Opcode.bgeu) (b _) g)))))

-- A write that puts 0 where `rd` is 0.
upper-IsGood :
    (rd v : ℕ) (s : Simulator)
    → v < 2 ^ 32
    → IsGood s
    → IsGood (next_pc (set_reg rd (if rd == 0 then 0 else v) s))
upper-IsGood rd v s h g = next_pc-IsGood _ (record {
  old = g.old;
  new = record {
    zero_reg = ground (arith, g.new.zero_reg);
    words = λ j. update-word s.next.regs rd _ j (g.new.words j) (ground arith);
    pc_word = g.new.pc_word;
  };
  bytes = g.bytes;
})

execute_u-IsGood :
    (opcode rd imm : ℕ) (s : Simulator) → IsGood s → IsGood (execute_u opcode rd imm s)
unfolding execute_u
execute_u-IsGood opcode rd imm s g =
    if-IsGood (opcode == Opcode.lui) (upper-IsGood rd _ s (u32-lt _) g)
      (if-IsGood (opcode == Opcode.auipc) (upper-IsGood rd _ s (u32-lt _) g) g)

execute_j-IsGood : (rd imm : ℕ) (s : Simulator) → IsGood s → IsGood (execute_j rd imm s)
unfolding execute_j
execute_j-IsGood rd imm s g =
    let jumped =
      set_pc-IsGood _ s
        (u32-lt (s.current.pc + extend (bit_and imm 0x100000 >>> 20) (shift_const 11) imm)) g in
    elim (Bool-cases (rd == 0)) [
      | inl at ↦ rw at jumped
      | inr off ↦ rw off (set_reg-IsGood rd _ _ off (u32-lt _) jumped)
    ]

-- Any word of any type is executed to a good state, or not at all.
pub dispatch-MaybeGood :
    (t : InstrType) (w : ℕ) (s : Simulator) → IsGood s → MaybeGood (dispatch t w s)
unfolding dispatch decode_r decode_i decode_s decode_b decode_u decode_j
dispatch-MaybeGood r_type w s g = execute_r-IsGood _ _ _ _ _ s g
dispatch-MaybeGood i_type w s g =
    execute_i-MaybeGood _ _ _ _ _ s (omega (arith, bit_and_mask 12 (w >>> 20))) g
dispatch-MaybeGood s_type w s g = execute_s-MaybeGood _ _ _ _ s g
dispatch-MaybeGood b_type w s g = execute_b-IsGood _ _ _ _ s g
dispatch-MaybeGood u_type w s g = execute_u-IsGood _ _ _ s g
dispatch-MaybeGood j_type w s g = execute_j-IsGood _ _ s g
dispatch-MaybeGood no_type w s g = record { old = g.old; new = g.new; bytes = g.bytes }
