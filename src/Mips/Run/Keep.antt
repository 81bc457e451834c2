-- ===== src/Mips/Run/Keep.antt =====
-- Every instruction of mips/iss/src/sim.c keeps the state good.
pub mod Result
mod Immediate
use simple_cpu.Base.{
  ℕ, ◌+◌, ◌-◌, ◌*◌, ◌/◌, ◌%◌, ◌^◌, ◌<◌, ◌≡◌, arith, Bool, true, false, not, Option, none, some, u32,
  ◌==◌, ◌&&◌, ◌||◌, if◌then◌else◌, bit_and, bit_or, bit_xor, bit_and_mask, bit_and-lt, bit_or-lt,
  bit_xor-lt, ◌>>>◌, ◌<<<◌, sub32, not32, slt, to_int, ltb, sym, ==_iff, refl, Bool-cases, inl, inr,
}
use native.Mathlib.Nat.{div-le_self}
use simple_cpu.Mips.Machine.{Simulator, reg, set_pc, set_reg, next_pc}
use simple_cpu.Mips.Opcode
use simple_cpu.Mips.State.{IsGood}
use simple_cpu.Mips.Execute.Special.{multiply, divide, divide_unsigned, execute_special}
use simple_cpu.Mips.Execute.Register.{
  is_shift, use_rt, execute_shift, execute_alu, execute_r, decode_r,
}
use simple_cpu.Mips.Execute.Jump.{execute_j, decode_j}
use simple_cpu.Mips.Execute.Branch.{link}
use simple_cpu.Mips.Execute.Access.{decode_i}
use simple_cpu.Mips.Run.{InstrType, r_type, i_type, j_type, dispatch}
use simple_cpu.Mips.Run.Keep.Immediate.{link-IsGood, execute_i-MaybeGood}
use simple_cpu.Mips.Run.Keep.Result.{
  MaybeGood, same-IsGood, if-MaybeGood, if-IsGood, set_pc-IsGood, next_pc-IsGood, set_reg-IsGood,
  set_hi-IsGood, set_lo-IsGood, u32-lt, to_int-lt, shift-lt, sra_value-lt, signed_rem-lt,
  signed_div-lt,
}

multiply-IsGood : (x y : ℕ) (s : Simulator) → IsGood s → IsGood (multiply x y s)
unfolding multiply
multiply-IsGood x y s g = next_pc-IsGood _ (
    set_lo-IsGood _ _ (bit_and-lt _ _ _ (u32-lt (x * y)))
      (set_hi-IsGood _ s (bit_and-lt _ _ _ (shift-lt (u32 (x * y)) 32 (u32-lt (x * y)))) g))

divide-MaybeGood :
    (x y : ℕ) (s : Simulator) → x < 2 ^ 32 → y < 2 ^ 32 → IsGood s → MaybeGood (divide x y s)
unfolding divide
divide-MaybeGood x y s h k g = elim (Bool-cases (y == 0)) [
  | inl zero_divisor ↦ rw zero_divisor tt
  | inr ne ↦ rw ne (
      if-MaybeGood (x == 2 ^ 31 && y == 2 ^ 32 - 1) _ _ (tt {0}) (
        next_pc-IsGood _ (
          set_hi-IsGood _ _ (signed_rem-lt x y h k ne)
            (set_lo-IsGood _ s (signed_div-lt x y h k ne) g))))
]

divide_unsigned-MaybeGood :
    (x y : ℕ) (s : Simulator)
    → x < 2 ^ 32
    → y < 2 ^ 32
    → IsGood s
    → MaybeGood (divide_unsigned x y s)
unfolding divide_unsigned
divide_unsigned-MaybeGood x y s h k g = elim (Bool-cases (y == 0)) [
  | inl zero_divisor ↦ rw zero_divisor tt
  | inr ne ↦ rw ne (
      next_pc-IsGood _
        (set_hi-IsGood _ _ (ground arith) (set_lo-IsGood _ s (omega (arith, div-le_self x y)) g)))
]

module _ (rs rt rd shamt funct : ℕ) (s : Simulator) (g : IsGood s) where
  x_word : reg s rs < 2 ^ 32
  x_word = g.old.1 rs

  y_word : reg s rt < 2 ^ 32
  y_word = g.old.1 rt

  syscall :
      MaybeGood
        (some (next_pc (record s { run_bit = if reg s 2 == 0xa then false else s.run_bit })))
  syscall = next_pc-IsGood _ (
      same-IsGood s (record s { run_bit = if reg s 2 == 0xa then false else s.run_bit }) refl refl
        refl g)

  moved_on : MaybeGood (some (next_pc (if is_shift funct then use_rt s else s)))
  moved_on =
      next_pc-IsGood _
        (if-IsGood (is_shift funct) (use_rt s) s (same-IsGood s (use_rt s) refl refl refl g) g)

  -- A register other than 0 is written.
  module _ (off : (rd == 0) ≡ false) where
    put : (v : ℕ) → v < 2 ^ 32 → MaybeGood (some (next_pc (set_reg rd v s)))
    put v h = next_pc-IsGood _ (set_reg-IsGood rd v s off h g)

    put_shift : (v : ℕ) → v < 2 ^ 32 → MaybeGood (some (next_pc (set_reg rd v (use_rt s))))
    put_shift v h =
        next_pc-IsGood _ (set_reg-IsGood rd v _ off h (same-IsGood s (use_rt s) refl refl refl g))

    execute_shift-MaybeGood :
        (rest : Option Simulator)
        → shamt < 32
        → MaybeGood rest
        → MaybeGood (execute_shift funct rs rt rd shamt s rest)
    unfolding execute_shift
    execute_shift-MaybeGood rest hs r =
        let amount = bit_and (reg s rs) 0x1f in
        let small : amount < 32 = omega (arith, bit_and_mask 5 (reg s rs)) in
        let x = reg s rs in
        let y = reg s rt in
        if-MaybeGood (funct == Opcode.sll) _ _ (put_shift _ (u32-lt _)) (
          if-MaybeGood (funct == Opcode.srl) _ _ (put_shift _ (shift-lt y shamt y_word)) (
            if-MaybeGood (funct == Opcode.sra) _ _ (put_shift _ (sra_value-lt x y shamt y_word hs))
              (if-MaybeGood (funct == Opcode.sllv) _ _ (put_shift _ (u32-lt _)) (
                if-MaybeGood (funct == Opcode.srlv) _ _ (put_shift _ (shift-lt y amount y_word)) (
                  if-MaybeGood (funct == Opcode.srav) _ _
                    (put_shift _ (sra_value-lt x y amount y_word small)) r)))))

    execute_alu-MaybeGood :
        (rest : Option Simulator) → MaybeGood rest → MaybeGood (execute_alu funct rs rt rd s rest)
    unfolding execute_alu
    execute_alu-MaybeGood rest r =
        let x = reg s rs in
        let y = reg s rt in
        let jump = set_pc-IsGood x s x_word g in
        let after = set_reg 31 (u32 (s.current.pc + 4)) (set_pc x s) in
        let linked =
          same-IsGood after (record after { wr_link_reg = false }) refl refl refl
            (set_reg-IsGood 31 _ (set_pc x s) refl (u32-lt _) jump) in
        if-MaybeGood (funct == Opcode.jr) _ _ jump (
          if-MaybeGood (funct == Opcode.jalr) _ _ linked (
            if-MaybeGood (funct == Opcode.add) _ _ (put _ (u32-lt _)) (
              if-MaybeGood (funct == Opcode.addu) _ _ (put _ (u32-lt _)) (
                if-MaybeGood (funct == Opcode.sub) _ _ (put _ (u32-lt _)) (
                  if-MaybeGood (funct == Opcode.subu) _ _ (put _ (u32-lt _)) (
                    if-MaybeGood (funct == Opcode.and) _ _ (put _ (bit_and-lt _ x y x_word)) (
                      if-MaybeGood (funct == Opcode.or) _ _ (put _ (bit_or-lt 32 x y x_word y_word))
                        (if-MaybeGood (funct == Opcode.xor) _ _
                          (put _ (bit_xor-lt 32 x y x_word y_word))
                          (if-MaybeGood (funct == Opcode.nor) _ _ (put _ (omega arith)) (
                            if-MaybeGood (funct == Opcode.slt) _ _ (put _ (to_int-lt _)) (
                              if-MaybeGood (funct == Opcode.sltu) _ _ (put _ (to_int-lt _))
                                r)))))))))))

    execute_special-MaybeGood : MaybeGood (execute_special funct rs rt rd s)
    unfolding execute_special
    execute_special-MaybeGood =
        let x = reg s rs in
        let y = reg s rt in
        let (_, _, _, hi, lo) = g.old in
        if-MaybeGood (funct == Opcode.mult) _ _ (multiply-IsGood x y s g) (
          if-MaybeGood (funct == Opcode.mfhi) _ _ (put _ hi) (
            if-MaybeGood (funct == Opcode.mflo) _ _ (put _ lo) (
              if-MaybeGood (funct == Opcode.mthi) _ _
                (next_pc-IsGood _ (set_hi-IsGood x s x_word g))
                (if-MaybeGood (funct == Opcode.mtlo) _ _
                  (next_pc-IsGood _ (set_lo-IsGood x s x_word g))
                  (if-MaybeGood (funct == Opcode.multu) _ _ (multiply-IsGood x y s g) (
                    if-MaybeGood (funct == Opcode.div) _ _ (divide-MaybeGood x y s x_word y_word g)
                      (if-MaybeGood (funct == Opcode.divu) _ _
                        (divide_unsigned-MaybeGood x y s x_word y_word g)
                        (if-MaybeGood (funct == Opcode.syscall) _ _ syscall g))))))))

  -- With destination 0 only `SYSCALL` does more than move on.
  execute_r-MaybeGood : shamt < 32 → MaybeGood (execute_r rs rt rd shamt funct s)
  unfolding execute_r execute_shift execute_alu execute_special is_shift
  execute_r-MaybeGood hs = elim (Bool-cases (funct == 0x0c)) [
    | inl call ↦
        let same : 0x0c ≡ funct = sym ((==_iff funct 0x0c).0 call) in
        rw (sym same) (if-MaybeGood (rd == 0 && false) _ _ (next_pc-IsGood s g) syscall)
    | inr other ↦ elim (Bool-cases (rd == 0)) [
      | inl at ↦ rw (at, other) moved_on
      | inr off ↦ rw off (
          execute_shift-MaybeGood off _ hs
            (execute_alu-MaybeGood off _ (execute_special-MaybeGood off)))
    ]
  ]

execute_j-IsGood :
    (opcode target : ℕ) (s : Simulator)
    → target < 2 ^ 26
    → IsGood s
    → IsGood (execute_j opcode target s)
unfolding execute_j
execute_j-IsGood opcode target s h g =
    let top = bit_and (u32 (s.current.pc + 4)) 0xf0000000 in
    let word = bit_or-lt 32 top (target <<< 2) (bit_and-lt _ _ _ (u32-lt _)) (u32-lt _) in
    let jumped = set_pc-IsGood (bit_or top (target <<< 2)) s word g in
    if-IsGood (opcode == Opcode.j) _ _ jumped
      (if-IsGood (opcode == Opcode.jal) _ _ (link-IsGood _ jumped) g)

-- Any word of any type is executed to a good state, or not at all.
pub dispatch-MaybeGood :
    (t : InstrType) (w : ℕ) (s : Simulator) → IsGood s → MaybeGood (dispatch t w s)
unfolding dispatch decode_r decode_i decode_j
dispatch-MaybeGood r_type w s g =
    execute_r-MaybeGood _ _ _ _ _ s g (omega (arith, bit_and_mask 5 (w >>> 6)))
dispatch-MaybeGood i_type w s g = execute_i-MaybeGood _ _ _ _ s (omega (arith, bit_and_mask 16 w)) g
dispatch-MaybeGood j_type w s g = execute_j-IsGood _ _ s (omega (arith, bit_and_mask 26 w)) g
