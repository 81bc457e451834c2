-- ===== src/Mips/Isa/Alu.antt =====
-- The register instructions of `execute_r` against the instruction set.
use simple_cpu.Base.{ℕ, ◌/◌, ◌%◌, ◌^◌, ◌<◌, ◌≡◌, ◌*◌, arith, some, ◌>>=◌, bit_and_mask}
use simple_cpu.Extend.Laws.{slt_lem}
use simple_cpu.Mips.Machine.{Simulator, reg}
use simple_cpu.Mips.Opcode
use simple_cpu.Mips.Execute.Register.{execute_r, execute_shift, execute_alu, is_shift}
use simple_cpu.Mips.Execute.Special.{execute_special, multiply, divide, divide_unsigned}
use simple_cpu.Mips.Execute.Division.{signed_div_lem, signed_rem_lem}
use simple_cpu.Mips.Execute.Laws.{sra_value-logical}
use simple_cpu.Mips.Isa.{
  ShiftOp, AluOp, MulOp, shift, alu, jr, jalr, mul, div, divu, mfhi, mflo, mthi, mtlo, syscall,
  step,
}
use simple_cpu.Mips.Isa.Code.{shift_funct, alu_funct, mul_funct}
use simple_cpu.Mips.Isa.State.{fetched, executed}

module _ (w : ℕ) (s : Simulator) where
  pub execute_r-shift :
      (op : ShiftOp) (rd rt n : ℕ)
      → execute_r 0 rt rd n (shift_funct op) (fetched w s) ≡ (
          step (shift op rd rt n) s.current s.mem >>= λ after.
          some (executed w (shift op rd rt n) s after))
  unfolding execute_r execute_shift is_shift
  execute_r-shift ShiftOp.sll rd rt n = ground arith
  execute_r-shift ShiftOp.srl rd rt n = ground arith
  execute_r-shift ShiftOp.sra rd rt n = ground (arith, sra_value-logical (reg s 0) (reg s rt) n)

  pub execute_r-alu :
      (op : AluOp) (rd rs rt : ℕ)
      → reg s rs < 2 ^ 32
      → reg s rt < 2 ^ 32
      → execute_r rs rt rd 0 (alu_funct op) (fetched w s) ≡ (
          step (alu op rd rs rt) s.current s.mem >>= λ after.
          some (executed w (alu op rd rs rt) s after))
  unfolding execute_r execute_shift execute_alu is_shift
  execute_r-alu AluOp.sllv rd rs rt h g = ground (arith, bit_and_mask 5 (reg s rs))
  execute_r-alu AluOp.srlv rd rs rt h g = ground (arith, bit_and_mask 5 (reg s rs))
  execute_r-alu AluOp.srav rd rs rt h g =
      ground
        (arith, bit_and_mask 5 (reg s rs), sra_value-logical (reg s rs) (reg s rt) (reg s rs % 32))
  execute_r-alu AluOp.add rd rs rt h g = ground arith
  execute_r-alu AluOp.addu rd rs rt h g = ground arith
  execute_r-alu AluOp.sub rd rs rt h g = ground arith
  execute_r-alu AluOp.subu rd rs rt h g = ground arith
  execute_r-alu AluOp.and rd rs rt h g = ground arith
  execute_r-alu AluOp.or rd rs rt h g = ground arith
  execute_r-alu AluOp.xor rd rs rt h g = ground arith
  execute_r-alu AluOp.nor rd rs rt h g = ground arith
  execute_r-alu AluOp.slt_op rd rs rt h g = ground (arith, slt_lem (reg s rs) (reg s rt) h g)
  execute_r-alu AluOp.sltu rd rs rt h g = ground arith

  pub execute_r-jr :
      (rd rs : ℕ)
      → 0 < rd
      → execute_r rs 0 rd 0 Opcode.jr (fetched w s)
        ≡ (step (jr rd rs) s.current s.mem >>= λ after. some (executed w (jr rd rs) s after))
  unfolding execute_r execute_shift execute_alu is_shift
  execute_r-jr rd rs h = ground arith

  pub execute_r-jalr :
      (rd rs : ℕ)
      → 0 < rd
      → execute_r rs 0 rd 0 Opcode.jalr (fetched w s)
        ≡ (step (jalr rd rs) s.current s.mem >>= λ after. some (executed w (jalr rd rs) s after))
  unfolding execute_r execute_shift execute_alu is_shift
  execute_r-jalr rd rs h = ground arith

  pub execute_r-mul :
      (op : MulOp) (rd rs rt : ℕ)
      → 0 < rd
      → execute_r rs rt rd 0 (mul_funct op) (fetched w s) ≡ (
          step (mul op rd rs rt) s.current s.mem >>= λ after.
          some (executed w (mul op rd rs rt) s after))
  unfolding execute_r execute_shift execute_alu execute_special is_shift multiply
  execute_r-mul MulOp.mult rd rs rt h =
      let word = reg s rs * reg s rt % 2 ^ 32 in
      ground (arith, bit_and_mask 32 word, bit_and_mask 32 (word / 2 ^ 32))
  execute_r-mul MulOp.multu rd rs rt h =
      let word = reg s rs * reg s rt % 2 ^ 32 in
      ground (arith, bit_and_mask 32 word, bit_and_mask 32 (word / 2 ^ 32))

  pub execute_r-div :
      (rd rs rt : ℕ)
      → 0 < rd
      → execute_r rs rt rd 0 Opcode.div (fetched w s) ≡ (
          step (div rd rs rt) s.current s.mem >>= λ after. some (executed w (div rd rs rt) s after))
  unfolding execute_r execute_shift execute_alu execute_special is_shift divide
  execute_r-div rd rs rt h =
      ground (arith, signed_div_lem (reg s rs) (reg s rt), signed_rem_lem (reg s rs) (reg s rt))

  pub execute_r-divu :
      (rd rs rt : ℕ)
      → 0 < rd
      → execute_r rs rt rd 0 Opcode.divu (fetched w s) ≡ (
          step (divu rd rs rt) s.current s.mem >>= λ after.
          some (executed w (divu rd rs rt) s after))
  unfolding execute_r execute_shift execute_alu execute_special is_shift divide_unsigned
  execute_r-divu rd rs rt h = ground arith

  pub execute_r-mfhi :
      (rd : ℕ)
      → execute_r 0 0 rd 0 Opcode.mfhi (fetched w s)
        ≡ (step (mfhi rd) s.current s.mem >>= λ after. some (executed w (mfhi rd) s after))
  unfolding execute_r execute_shift execute_alu execute_special is_shift
  execute_r-mfhi rd = ground arith

  pub execute_r-mflo :
      (rd : ℕ)
      → execute_r 0 0 rd 0 Opcode.mflo (fetched w s)
        ≡ (step (mflo rd) s.current s.mem >>= λ after. some (executed w (mflo rd) s after))
  unfolding execute_r execute_shift execute_alu execute_special is_shift
  execute_r-mflo rd = ground arith

  pub execute_r-mthi :
      (rd rs : ℕ)
      → 0 < rd
      → execute_r rs 0 rd 0 Opcode.mthi (fetched w s)
        ≡ (step (mthi rd rs) s.current s.mem >>= λ after. some (executed w (mthi rd rs) s after))
  unfolding execute_r execute_shift execute_alu execute_special is_shift
  execute_r-mthi rd rs h = ground arith

  pub execute_r-mtlo :
      (rd rs : ℕ)
      → 0 < rd
      → execute_r rs 0 rd 0 Opcode.mtlo (fetched w s)
        ≡ (step (mtlo rd rs) s.current s.mem >>= λ after. some (executed w (mtlo rd rs) s after))
  unfolding execute_r execute_shift execute_alu execute_special is_shift
  execute_r-mtlo rd rs h = ground arith

  pub execute_r-syscall :
      execute_r 0 0 0 0 Opcode.syscall (fetched w s)
      ≡ (step (syscall) s.current s.mem >>= λ after. some (executed w (syscall) s after))
  unfolding execute_r execute_shift execute_alu execute_special is_shift
  execute_r-syscall = ground arith
