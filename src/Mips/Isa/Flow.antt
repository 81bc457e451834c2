-- ===== src/Mips/Isa/Flow.antt =====
-- The instructions with an immediate, the branches and the jumps against the instruction set.
use simple_cpu.Base.{
  ℕ, ◌+◌, ◌-◌, ◌*◌, ◌/◌, ◌%◌, ◌^◌, ◌<◌, ◌≡◌, arith, none, some, ◌>>=◌, bit_and_mask,
  bit_and_shifted, bit_or_fields, u32, Option-cases, inl, inr, bit_and,
}
use simple_cpu.Extend.Laws.{sext, slt_lem, extend_8, extend_16}
use simple_cpu.Mips.Machine.{Simulator, reg, mem_read_32, mem_write_32}
use simple_cpu.Mips.Opcode
use simple_cpu.Mips.Execute.Branch.{execute_branch, execute_bvar, link}
use simple_cpu.Mips.Execute.Immediate.{finish_i, execute_immediate}
use simple_cpu.Mips.Execute.Access.{execute_i, execute_load, execute_store, finish_store}
use simple_cpu.Mips.Execute.Jump.{execute_j}
use simple_cpu.Mips.Execute.Laws.{branch_lem}
use simple_cpu.Mips.Isa.{
  ImmOp, LoadOp, StoreOp, BranchOp, SignOp, alu_imm, lui, load, store, branch, branch_sign, j, jal,
  step, taken, sign_taken, address, load_at, load_value, advance, write,
}
use simple_cpu.Mips.Isa.Code.{imm_opcode, load_opcode, store_opcode, branch_opcode, sign_rt}
use simple_cpu.Mips.Isa.State.{fetched, executed}

align_lem : (x : ℕ) → x < 2 ^ 32 → bit_and x 0xfffffffc ≡ x / 4 * 4
align_lem x h = omega (arith, bit_and_shifted 2 (2 ^ 30 - 1) x, bit_and_mask 30 (x / 2 ^ 2))

module _ (w : ℕ) (s : Simulator) where
  pub execute_i-alu_imm :
      (op : ImmOp) (rt rs imm : ℕ)
      → reg s rs < 2 ^ 32
      → imm < 2 ^ 16
      → execute_i (imm_opcode op) rs rt imm (fetched w s) ≡ (
          step (alu_imm op rt rs imm) s.current s.mem >>= λ after.
          some (executed w (alu_imm op rt rs imm) s after))
  unfolding execute_i execute_branch execute_immediate finish_i
  execute_i-alu_imm ImmOp.addi rt rs imm h hi = rw (extend_16 imm hi) (ground arith)
  execute_i-alu_imm ImmOp.addiu rt rs imm h hi = rw (extend_16 imm hi) (ground arith)
  execute_i-alu_imm ImmOp.slti rt rs imm h hi =
      rw (extend_16 imm hi) (ground (arith, slt_lem (reg s rs) (sext 16 imm) h (ground arith)))
  execute_i-alu_imm ImmOp.sltiu rt rs imm h hi = rw (extend_16 imm hi) (ground arith)
  execute_i-alu_imm ImmOp.andi rt rs imm h hi = ground arith
  execute_i-alu_imm ImmOp.ori rt rs imm h hi = ground arith
  execute_i-alu_imm ImmOp.xori rt rs imm h hi = ground arith

  pub execute_i-lui :
      (rt imm : ℕ)
      → imm < 2 ^ 16
      → execute_i Opcode.lui 0 rt imm (fetched w s)
        ≡ (step (lui rt imm) s.current s.mem >>= λ after. some (executed w (lui rt imm) s after))
  unfolding execute_i execute_branch execute_immediate finish_i
  execute_i-lui rt imm hi = ground arith

  pub execute_i-branch :
      (op : BranchOp) (rs rt imm : ℕ)
      → reg s rs < 2 ^ 32
      → imm < 2 ^ 16
      → execute_i (branch_opcode op) rs rt imm (fetched w s) ≡ (
          step (branch op rs rt imm) s.current s.mem >>= λ after.
          some (executed w (branch op rs rt imm) s after))
  unfolding execute_i execute_branch
  execute_i-branch BranchOp.beq rs rt imm h hi =
      ground (arith, branch_lem (taken BranchOp.beq (reg s rs) (reg s rt)) imm (fetched w s) hi)
  execute_i-branch BranchOp.bne rs rt imm h hi =
      ground (arith, branch_lem (taken BranchOp.bne (reg s rs) (reg s rt)) imm (fetched w s) hi)
  execute_i-branch BranchOp.blez rs rt imm h hi = ground (
    arith,
    slt_lem 0 (reg s rs) (omega arith) h,
    branch_lem (taken BranchOp.blez (reg s rs) (reg s rt)) imm (fetched w s) hi,
  )
  execute_i-branch BranchOp.bgtz rs rt imm h hi = ground (
    arith,
    slt_lem 0 (reg s rs) (omega arith) h,
    branch_lem (taken BranchOp.bgtz (reg s rs) (reg s rt)) imm (fetched w s) hi,
  )

  pub execute_i-branch_sign :
      (op : SignOp) (rs imm : ℕ)
      → reg s rs < 2 ^ 32
      → imm < 2 ^ 16
      → execute_i Opcode.bvar rs (sign_rt op) imm (fetched w s) ≡ (
          step (branch_sign op rs imm) s.current s.mem >>= λ after.
          some (executed w (branch_sign op rs imm) s after))
  unfolding execute_i execute_branch execute_immediate execute_load execute_store execute_bvar link
  execute_i-branch_sign SignOp.bltz rs imm h hi = ground (
    arith,
    slt_lem (reg s rs) 0 h (omega arith),
    branch_lem (sign_taken SignOp.bltz (reg s rs)) imm (fetched w s) hi,
  )
  execute_i-branch_sign SignOp.bgez rs imm h hi = ground (
    arith,
    slt_lem (reg s rs) 0 h (omega arith),
    branch_lem (sign_taken SignOp.bgez (reg s rs)) imm (fetched w s) hi,
  )
  execute_i-branch_sign SignOp.bltzal rs imm h hi = ground (
    arith,
    slt_lem (reg s rs) 0 h (omega arith),
    branch_lem (sign_taken SignOp.bltzal (reg s rs)) imm (fetched w s) hi,
  )
  execute_i-branch_sign SignOp.bgezal rs imm h hi = ground (
    arith,
    slt_lem (reg s rs) 0 h (omega arith),
    branch_lem (sign_taken SignOp.bgezal (reg s rs)) imm (fetched w s) hi,
  )

  pub execute_j-j :
      (target : ℕ)
      → target < 2 ^ 26
      → some (execute_j Opcode.j target (fetched w s))
        ≡ (step (j target) s.current s.mem >>= λ after. some (executed w (j target) s after))
  unfolding execute_j link
  execute_j-j target h =
      let next = u32 (s.current.pc + 4) in
      ground (
        arith,
        bit_and_shifted 28 0xf next,
        bit_and_mask 4 (next / 2 ^ 28),
        bit_or_fields 28 (next / 2 ^ 28) (4 * target) (omega arith),
      )

  pub execute_j-jal :
      (target : ℕ)
      → target < 2 ^ 26
      → some (execute_j Opcode.jal target (fetched w s))
        ≡ (step (jal target) s.current s.mem >>= λ after. some (executed w (jal target) s after))
  unfolding execute_j link
  execute_j-jal target h =
      let next = u32 (s.current.pc + 4) in
      ground (
        arith,
        bit_and_shifted 28 0xf next,
        bit_and_mask 4 (next / 2 ^ 28),
        bit_or_fields 28 (next / 2 ^ 28) (4 * target) (omega arith),
      )

  pub execute_i-load :
      (op : LoadOp) (rt rs imm v : ℕ)
      → imm < 2 ^ 16
      → mem_read_32 s.mem (load_at op (address s.current rs imm)) ≡ some v
      → execute_i (load_opcode op) rs rt imm (fetched w s)
        ≡ some (executed w (load op rt rs imm) s (write rt (load_value op v) s.current, s.mem))
  unfolding execute_i execute_branch execute_immediate execute_load finish_i
  execute_i-load LoadOp.lb rt rs imm v hi e =
      rw (extend_16 imm hi)
        (ground (arith, e, bit_and_mask 8 v, extend_8 (v % 2 ^ 8) (omega arith)))
  execute_i-load LoadOp.lh rt rs imm v hi e = rw (extend_16 imm hi) (
      ground (
        arith,
        e,
        bit_and_mask 16 v,
        bit_and_shifted 15 1 (v % 2 ^ 16),
        extend_16 (v % 2 ^ 16) (omega arith),
      ))
  execute_i-load LoadOp.lw rt rs imm v hi e =
      rw (extend_16 imm hi, align_lem (address s.current rs imm) (omega arith)) (ground (arith, e))
  execute_i-load LoadOp.lbu rt rs imm v hi e =
      rw (extend_16 imm hi) (ground (arith, e, bit_and_mask 8 v))
  execute_i-load LoadOp.lhu rt rs imm v hi e =
      rw (extend_16 imm hi) (ground (arith, e, bit_and_mask 16 v))

  pub execute_i-load_fault :
      (op : LoadOp) (rt rs imm : ℕ)
      → imm < 2 ^ 16
      → mem_read_32 s.mem (load_at op (address s.current rs imm)) ≡ none
      → execute_i (load_opcode op) rs rt imm (fetched w s) ≡ none
  unfolding execute_i execute_branch execute_immediate execute_load finish_i
  execute_i-load_fault LoadOp.lb rt rs imm hi e = rw (extend_16 imm hi) (ground (arith, e))
  execute_i-load_fault LoadOp.lh rt rs imm hi e = rw (extend_16 imm hi) (ground (arith, e))
  execute_i-load_fault LoadOp.lw rt rs imm hi e =
      rw (extend_16 imm hi, align_lem (address s.current rs imm) (omega arith)) (ground (arith, e))
  execute_i-load_fault LoadOp.lbu rt rs imm hi e = rw (extend_16 imm hi) (ground (arith, e))
  execute_i-load_fault LoadOp.lhu rt rs imm hi e = rw (extend_16 imm hi) (ground (arith, e))

  stored :
      (op : StoreOp) (rt rs imm a v : ℕ)
      → finish_store a v (fetched w s) ≡ (
          (mem_write_32 s.mem a v >>= λ m. some (advance s.current, m)) >>= λ after.
          some (executed w (store op rt rs imm) s after))
  unfolding finish_store
  stored op rt rs imm a v = elim (Option-cases (mem_write_32 s.mem a v)) [
    | inl bad ↦ rw bad
    | inr (m, good) ↦ rw good
  ]

  pub execute_i-store :
      (op : StoreOp) (rt rs imm : ℕ)
      → imm < 2 ^ 16
      → execute_i (store_opcode op) rs rt imm (fetched w s) ≡ (
          step (store op rt rs imm) s.current s.mem >>= λ after.
          some (executed w (store op rt rs imm) s after))
  unfolding execute_i execute_branch execute_immediate execute_load execute_store
  execute_i-store StoreOp.sb rt rs imm hi =
      rw (extend_16 imm hi, bit_and_mask 8 (reg s rt)) (stored StoreOp.sb rt rs imm _ _)
  execute_i-store StoreOp.sh rt rs imm hi =
      rw (extend_16 imm hi, bit_and_mask 16 (reg s rt)) (stored StoreOp.sh rt rs imm _ _)
  execute_i-store StoreOp.sw rt rs imm hi =
      rw (extend_16 imm hi, align_lem (address s.current rs imm) (omega arith))
        (stored StoreOp.sw rt rs imm _ _)
