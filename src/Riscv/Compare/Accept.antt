-- ===== src/Riscv/Compare/Accept.antt =====
-- The report of a correct instruction passes its check.
use simple_cpu.Base.{
  ℕ, ◌*◌, ◌/◌, ◌%◌, ◌^◌, ◌≡◌, refl, arith, some, ◌>>>◌, ◌==◌, if◌then◌else◌, bit_and, write_reg,
  sym, ap, >>=-eq-some, Bool-cases, inl, inr,
}
use mathlib.Core.Option.{some-injective}
use simple_cpu.Memory.{Store}
use simple_cpu.Riscv.Opcode
use simple_cpu.Riscv.Machine.{CpuState, Simulator, mem_read_32, mem_write_32}
use simple_cpu.Riscv.Isa.{
  Instr, BranchOp, alu, alu_imm, jalr, load, store, branch, lui, auipc, jal, step, taken,
}
use simple_cpu.Riscv.Isa.Code.{
  encode, IsValid, alu_funct, imm_funct, load_funct, store_funct, branch_funct,
}
use simple_cpu.Riscv.Isa.Refine.{retired, branch_funct-lt, store_funct-lt}
use simple_cpu.Riscv.Fields.{r_fields, i_fields, s_fields}
use simple_cpu.Riscv.Fields.Jump.{b_fields, u_fields, j_fields}
use simple_cpu.Riscv.Compare.{
  matched, compare_r, compare_i, compare_s, compare_b, compare_u, compare_j,
}
use simple_cpu.Riscv.Compare.Lockstep.{check, report}

-- A source read before the write is what the check expects after it.
seen :
    (rd r v : ℕ) (regs after : ℕ → ℕ)
    → after ≡ write_reg rd v regs
    → after r ≡ (if r == rd then after rd else regs r)
seen rd r v regs after e = rw e (ground arith)

module _ (w : ℕ) (t : Simulator) (opcode : t.instr_opcode ≡ w) where
  -- The register field of the word that starts at a bit.
  abbrev Field : ℕ → ℕ → Type 0
  Field at r = bit_and (w >>> at) 0x1f ≡ r

  accept_r :
      (rd rs1 rs2 v : ℕ) (regs : ℕ → ℕ)
      → Field 7 rd
      → Field 15 rs1
      → Field 20 rs2
      → t.current.regs ≡ write_reg rd v regs
      → compare_r t.prev_pc w rd rs1 rs2 (t.current.regs rd) (regs rs1) (regs rs2) t ≡ matched t
  unfolding compare_r
  accept_r rd rs1 rs2 v regs fd f1 f2 e =
      ground (arith, seen rd rs1 v regs t.current.regs e, seen rd rs2 v regs t.current.regs e)

  accept_i :
      (rd rs1 v : ℕ) (regs : ℕ → ℕ)
      → Field 7 rd
      → Field 15 rs1
      → t.current.regs ≡ write_reg rd v regs
      → compare_i t.prev_pc w rd rs1 (t.current.regs rd) (regs rs1) t ≡ matched t
  unfolding compare_i
  accept_i rd rs1 v regs fd f1 e = ground (arith, seen rd rs1 v regs t.current.regs e)

  accept_s :
      (rs1 rs2 : ℕ)
      → Field 15 rs1
      → Field 20 rs2
      → compare_s t.prev_pc w rs1 rs2 (t.current.regs rs1) (t.current.regs rs2) t ≡ matched t
  unfolding compare_s
  accept_s rs1 rs2 f1 f2 = ground arith

  accept_b :
      (rs1 rs2 : ℕ)
      → Field 15 rs1
      → Field 20 rs2
      → compare_b t.prev_pc w rs1 rs2 (t.current.regs rs1) (t.current.regs rs2) t ≡ matched t
  unfolding compare_b
  accept_b rs1 rs2 f1 f2 = ground arith

  accept_u : (rd : ℕ) → Field 7 rd → compare_u t.prev_pc w rd (t.current.regs rd) t ≡ matched t
  unfolding compare_u
  accept_u rd fd = ground arith

  accept_j : (rd : ℕ) → Field 7 rd → compare_j t.prev_pc w rd (t.current.regs rd) t ≡ matched t
  unfolding compare_j
  accept_j rd fd = ground arith

-- What an instruction leaves in the registers.
regs_after : {x b : CpuState × Store} → some x ≡ some b → b.0.regs ≡ x.0.regs
regs_after {x} {b} did = ap (λ (y : CpuState × Store). y.0.regs) (sym (some-injective x b did))

branch_regs :
    (op : BranchOp) (rs1 rs2 imm : ℕ) (c : CpuState) (m : Store) (b : CpuState × Store)
    → step (branch op rs1 rs2 imm) c m ≡ some b
    → b.0.regs ≡ c.regs
branch_regs op rs1 rs2 imm c m b did = elim (Bool-cases (taken op (c.regs rs1) (c.regs rs2))) [
  | inl jumps ↦ regs_after (rw jumps at did)
  | inr stays ↦ regs_after (rw stays at did)
]

pub check-report :
    (i : Instr) (s : Simulator) (b : CpuState × Store)
    → IsValid i
    → s.prev_pc ≡ s.current.pc
    → step i s.current s.mem ≡ some b
    → check (report i s.current b.0) (retired (encode i) s b) ≡ matched (retired (encode i) s b)
unfolding check
check-report (alu op rd rs1 rs2) s b v here did =
    let f7 = alu_funct op / 8 % 2 * 2 ^ 5 in
    let f3 = alu_funct op % 8 in
    let (e1, e2, ed, _, _, _) = r_fields f7 rs2 rs1 f3 rd (omega arith) v.2 v.1 (omega arith) v.0 in
    rw (← here) (
      accept_r _ (retired (encode (alu op rd rs1 rs2)) s b) refl rd rs1 rs2 _ s.current.regs ed e1
        e2 (regs_after did))
check-report (alu_imm op rd rs1 imm) s b v here did =
    let (_, _, e1, ed, _) =
      i_fields imm rs1 (imm_funct op % 8) rd 0x13 v.2 v.1 (omega arith) v.0 (omega arith) in
    rw (← here) (
      accept_i _ (retired (encode (alu_imm op rd rs1 imm)) s b) refl rd rs1 _ s.current.regs ed e1
        (regs_after did))
check-report (jalr rd rs1 imm) s b v here did =
    let (_, _, e1, ed, _) =
      i_fields imm rs1 (Opcode.jalr % 8) rd 0x03 v.2 v.1 (omega arith) v.0 (omega arith) in
    rw (← here) (
      accept_i _ (retired (encode (jalr rd rs1 imm)) s b) refl rd rs1 _ s.current.regs ed e1
        (regs_after did))
check-report (load op rd rs1 imm) s b v here did =
    let (_, _, e1, ed, _) =
      i_fields imm rs1 (load_funct op % 8) rd 0x03 v.2 v.1 (omega arith) v.0 (omega arith) in
    let (u, _, end) = >>=-eq-some (mem_read_32 s.mem _) _ did in
    rw (← here) (
      accept_i _ (retired (encode (load op rd rs1 imm)) s b) refl rd rs1 _ s.current.regs ed e1
        (regs_after end))
check-report (store op src base imm) s b v here did =
    let (_, e1, e2, _, _, _) =
      s_fields imm base src (store_funct op) v.2 v.1 v.0 (store_funct-lt op) in
    let (u, _, end) = >>=-eq-some (mem_write_32 s.mem _ _) _ did in
    rw (← here, sym (regs_after end))
      (accept_s _ (retired (encode (store op src base imm)) s b) refl src base e1 e2)
check-report (branch op rs1 rs2 imm) s b v here did =
    let (_, e1, e2, _, _, _, _, _) =
      b_fields imm rs2 rs1 (branch_funct op) v.2 v.1 v.0 (branch_funct-lt op) in
    rw (← here, sym (branch_regs op rs1 rs2 imm s.current s.mem b did))
      (accept_b _ (retired (encode (branch op rs1 rs2 imm)) s b) refl rs1 rs2 e1 e2)
check-report (lui rd imm) s b v here did =
    let (_, ed, _) = u_fields imm rd Opcode.lui v.1 v.0 (omega arith) in
    rw (← here) (accept_u _ (retired (encode (lui rd imm)) s b) refl rd ed)
check-report (auipc rd imm) s b v here did =
    let (_, ed, _) = u_fields imm rd Opcode.auipc v.1 v.0 (omega arith) in
    rw (← here) (accept_u _ (retired (encode (auipc rd imm)) s b) refl rd ed)
check-report (jal rd imm) s b v here did =
    let (ed, _, _, _, _, _) = j_fields imm rd v.1 v.0 in
    rw (← here) (accept_j _ (retired (encode (jal rd imm)) s b) refl rd ed)
