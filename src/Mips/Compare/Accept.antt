-- ===== src/Mips/Compare/Accept.antt =====
-- The report of a correct instruction passes its check.
use simple_cpu.Base.{ℕ, ◌/◌, ◌%◌, ◌^◌, ◌≡◌, refl, arith, zero, some, if◌then◌else◌, >>=-eq-some}
use simple_cpu.Memory.{Store}
use simple_cpu.Mips.Opcode
use simple_cpu.Mips.Machine.{CpuState, Simulator, mem_read_32, mem_write_32}
use simple_cpu.Mips.Isa.{
  Instr, shift, alu, jr, jalr, mul, div, divu, mfhi, mflo, mthi, mtlo, syscall, alu_imm, lui, load,
  store, branch, branch_sign, j, jal, sign_links, is_shift, step,
}
use simple_cpu.Mips.Isa.Code.{
  IsValid, shift_funct, alu_funct, mul_funct, imm_opcode, load_opcode, store_opcode, branch_opcode,
  sign_rt,
}
use simple_cpu.Mips.Fields.{r_fields}
use simple_cpu.Mips.Isa.Range.{format-InRange}
use simple_cpu.Mips.Isa.Refine.{retired}
use simple_cpu.Mips.Compare.{matched, mismatch, compare_r}
use simple_cpu.Mips.Compare.Lockstep.{check, report}
use simple_cpu.Mips.Compare.Kept.{
  IsKept-write, IsKept-same, IsKept-link, skip_j, accept_j, regs_after, div_regs, divu_regs,
  r_accepted, i_accepted,
}

-- Every instruction but `jalr`.
abbrev pub IsSeen : Instr → Type 0
IsSeen (jalr rd rs) = ⊥
IsSeen i = zero ≡ zero

-- The arguments that the lemmas on the instructions share.
module _ (s : Simulator) (b : CpuState × Store) (here : s.prev_pc ≡ s.current.pc) where
  abbrev Passes : Instr → Type 0
  Passes i = check (report i s.current b.0) (retired i s b) ≡ matched (retired i s b)

  pub check-report : (i : Instr) → IsValid i → IsSeen i → step i s.current s.mem ≡ some b → Passes i
  unfolding check
  check-report (shift op rd rt n) v seen did = rw (← here) (
      r_accepted 0 rt rd n (shift_funct op) rt _ _ (retired (shift op rd rt n) s b)
        (format-InRange (shift op rd rt n) v) refl refl refl
        (IsKept-write rd rt _ s.current.regs b.0.regs (regs_after did))
        (IsKept-write rd rt _ s.current.regs b.0.regs (regs_after did)))
  check-report (alu op rd rs rt) v seen did = rw (← here) (
      r_accepted rs rt rd 0 (alu_funct op) (if is_shift (alu op rd rs rt) then rt else rs) _ _
        (retired (alu op rd rs rt) s b) (format-InRange (alu op rd rs rt) v) refl refl refl
        (IsKept-write rd (if is_shift (alu op rd rs rt) then rt else rs) _ s.current.regs b.0.regs
          (regs_after did))
        (IsKept-write rd rt _ s.current.regs b.0.regs (regs_after did)))
  check-report (jr rd rs) v seen did = rw (← here) (
      r_accepted rs 0 rd 0 Opcode.jr rs _ _ (retired (jr rd rs) s b) (format-InRange (jr rd rs) v)
        refl refl refl (IsKept-same rd rs s.current.regs b.0.regs (regs_after did))
        (IsKept-same rd 0 s.current.regs b.0.regs (regs_after did)))
  check-report (jalr rd rs) v seen did = absurd seen
  check-report (mul op rd rs rt) v seen did = rw (← here) (
      r_accepted rs rt rd 0 (mul_funct op) rs _ _ (retired (mul op rd rs rt) s b)
        (format-InRange (mul op rd rs rt) v) refl refl refl
        (IsKept-same rd rs s.current.regs b.0.regs (regs_after did))
        (IsKept-same rd rt s.current.regs b.0.regs (regs_after did)))
  check-report (div rd rs rt) v seen did = rw (← here) (
      r_accepted rs rt rd 0 Opcode.div rs _ _ (retired (div rd rs rt) s b)
        (format-InRange (div rd rs rt) v) refl refl refl
        (IsKept-same rd rs s.current.regs b.0.regs (div_regs rd rs rt s.current s.mem b did))
        (IsKept-same rd rt s.current.regs b.0.regs (div_regs rd rs rt s.current s.mem b did)))
  check-report (divu rd rs rt) v seen did = rw (← here) (
      r_accepted rs rt rd 0 Opcode.divu rs _ _ (retired (divu rd rs rt) s b)
        (format-InRange (divu rd rs rt) v) refl refl refl
        (IsKept-same rd rs s.current.regs b.0.regs (divu_regs rd rs rt s.current s.mem b did))
        (IsKept-same rd rt s.current.regs b.0.regs (divu_regs rd rs rt s.current s.mem b did)))
  check-report (mfhi rd) v seen did = rw (← here) (
      r_accepted 0 0 rd 0 Opcode.mfhi 0 _ _ (retired (mfhi rd) s b) (format-InRange (mfhi rd) v)
        refl refl refl (IsKept-write rd 0 _ s.current.regs b.0.regs (regs_after did))
        (IsKept-write rd 0 _ s.current.regs b.0.regs (regs_after did)))
  check-report (mflo rd) v seen did = rw (← here) (
      r_accepted 0 0 rd 0 Opcode.mflo 0 _ _ (retired (mflo rd) s b) (format-InRange (mflo rd) v)
        refl refl refl (IsKept-write rd 0 _ s.current.regs b.0.regs (regs_after did))
        (IsKept-write rd 0 _ s.current.regs b.0.regs (regs_after did)))
  check-report (mthi rd rs) v seen did = rw (← here) (
      r_accepted rs 0 rd 0 Opcode.mthi rs _ _ (retired (mthi rd rs) s b)
        (format-InRange (mthi rd rs) v) refl refl refl
        (IsKept-same rd rs s.current.regs b.0.regs (regs_after did))
        (IsKept-same rd 0 s.current.regs b.0.regs (regs_after did)))
  check-report (mtlo rd rs) v seen did = rw (← here) (
      r_accepted rs 0 rd 0 Opcode.mtlo rs _ _ (retired (mtlo rd rs) s b)
        (format-InRange (mtlo rd rs) v) refl refl refl
        (IsKept-same rd rs s.current.regs b.0.regs (regs_after did))
        (IsKept-same rd 0 s.current.regs b.0.regs (regs_after did)))
  check-report syscall v seen did = rw (← here) (
      r_accepted 0 0 0 0 Opcode.syscall 0 _ _ (retired syscall s b) (format-InRange syscall v) refl
        refl refl (IsKept-same 0 0 s.current.regs b.0.regs (regs_after did))
        (IsKept-same 0 0 s.current.regs b.0.regs (regs_after did)))
  check-report (alu_imm op rt rs imm) v seen did = rw (← here) (
      i_accepted (imm_opcode op) rs rt imm rt _ (retired (alu_imm op rt rs imm) s b)
        (format-InRange (alu_imm op rt rs imm) v) refl refl
        (IsKept-write rt rs _ s.current.regs b.0.regs (regs_after did)))
  check-report (lui rt imm) v seen did = rw (← here) (
      i_accepted Opcode.lui 0 rt imm rt _ (retired (lui rt imm) s b) (format-InRange (lui rt imm) v)
        refl refl (IsKept-write rt 0 _ s.current.regs b.0.regs (regs_after did)))
  check-report (load op rt rs imm) v seen did =
      let (_, _, end) = >>=-eq-some (mem_read_32 s.mem _) _ did in
      rw (← here) (
        i_accepted (load_opcode op) rs rt imm rt _ (retired (load op rt rs imm) s b)
          (format-InRange (load op rt rs imm) v) refl refl
          (IsKept-write rt rs _ s.current.regs b.0.regs (regs_after end)))
  check-report (store op rt rs imm) v seen did =
      let (_, _, end) = >>=-eq-some (mem_write_32 s.mem _ _) _ did in
      rw (← here) (
        i_accepted (store_opcode op) rs rt imm rt _ (retired (store op rt rs imm) s b)
          (format-InRange (store op rt rs imm) v) refl refl
          (IsKept-same rt rs s.current.regs b.0.regs (regs_after end)))
  check-report (branch op rs rt imm) v seen did = rw (← here) (
      i_accepted (branch_opcode op) rs rt imm rt _ (retired (branch op rs rt imm) s b)
        (format-InRange (branch op rs rt imm) v) refl refl
        (IsKept-same rt rs s.current.regs b.0.regs (regs_after did)))
  check-report (branch_sign op rs imm) v seen did = rw (← here) (
      i_accepted Opcode.bvar rs (sign_rt op) imm (if sign_links op then 31 else sign_rt op) _
        (retired (branch_sign op rs imm) s b) (format-InRange (branch_sign op rs imm) v) refl refl
        (IsKept-link op rs s.current.regs b.0.regs _ (regs_after did)))
  check-report (j target) v seen did =
      rw (← here) (skip_j (retired (j target) s b) (target / 2 ^ 16 % 2 ^ 5) _ refl)
  check-report (jal target) v seen did = rw (← here) (accept_j (retired (jal target) s b) refl)

  -- The bench takes 31 for both registers of a `jalr`; the check expects the fields of the word.
  pub check-jalr :
      (rd rs : ℕ)
      → IsValid (jalr rd rs)
      → check (report (jalr rd rs) s.current b.0) (retired (jalr rd rs) s b)
        ≡ mismatch (retired (jalr rd rs) s b)
  unfolding check compare_r
  check-jalr rd rs v =
      let (hs, ht, hd, hn, hf) = format-InRange (jalr rd rs) v in
      let (_, target, _, _, _, _) = r_fields rs 0 rd 0 Opcode.jalr hs ht hd hn hf in
      ground (arith, target)
