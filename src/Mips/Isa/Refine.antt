-- ===== src/Mips/Isa/Refine.antt =====
-- A cycle of the simulator against the instruction set.
use simple_cpu.Base.{
  ℕ, ◌+◌, ◌≡◌, refl, arith, false, if◌then◌else◌, Option, none, some, ◌>>=◌, u32, Option-cases, inl,
  inr, ap, ◌∙◌,
}
use simple_cpu.Memory.{Store}
use simple_cpu.Mips.State.{IsState, IsSteady}
use simple_cpu.Mips.Machine.{CpuState, Simulator, mem_read_32}
use simple_cpu.Mips.Isa.{
  Instr, shift, alu, jr, jalr, mul, div, divu, mfhi, mflo, mthi, mtlo, syscall, alu_imm, lui, load,
  store, branch, branch_sign, j, jal, step, is_shift, is_link, is_exit, address, load_at,
}
use simple_cpu.Mips.Isa.Code.{format, encode, IsValid}
use simple_cpu.Mips.Isa.State.{fetched, executed, finished}
use simple_cpu.Mips.Isa.Range.{format-InRange}
use simple_cpu.Mips.Isa.Alu
use simple_cpu.Mips.Isa.Flow
use simple_cpu.Mips.Fields.Formats.{execute, dispatch-execute}
use simple_cpu.Mips.Run.{decode_instr_type, dispatch, process_instruction, cycle}

-- The simulator after a cycle that leaves the given processor state and memory.
abbrev pub retired : Instr → Simulator → CpuState × Store → Simulator
retired i s (c, m) = record s {
  current = c;
  next = c;
  mem = m;
  run_bit = if is_exit i s.current then false else s.run_bit;
  rt_as_src = is_shift i;
  wr_link_reg = is_link i;
  instr_opcode = encode i;
  instr_count = u32 (s.instr_count + 1);
  instruction_count = u32 (s.instruction_count + 1);
}

cycle_lem :
    (s : Simulator) (w : ℕ)
    → s.next ≡ s.current
    → mem_read_32 s.mem s.current.pc ≡ some w
    → cycle s ≡ (dispatch (decode_instr_type w) w (fetched w s) >>= λ d. some (finished d))
unfolding cycle process_instruction
cycle_lem s w synced e =
    let same : record s { rt_as_src = false; wr_link_reg = false; instr_opcode = w } ≡ fetched w s =
      λ i. record s { next = synced i; rt_as_src = false; wr_link_reg = false; instr_opcode = w } in
    rw (e, same) (ground arith)

execute-step :
    (i : Instr) (w : ℕ) (s : Simulator)
    → IsValid i
    → IsState s.current
    → execute (format i) (fetched w s)
      ≡ (step i s.current s.mem >>= λ after. some (executed w i s after))
execute-step (shift op rd rt n) w s v r = Alu.execute_r-shift w s op rd rt n
execute-step (alu op rd rs rt) w s v r = Alu.execute_r-alu w s op rd rs rt (r.1 rs) (r.1 rt)
execute-step (jr rd rs) w s v r = Alu.execute_r-jr w s rd rs v.2
execute-step (jalr rd rs) w s v r = Alu.execute_r-jalr w s rd rs v.2
execute-step (mul op rd rs rt) w s v r = Alu.execute_r-mul w s op rd rs rt v.3
execute-step (div rd rs rt) w s v r = Alu.execute_r-div w s rd rs rt v.3
execute-step (divu rd rs rt) w s v r = Alu.execute_r-divu w s rd rs rt v.3
execute-step (mfhi rd) w s v r = Alu.execute_r-mfhi w s rd
execute-step (mflo rd) w s v r = Alu.execute_r-mflo w s rd
execute-step (mthi rd rs) w s v r = Alu.execute_r-mthi w s rd rs v.2
execute-step (mtlo rd rs) w s v r = Alu.execute_r-mtlo w s rd rs v.2
execute-step syscall w s v r = Alu.execute_r-syscall w s
execute-step (alu_imm op rt rs imm) w s v r = Flow.execute_i-alu_imm w s op rt rs imm (r.1 rs) v.2
execute-step (lui rt imm) w s v r = Flow.execute_i-lui w s rt imm v.1
execute-step (load op rt rs imm) w s v r =
    elim (Option-cases (mem_read_32 s.mem (load_at op (address s.current rs imm)))) [
      | inl bad ↦ rw bad (Flow.execute_i-load_fault w s op rt rs imm v.2 bad)
      | inr (u, found) ↦ rw found (Flow.execute_i-load w s op rt rs imm u v.2 found)
    ]
execute-step (store op rt rs imm) w s v r = Flow.execute_i-store w s op rt rs imm v.2
execute-step (branch op rs rt imm) w s v r = Flow.execute_i-branch w s op rs rt imm (r.1 rs) v.2
execute-step (branch_sign op rs imm) w s v r = Flow.execute_i-branch_sign w s op rs imm (r.1 rs) v.1
execute-step (j target) w s v r = Flow.execute_j-j w s target v
execute-step (jal target) w s v r = Flow.execute_j-jal w s target v

retire :
    (i : Instr) (s : Simulator) (o : Option (CpuState × Store))
    → ((o >>= λ after. some (executed (encode i) i s after)) >>= λ d. some (finished d))
      ≡ (o >>= λ after. some (retired i s after))
retire i s none = refl
retire i s (some (c, m)) = refl

-- A cycle of the MIPS simulator refines the description of the instruction set: for every
-- instruction of the set with operands in range, in a state with the invariant (`IsSteady`) whose
-- program counter holds its encoding, `cycle` computes the registers, `HI`, `LO`, the program
-- counter and the memory that `step` describes, clears `RUN_BIT` on the request to exit alone,
-- sets the flags for the checks by the kind of instruction, counts it and records its word, or
-- faults exactly where `step` does.
pub cycle-perform :
    (i : Instr) (s : Simulator)
    → IsValid i
    → IsSteady s
    → mem_read_32 s.mem s.current.pc ≡ some (encode i)
    → cycle s ≡ (step i s.current s.mem >>= λ after. some (retired i s after))
cycle-perform i s v (synced, state, bytes) e =
    cycle_lem s (encode i) synced e
    ∙ ap (λ (o : Option Simulator). o >>= λ d. some (finished d))
        (dispatch-execute (format i) (fetched (encode i) s) (format-InRange i v)
          ∙ execute-step i (encode i) s v state)
    ∙ retire i s (step i s.current s.mem)
