-- ===== src/Riscv/Isa/Refine.antt =====
-- A cycle of the simulator against the instruction set.
use simple_cpu.Base.{
  ℕ, ◌+◌, ◌*◌, ◌/◌, ◌%◌, ◌^◌, ◌<◌, ◌≡◌, refl, arith, Bool, true, false, if◌then◌else◌, Option, some,
  ◌>>=◌, u32, Option-cases, inl, inr, ap, ◌∙◌,
}
use simple_cpu.Memory.{Store}
use simple_cpu.Extend.Laws.{sext}
use simple_cpu.Riscv.State.{IsReady}
use simple_cpu.Riscv.Opcode
use simple_cpu.Riscv.Machine.{CpuState, Simulator, set_pc, next_pc, mem_read_32, mem_write_32}
use simple_cpu.Riscv.Isa.{
  StoreOp, BranchOp, Instr, alu, alu_imm, jalr, load, store, branch, lui, auipc, jal, step, advance,
  jump, taken,
}
use simple_cpu.Riscv.Isa.Code.{
  encode, IsValid, alu_funct, imm_funct, load_funct, store_funct, branch_funct,
}
use simple_cpu.Riscv.Isa.Execute.{
  execute_r-alu, execute_i-alu_imm, execute_i-jalr, execute_i-load, execute_i-load_fault,
  execute_s-store, execute_b-branch, execute_u-lui, execute_u-auipc, execute_j-jal,
}
use simple_cpu.Riscv.Fields.{
  r_fields, i_fields, s_fields, decode_r-encode_r, decode_i-encode_i, decode_s-encode_s,
}
use simple_cpu.Riscv.Fields.Jump.{
  b_fields, u_fields, j_fields, decode_b-encode_b, decode_u-encode_u, decode_j-encode_j,
}
use simple_cpu.Riscv.Execute.Transfer.{finish_store}
use simple_cpu.Riscv.Encode.{encode_r, encode_i, encode_s, encode_b, encode_u, encode_j}
use simple_cpu.Riscv.Run.{
  InstrType, r_type, i_type, s_type, b_type, u_type, j_type, decode_instr_type, dispatch,
  process_instruction, cycle,
}

-- The simulator after a cycle that leaves the given processor state and memory.
abbrev pub retired : ℕ → Simulator → CpuState × Store → Simulator
retired w s (c, m) = record s {
  current = c;
  next = c;
  mem = m;
  instr_opcode = w;
  instr_count = u32 (s.instr_count + 1);
  instruction_count = u32 (s.instruction_count + 1);
}

-- The state in which an instruction is executed: fetched, with `NEXT_STATE` still in step.
abbrev pub fetched : ℕ → Simulator → Simulator
fetched w s = record s { next = s.current; instr_opcode = w }

abbrev pub finished : Simulator → Simulator
finished s = record s {
  current = s.next;
  instr_count = u32 (s.instr_count + 1);
  instruction_count = u32 (s.instruction_count + 1);
}

pub cycle_lem :
    (s : Simulator) (w : ℕ) (t : InstrType)
    → s.next ≡ s.current
    → mem_read_32 s.mem s.current.pc ≡ some w
    → decode_instr_type w (fetched w s) ≡ (t, fetched w s)
    → cycle s ≡ (dispatch t w (fetched w s) >>= λ done. some (finished done))
unfolding cycle process_instruction
cycle_lem s w t synced e d =
    let same : record s { instr_opcode = w } ≡ fetched w s =
      λ i. record s { next = synced i; instr_opcode = w } in
    rw (e, same, d) (ground arith)

-- A cycle whose instruction is of a given type and executes without a fault.
pub cycle_of :
    (s : Simulator) (w : ℕ) (t : InstrType) (o : Option Simulator)
    → s.next ≡ s.current
    → mem_read_32 s.mem s.current.pc ≡ some w
    → decode_instr_type w (fetched w s) ≡ (t, fetched w s)
    → dispatch t w (fetched w s) ≡ o
    → cycle s ≡ (o >>= λ done. some (finished done))
cycle_of s w t o synced e d x =
    cycle_lem s w t synced e d ∙ ap (λ (m : Option Simulator). m >>= λ done. some (finished done)) x

pub store_funct-lt : (op : StoreOp) → store_funct op < 8
store_funct-lt StoreOp.sb = omega arith
store_funct-lt StoreOp.sh = omega arith
store_funct-lt StoreOp.sw = omega arith

pub branch_funct-lt : (op : BranchOp) → branch_funct op < 8
branch_funct-lt BranchOp.beq = omega arith
branch_funct-lt BranchOp.bne = omega arith
branch_funct-lt BranchOp.blt = omega arith
branch_funct-lt BranchOp.bltu = omega arith
branch_funct-lt BranchOp.bge = omega arith
branch_funct-lt BranchOp.bgeu = omega arith

stored :
    (s : Simulator) (w a v : ℕ)
    → (finish_store a v (fetched w s) >>= λ done. some (finished done)) ≡ (
        (mem_write_32 s.mem a v >>= λ m. some (advance s.current s.current.regs, m)) >>= λ after.
        some (retired w s after))
unfolding finish_store
stored s w a v = elim (Option-cases (mem_write_32 s.mem a v)) [
  | inl bad ↦ rw bad
  | inr (m, good) ↦ rw good
]

branched :
    (s : Simulator) (w target : ℕ) (b : Bool)
    → some (finished (if b then set_pc target (fetched w s) else next_pc (fetched w s)))
      ≡ some (
          retired w s
            (if b then jump target s.current.regs else advance s.current s.current.regs, s.mem))
branched s w target true = refl
branched s w target false = refl

-- A cycle refines the description of the instruction set: for every instruction of the set with
-- operands in range, in a ready state (`IsReady`) whose program counter holds its encoding,
-- `cycle` computes the program counter, the registers and the memory that `step` describes,
-- counts the instruction and records its word, or faults exactly where `step` does.
pub cycle-step :
    (i : Instr) (s : Simulator)
    → IsValid i
    → IsReady s
    → mem_read_32 s.mem s.current.pc ≡ some (encode i)
    → cycle s ≡ (step i s.current s.mem >>= λ after. some (retired (encode i) s after))
unfolding dispatch decode_instr_type
cycle-step (alu op rd rs1 rs2) s v r e =
    let f7 = alu_funct op / 8 % 2 * 2 ^ 5 in
    let f3 = alu_funct op % 8 in
    let fields = r_fields f7 rs2 rs1 f3 rd (omega arith) v.2 v.1 (omega arith) v.0 in
    cycle_of s (encode_r f7 rs2 rs1 f3 rd) r_type _ r.synced e (rw fields.5) (
      ap some (
        decode_r-encode_r f7 rs2 rs1 f3 rd _ (omega arith) v.2 v.1 (omega arith) v.0
        ∙ execute_r-alu op rs1 rs2 rd _ (r.words rs1) (r.words rs2)))
cycle-step (alu_imm op rd rs1 imm) s v r e =
    let f3 = imm_funct op % 8 in
    let fields = i_fields imm rs1 f3 rd 0x13 v.2 v.1 (omega arith) v.0 (omega arith) in
    cycle_of s (encode_i imm rs1 f3 rd 0x13) i_type _ r.synced e (rw fields.1) (
      decode_i-encode_i imm rs1 f3 rd 0x13 _ v.2 v.1 (omega arith) v.0 (omega arith)
      ∙ execute_i-alu_imm op rs1 rd imm _ (r.words rs1) v.2)
cycle-step (jalr rd rs1 imm) s v r e =
    let fields = i_fields imm rs1 7 rd 0x03 v.2 v.1 (omega arith) v.0 (omega arith) in
    cycle_of s (encode_i imm rs1 7 rd 0x03) i_type _ r.synced e (rw fields.1) (
      decode_i-encode_i imm rs1 7 rd 0x03 _ v.2 v.1 (omega arith) v.0 (omega arith)
      ∙ execute_i-jalr rs1 rd imm _ v.2)
cycle-step (load op rd rs1 imm) s v r e =
    let f3 = load_funct op % 8 in
    let fields = i_fields imm rs1 f3 rd 0x03 v.2 v.1 (omega arith) v.0 (omega arith) in
    let decoded = decode_i-encode_i imm rs1 f3 rd 0x03 _ v.2 v.1 (omega arith) v.0 (omega arith) in
    elim (Option-cases (mem_read_32 s.mem (u32 (s.current.regs rs1 + sext 12 imm)))) [
      | inl bad ↦ rw bad (
          cycle_of s (encode_i imm rs1 f3 rd 0x03) i_type _ r.synced e (rw fields.1)
            (decoded ∙ execute_i-load_fault op rs1 rd imm _ v.2 bad))
      | inr (w, found) ↦ rw found (
          cycle_of s (encode_i imm rs1 f3 rd 0x03) i_type _ r.synced e (rw fields.1)
            (decoded ∙ execute_i-load op rs1 rd imm w _ v.2 found))
    ]
cycle-step (store op src base imm) s v r e =
    let f3 = store_funct op in
    let fields = s_fields imm base src f3 v.2 v.1 v.0 (store_funct-lt op) in
    cycle_of s (encode_s imm base src f3) s_type _ r.synced e (rw fields.5) (
      decode_s-encode_s imm base src f3 _ v.2 v.1 v.0 (store_funct-lt op)
      ∙ execute_s-store op src base imm _ v.2)
    ∙ stored s (encode_s imm base src f3) _ _
cycle-step (branch op rs1 rs2 imm) s v r e =
    let f3 = branch_funct op in
    let fields = b_fields imm rs2 rs1 f3 v.2 v.1 v.0 (branch_funct-lt op) in
    cycle_of s (encode_b imm rs2 rs1 f3) b_type _ r.synced e (rw fields.7) (
      ap some (
        decode_b-encode_b imm rs2 rs1 f3 _ v.2 v.3 v.1 v.0 (branch_funct-lt op)
        ∙ execute_b-branch op rs1 rs2 imm _ (r.words rs1) (r.words rs2) v.2))
    ∙ branched s (encode_b imm rs2 rs1 f3) (u32 (s.current.pc + sext 13 imm))
        (taken op (s.current.regs rs1) (s.current.regs rs2))
cycle-step (lui rd imm) s v r e =
    let fields = u_fields imm rd Opcode.lui v.1 v.0 (omega arith) in
    cycle_of s (encode_u imm rd Opcode.lui) u_type _ r.synced e (rw fields.0) (
      ap some (
        decode_u-encode_u imm rd Opcode.lui _ v.1 v.0 (omega arith)
        ∙ execute_u-lui rd imm _ r.zero_reg v.1))
cycle-step (auipc rd imm) s v r e =
    let fields = u_fields imm rd Opcode.auipc v.1 v.0 (omega arith) in
    cycle_of s (encode_u imm rd Opcode.auipc) u_type _ r.synced e (rw fields.0) (
      ap some (
        decode_u-encode_u imm rd Opcode.auipc _ v.1 v.0 (omega arith)
        ∙ execute_u-auipc rd imm _ r.zero_reg v.1))
cycle-step (jal rd imm) s v r e =
    let fields = j_fields imm rd v.1 v.0 in
    cycle_of s (encode_j imm rd) j_type _ r.synced e (rw fields.5)
      (ap some (decode_j-encode_j imm rd _ v.1 v.2 v.0 ∙ execute_j-jal rd imm _ v.1))
