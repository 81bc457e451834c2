-- ===== src/Mips/Run/Cycle.antt =====
-- One cycle, whatever the word fetched: the counters and `RUN_BIT`.
use simple_cpu.Base.{
  ℕ, ◌+◌, ◌/◌, ◌%◌, ◌^◌, ◌≡◌, arith, Bool, false, not, ◌&&◌, some, ◌==◌, u32, >>=-eq-some, sym, ◌∙◌,
}
use mathlib.Core.Option.{some-injective}
use simple_cpu.Mips.Machine.{Simulator, mem_read_32}
use simple_cpu.Mips.Run.{decode_instr_type, dispatch, process_instruction, cycle}
use simple_cpu.Mips.Run.Frame.{SameRest, decode_r-RFrame, decode_i-IFrame, decode_j-IFrame}

-- `SYSCALL` with 10 in register 2, the request to exit.
abbrev pub is_exit : ℕ → Simulator → Bool
is_exit w s = w / 2 ^ 26 == 0 && (w % 2 ^ 6 == 0xc && s.current.regs 2 == 0xa)

dispatch-rest :
    (w : ℕ) (s d : Simulator)
    → dispatch (decode_instr_type w) w s ≡ some d
    → (d.run_bit ≡ (s.run_bit && not (is_exit w s))) × SameRest s d
unfolding dispatch decode_instr_type
dispatch-rest w s d e =
    ground (arith, decode_r-RFrame w s d, decode_i-IFrame w s d, decode_j-IFrame w s)

-- What a cycle that fetches the word w and succeeds does to the state beside the processor and
-- the memory: `NEXT_STATE` becomes the current state, w is recorded and counted in both counters,
-- `prev_pc` is kept, and `RUN_BIT` is cleared exactly when w is `SYSCALL` with 10 in register 2.
pub cycle-frame :
    (s s' : Simulator) (w : ℕ)
    → mem_read_32 s.mem s.current.pc ≡ some w
    → cycle s ≡ some s'
    → (s'.run_bit ≡ (s.run_bit && not (is_exit w s)))
      × (s'.current ≡ s'.next)
      × (s'.instr_opcode ≡ w)
      × (s'.prev_pc ≡ s.prev_pc)
      × (s'.instr_count ≡ u32 (s.instr_count + 1))
      × (s'.instruction_count ≡ u32 (s.instruction_count + 1))
unfolding cycle process_instruction
cycle-frame s s' w f e =
    let (p, pe, re) = >>=-eq-some (process_instruction s) _ e in
    let (v, ve, de) = >>=-eq-some (mem_read_32 s.mem s.current.pc) _ pe in
    let same : v ≡ w = some-injective _ _ (sym ve ∙ f) in
    let start = record s { rt_as_src = false; wr_link_reg = false; instr_opcode = v } in
    let (d, dd, fe) = >>=-eq-some (dispatch (decode_instr_type v) v start) _ de in
    let rest = dispatch-rest v start d dd in
    let first = some-injective _ _ fe in
    let second = some-injective _ _ re in ground (arith, rest, first, second, same)

-- A cycle that succeeds has fetched a word.
pub cycle-fetch :
    (s s' : Simulator) → cycle s ≡ some s' → (w : ℕ) × (mem_read_32 s.mem s.current.pc ≡ some w)
unfolding cycle process_instruction
cycle-fetch s s' e =
    let (p, pe, _) = >>=-eq-some (process_instruction s) _ e in
    let (v, ve, _) = >>=-eq-some (mem_read_32 s.mem s.current.pc) _ pe in (v, ve)
