-- ===== src/Mips/Run/Steady.antt =====
-- Cycles and runs keep the invariant of the state.
use simple_cpu.Base.{ℕ, zero, suc, ◌+◌, ◌%◌, ◌^◌, ◌≡◌, refl, false, some, >>=-eq-some, sym}
use mathlib.Core.Path.{subst}
use mathlib.Core.Option.{some-injective}
use simple_cpu.Driver
use simple_cpu.Driver.{returned}
use simple_cpu.Driver.Laws.{run-first}
use simple_cpu.Mips.Machine.{Simulator, mem_read_32}
use simple_cpu.Mips.State.{IsGood, IsSteady}
use simple_cpu.Mips.Run.{decode_instr_type, dispatch, process_instruction, cycle, run}
use simple_cpu.Mips.Run.Halt.{run-count}
use simple_cpu.Mips.Run.Keep.{dispatch-MaybeGood}
use simple_cpu.Mips.Run.Keep.Result.{MaybeGood}

-- A cycle of the MIPS simulator that succeeds keeps the invariant (`IsSteady`), whatever word it
-- fetches: `NEXT_STATE` equals `CURRENT_STATE`, register 0 is 0, the registers, the program
-- counter, `HI` and `LO` are words, and the memory holds bytes.
pub cycle-IsSteady : (s s' : Simulator) → IsSteady s → cycle s ≡ some s' → IsSteady s'
unfolding cycle process_instruction
cycle-IsSteady s s' (synced, state, bytes) e =
    let (p, pe, re) = >>=-eq-some (process_instruction s) _ e in
    let (w, we, de) = >>=-eq-some (mem_read_32 s.mem s.current.pc) _ pe in
    let start = record s { rt_as_src = false; wr_link_reg = false; instr_opcode = w } in
    let (d, dd, fe) = >>=-eq-some (dispatch (decode_instr_type w) w start) _ de in
    let good : IsGood start = record { old = state; new = rw synced state; bytes = bytes } in
    let after : MaybeGood (some d) =
      rw dd at (dispatch-MaybeGood (decode_instr_type w) w start good) in
    let first = some-injective _ _ fe in
    let second = some-injective _ _ re in
    rw (sym second) (rw (sym first) (refl, after.new, after.bytes))

-- A run of n cycles of the MIPS simulator from a state with the invariant (`IsSteady`), where it
-- returns, leaves one, and `INSTRUCTION_COUNT` has grown by n modulo 2 ^ 32.
pub run-IsSteady :
    (n : ℕ) (s s' : Simulator)
    → IsSteady s
    → run n s ≡ returned s'
    → IsSteady s' × (s'.instruction_count % 2 ^ 32 ≡ (s.instruction_count + n) % 2 ^ 32)
unfolding Driver.run
run-IsSteady zero s s' r e =
    let same : s ≡ s' = cc e in (subst IsSteady same r, run-count zero s s' e)
run-IsSteady (suc n) s s' r e =
    let (t, on, next, rest) = run-first (λ t. t.run_bit) cycle n s s' e in
    let later = run-IsSteady n t s' (cycle-IsSteady s t r next) rest in
    (later.0, run-count (suc n) s s' e)
