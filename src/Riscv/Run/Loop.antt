-- ===== src/Riscv/Run/Loop.antt =====
-- A run of any length keeps the invariant.
use simple_cpu.Base.{ℕ, zero, suc, ◌+◌, ◌%◌, ◌^◌, ◌≡◌, arith}
use mathlib.Core.Path.{subst}
use simple_cpu.Riscv.Machine.{Simulator}
use simple_cpu.Riscv.State.{IsReady}
use simple_cpu.Driver
use simple_cpu.Driver.{returned}
use simple_cpu.Driver.Laws.{run-first}
use simple_cpu.Riscv.Run.{cycle, run}
use simple_cpu.Riscv.Run.Cycle.{cycle-IsReady, cycle-rest, cycle-fetch}

-- A run of n cycles from a ready state, where it returns, leaves a ready state, and
-- `INSTRUCTION_COUNT` has grown by n modulo 2 ^ 32.
pub run-IsReady :
    (n : ℕ) (s s' : Simulator)
    → IsReady s
    → run n s ≡ returned s'
    → IsReady s' × (s'.instruction_count % 2 ^ 32 ≡ (s.instruction_count + n) % 2 ^ 32)
unfolding Driver.run
run-IsReady zero s s' r e = let same : s ≡ s' = cc e in (subst IsReady same r, ground (arith, same))
run-IsReady (suc n) s s' r e =
    let (t, on, next, rest) = run-first (λ t. t.run_bit) cycle n s s' e in
    let (w, fetch) = cycle-fetch s t next in
    let later = run-IsReady n t s' (cycle-IsReady s t r next) rest in
    (later.0, omega (arith, later.1, (cycle-rest s t w fetch next).4))
