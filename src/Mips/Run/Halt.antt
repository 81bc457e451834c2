-- ===== src/Mips/Run/Halt.antt =====
-- How the loops end.
use simple_cpu.Base.{
  ℕ, zero, suc, ◌+◌, ◌%◌, ◌^◌, ◌≡◌, refl, arith, true, false, not, ◌&&◌, some, Bool-cases, inl, inr,
}
use mathlib.Core.Path.{subst}
use simple_cpu.Driver
use simple_cpu.Driver.{returned}
use simple_cpu.Driver.Laws.{run-first, run_of_go, stopped-run}
use simple_cpu.Mips.Machine.{Simulator, mem_read_32}
use simple_cpu.Mips.Run.{cycle, run, go}
use simple_cpu.Mips.Run.Cycle.{cycle-frame, cycle-fetch, is_exit}

-- A run of n cycles, where it returns, has added n to `INSTRUCTION_COUNT` modulo 2 ^ 32.
pub run-count :
    (n : ℕ) (s s' : Simulator)
    → run n s ≡ returned s'
    → s'.instruction_count % 2 ^ 32 ≡ (s.instruction_count + n) % 2 ^ 32
unfolding Driver.run
run-count zero s s' e = let same : s ≡ s' = cc e in ground (arith, same)
run-count (suc n) s s' e =
    let (t, on, next, rest) = run-first (λ t. t.run_bit) cycle n s s' e in
    let (w, fetch) = cycle-fetch s t next in
    omega (arith, run-count n t s' rest, (cycle-frame s t w fetch next).5)

exit_of :
    (s t : Simulator) (w : ℕ)
    → s.run_bit ≡ true
    → t.run_bit ≡ false
    → t.run_bit ≡ (s.run_bit && not (is_exit w s))
    → is_exit w s ≡ true
exit_of s t w on off e = elim (Bool-cases (is_exit w s)) [
  | inl exits ↦ exits
  | inr stays ↦ absurd (let h = rw (on, stays) at e in cc (h, off))
]

-- The state in which a run came to a halt.
run-halt :
    (n : ℕ) (s s' : Simulator)
    → run n s ≡ returned s'
    → s.run_bit ≡ true
    → s'.run_bit ≡ false
    → (k : ℕ) × (t : Simulator) × (w : ℕ) × (n ≡ suc k)
      × (run k s ≡ returned t)
      × (mem_read_32 t.mem t.current.pc ≡ some w)
      × (is_exit w t ≡ true)
      × (cycle t ≡ some s')
unfolding Driver.run
run-halt zero s s' e on off = let same : s ≡ s' = cc e in absurd (ground (arith, same, on, off))
run-halt (suc n) s s' e on off =
    let (t, _, next, rest) = run-first (λ t. t.run_bit) cycle n s s' e in
    let (w, fetch) = cycle-fetch s t next in
    elim (Bool-cases t.run_bit) [
      | inl still ↦
          let (k, u, v, count, ran, f, x, last) = run-halt n t s' rest still off in
          (
            suc k,
            u,
            v,
            omega (arith, count),
            rw (on, Driver.run) (rw (next, Driver.run) ran),
            f,
            x,
            last,
          )
      | inr stopped ↦
          let (none_left, there) = stopped-run (λ t. t.run_bit) cycle n t s' stopped rest in
          let same : t ≡ s' = cc there in
          (
            0,
            s,
            w,
            omega (arith, none_left),
            refl,
            fetch,
            exit_of s t w on stopped (cycle-frame s t w fetch next).0,
            subst (λ (x : Simulator). cycle s ≡ some x) same next,
          )
    ]

-- Where `go` returns from a running simulator, it is by the exit system call: some number of
-- cycles leads to a state whose next word is `SYSCALL` with 10 in register 2, and the cycle on
-- that word is the last.
pub go-exit :
    (fuel : ℕ) (s s' : Simulator)
    → go fuel s ≡ returned s'
    → s.run_bit ≡ true
    → (k : ℕ) × (t : Simulator) × (w : ℕ) × (run k s ≡ returned t)
      × (mem_read_32 t.mem t.current.pc ≡ some w)
      × (is_exit w t ≡ true)
      × (cycle t ≡ some s')
go-exit fuel s s' e on =
    let (n, _, ran, off) = run_of_go (λ t. t.run_bit) cycle fuel s s' e in
    let (k, t, w, _, before, f, x, last) = run-halt n s s' ran on off in
    (k, t, w, before, f, x, last)
