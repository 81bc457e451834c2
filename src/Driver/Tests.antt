-- ===== src/Driver/Tests.antt =====
-- The theorems about the loops for a machine that counts down to 0 and stops there.
use simple_cpu.Base.{
  ℕ, ◌-◌, ◌≤◌, ◌≡◌, refl, arith, Bool, false, not, ◌==◌, Option, some, none, if◌then◌else◌,
}
use simple_cpu.Driver.{run, while_running, go, returned}
use simple_cpu.Driver.Laws.{go-run, run_of_go}

abbrev running : ℕ → Bool
running n = not (n == 0)

abbrev tick : ℕ → Option ℕ
tick n = if n == 9 then none else some (n - 1)

go-run_example : go running tick 10 4 ≡ returned 0
unfolding run
go-run_example = go-run running tick 4 10 4 0 refl refl (omega arith)

run_of_go_example : (n : ℕ) × (n ≤ 10) × (run running tick n 4 ≡ returned 0) × (running 0 ≡ false)
unfolding go while_running
run_of_go_example = run_of_go running tick 10 4 0 refl
