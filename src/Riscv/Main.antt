-- ===== src/Riscv/Main.antt =====
-- `main` of risc-v/iss/src/main.c; the files are those of the name that it is called with.
use simple_cpu.Base.{ℕ, Bool, Option, List}
use simple_cpu.Driver.{Outcome, ◌>>=◌}
use simple_cpu.Riscv.Machine.{Simulator}
use simple_cpu.Riscv.Loader.{init}
use simple_cpu.Riscv.Run.{go}

-- The fuel is that of `go`.
unfoldable pub main : Bool → ℕ → Option (List ℕ) → Option (List ℕ) → Simulator → Outcome Simulator
main preloaded fuel words pcs s = init preloaded words pcs s >>= go fuel
