-- ===== src/Mips/Main.antt =====
-- `main` of mips/iss/src/main.c; the files are those of the name that it is called with.
use simple_cpu.Base.{ℕ, Option, List}
use simple_cpu.Driver.{Outcome, ◌>>=◌}
use simple_cpu.Mips.Machine.{Simulator}
use simple_cpu.Mips.Loader.{init}
use simple_cpu.Mips.Run.{go}

-- The fuel is that of `go`.
unfoldable pub main : ℕ → Option (List ℕ) → Option (List ℕ) → Simulator → Outcome Simulator
main fuel words pcs s = init words pcs s >>= go fuel
