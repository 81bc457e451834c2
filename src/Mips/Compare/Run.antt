-- ===== src/Mips/Compare/Run.antt =====
-- Runs in lockstep with hardware that implements the instruction set.
use simple_cpu.Base.{ℕ, Option, List, [], ◌∷◌, ◌≡◌, refl, false, some}
use mathlib.Core.Path.{subst}
use simple_cpu.Driver
use simple_cpu.Driver.{Outcome, returned, exited}
use simple_cpu.Mips.Machine.{Simulator, mem_read_32}
use simple_cpu.Mips.Isa.{Instr, jalr, is_exit, step}
use simple_cpu.Mips.Isa.Code.{IsValid, encode}
use simple_cpu.Mips.Isa.Refine.{retired}
use simple_cpu.Mips.Isa.Trace.{View, Shows, cycle-performed}
use simple_cpu.Mips.Compare.{matched, mismatch}
use simple_cpu.Mips.Compare.Lockstep.{Report, check, lockstep, report}
use simple_cpu.Mips.Compare.Accept.{IsSeen, check-report, check-jalr}

-- The reports of the instructions that lead from a view to `z`.
pub data Watched (z : View) : List (Option Report) → View → Type 0 where
  ended : Watched z [] z
  watched :
      (i : Instr) {a b : View} {rs : List (Option Report)}
      → IsValid i
      → IsSeen i
      → mem_read_32 a.1 a.0.pc ≡ some (encode i)
      → is_exit i a.0 ≡ false
      → step i a.0 a.1 ≡ some b
      → Watched z rs b
      → Watched z (some (report i a.0 b.0) ∷ rs) a

-- The checks expect the instruction that is about to be executed.
abbrev pub Expects : Simulator → View → Type 0
Expects s a = Shows s a × (s.prev_pc ≡ s.current.pc)

-- A run of the MIPS simulator in lockstep with hardware that implements the instruction set: from
-- a running simulator with the invariant (`IsSteady`), in the processor state and memory of the
-- hardware, whose next check expects the instruction at the program counter, every report of
-- instructions with operands in range, none of them the request to exit or a `jalr`, passes its
-- check, no cycle faults, and at the end the simulator is again in the state of the hardware, and
-- expects its next instruction.
pub lockstep-Watched :
    (rs : List (Option Report)) (s : Simulator) (a z : View)
    → Expects s a
    → Watched z rs a
    → (t : Simulator) × (lockstep rs s ≡ returned t) × Expects t z
unfolding lockstep Driver.run
lockstep-Watched [] s a z e ended = (s, refl, e)
lockstep-Watched (r ∷ rs) s (c, m) z ((steady, on, cpu, mem), here)
      (watched i {b = b} v seen fetch stays did rest) =
    let (ran, (good, still, at, held)) =
      cycle-performed i s (c, m) b (steady, on, cpu, mem) v fetch stays did in
    let same : step i s.current s.mem ≡ some b = rw (cpu, mem) did in
    let accepted : check (report i c b.0) (retired i s b) ≡ matched (retired i s b) =
      subst (λ k. check (report i k b.0) (retired i s b) ≡ matched (retired i s b)) cpu
        (check-report s b here i v seen same) in
    let (t, later, end) =
      lockstep-Watched rs (record (retired i s b) { prev_pc = b.0.pc }) b z
        ((good, still, at, held), refl) rest in
    (t, rw (on, Driver.run) (rw (ran, Driver.run) (rw accepted later)), end)

-- A `jalr` fails the test bench of the MIPS processor: in lockstep with hardware that implements
-- the instruction set, from the state in which `lockstep-Watched` passes every other instruction,
-- the check of a `jalr` with operands in range, which the bench reports with register 31 in place
-- of rd and rt, rejects it, clears `RUN_BIT`, and the bench stops.
pub lockstep-jalr :
    (rd rs : ℕ) (later : List (Option Report)) (s : Simulator) (a b : View)
    → Expects s a
    → IsValid (jalr rd rs)
    → mem_read_32 a.1 a.0.pc ≡ some (encode (jalr rd rs))
    → step (jalr rd rs) a.0 a.1 ≡ some b
    → lockstep (some (report (jalr rd rs) a.0 b.0) ∷ later) s
      ≡ exited (record (retired (jalr rd rs) s b) { run_bit = false })
unfolding lockstep Driver.run
lockstep-jalr rd rs later s (c, m) b ((steady, on, cpu, mem), here) v fetch did =
    let (ran, _) =
      cycle-performed (jalr rd rs) s (c, m) b (steady, on, cpu, mem) v fetch refl did in
    let rejected : check (report (jalr rd rs) c b.0) (retired (jalr rd rs) s b)
        ≡ mismatch (retired (jalr rd rs) s b) =
      subst
        (λ k.
          check (report (jalr rd rs) k b.0) (retired (jalr rd rs) s b)
          ≡ mismatch (retired (jalr rd rs) s b))
        cpu (check-jalr s b here rd rs v) in
    rw (on, Driver.run) (rw (ran, Driver.run) (rw rejected refl))
