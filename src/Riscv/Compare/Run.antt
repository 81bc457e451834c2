-- ===== src/Riscv/Compare/Run.antt =====
-- Runs in lockstep with hardware that implements the instruction set.
use simple_cpu.Base.{
  ℕ, suc, ◌+◌, ◌≤◌, ◌==◌, if◌then◌else◌, false, arith, length, Option, List, [], ◌∷◌, ◌≡◌, refl,
  some,
}
use simple_cpu.Driver
use simple_cpu.Driver.{Outcome, returned}
use simple_cpu.Riscv.Machine.{Simulator, mem_read_32}
use simple_cpu.Riscv.Isa.{Instr, step}
use simple_cpu.Riscv.Isa.Code.{IsValid, encode}
use simple_cpu.Riscv.Isa.Refine.{retired}
use simple_cpu.Riscv.Isa.Trace.{View, Shows, cycle-retired}
use simple_cpu.Riscv.Compare.{matched}
use simple_cpu.Riscv.Compare.Lockstep.{Report, check, lockstep, report}
use simple_cpu.Riscv.Compare.Accept.{check-report}

-- The reports of the instructions that lead from a view to `z`.
pub data Observed (z : View) : List (Option Report) → View → Type 0 where
  ended : Observed z [] z
  observed :
      (i : Instr) {a b : View} {rs : List (Option Report)}
      → IsValid i
      → mem_read_32 a.1 a.0.pc ≡ some (encode i)
      → step i a.0 a.1 ≡ some b
      → Observed z rs b
      → Observed z (some (report i a.0 b.0) ∷ rs) a

-- The checks expect the instruction that is about to be executed.
abbrev pub Expects : Simulator → View → Type 0
Expects s a = Shows s a × (s.prev_pc ≡ s.current.pc)

-- After an instruction that passed: the test is over only where no report is left.
pass_on :
    (rs : List (Option Report)) (n : ℕ) (u t : Simulator)
    → n + suc (length rs) ≤ 200
    → lockstep rs (n + 1) u ≡ returned t
    → (if n + 1 == 200 then returned u else lockstep rs (n + 1) u) ≡ returned t
unfolding lockstep
pass_on [] n u t low e = ground (arith, e)
pass_on (r ∷ rs) n u t low e = let more : (n + 1 == 200) ≡ false = ground (arith, low) in rw more e

-- A run in lockstep with hardware that implements the instruction set: from a running ready
-- simulator (`IsReady`), in the processor state and memory of the hardware, whose next check
-- expects the instruction at the program counter, and where the reports and the instructions
-- retired before them are at most 200, every report of instructions with operands in range passes
-- its check, no cycle faults, and at the end, by `$finish` or not, the simulator is again in the
-- state of the hardware, and expects its next instruction.
pub lockstep-Observed :
    (rs : List (Option Report)) (instr_count : ℕ) (s : Simulator) (a z : View)
    → Expects s a
    → Observed z rs a
    → instr_count + length rs ≤ 200
    → (t : Simulator) × (lockstep rs instr_count s ≡ returned t) × Expects t z
unfolding lockstep Driver.run
lockstep-Observed [] n s a z e ended low = (s, refl, e)
lockstep-Observed (r ∷ rs) n s (c, m) z ((ready, on, cpu, mem), here)
      (observed i {b = b} v fetch did rest) low =
    let (ran, (good, still, at, held)) =
      cycle-retired i s (c, m) b (ready, on, cpu, mem) v fetch did in
    let same : step i s.current s.mem ≡ some b = rw (cpu, mem) did in
    let accepted : check (report i c b.0) (retired (encode i) s b)
        ≡ matched (retired (encode i) s b) =
      rw cpu at (check-report i s b v here same) in
    let (t, later, end) =
      lockstep-Observed rs (n + 1) (record (retired (encode i) s b) { prev_pc = b.0.pc }) b z
        (
          (
            record { synced = good.synced; state = good.state; bytes = good.bytes },
            still,
            at,
            held,
          ),
          refl,
        )
        rest (omega (arith, low)) in
    (t, rw (on, Driver.run) (rw (ran, Driver.run) (rw accepted (pass_on rs n _ t low later))), end)
