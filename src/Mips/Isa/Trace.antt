-- ===== src/Mips/Isa/Trace.antt =====
-- Runs of the simulator against programs of the instruction set.
use simple_cpu.Base.{ℕ, ◌+◌, ◌%◌, ◌^◌, ◌<◌, ◌≡◌, refl, arith, true, false, some, ◌∙◌, ==_iff}
use simple_cpu.Memory.{Store}
use simple_cpu.Driver.{returned}
use simple_cpu.Driver.Laws.{go-run, run-last}
use simple_cpu.Driver.Trace.{Steps, run-Steps}
use simple_cpu.Mips.Machine.{CpuState, Simulator, mem_read_32}
use simple_cpu.Mips.State.{IsSteady}
use simple_cpu.Mips.Isa.{Instr, syscall, is_exit, step, advance}
use simple_cpu.Mips.Isa.Code.{IsValid, encode}
use simple_cpu.Mips.Isa.Refine.{cycle-perform, retired}
use simple_cpu.Mips.Run.{cycle, go}
use simple_cpu.Mips.Run.Steady.{cycle-IsSteady, run-IsSteady}

-- The processor and the memory: all that the instruction set speaks of.
abbrev pub View : Type 0
View = CpuState × Store

-- The instruction at the program counter is executed, and is not the request to exit.
pub data Step (a : View) : View → Type 0 where
  perform :
      (i : Instr) {b : View}
      → IsValid i
      → mem_read_32 a.1 a.0.pc ≡ some (encode i)
      → is_exit i a.0 ≡ false
      → step i a.0 a.1 ≡ some b
      → Step a b

-- A program of so many instructions, up to the view `z`.
abbrev pub Executes : View → ℕ → View → Type 0
Executes z n a = Steps Step z n a

abbrev pub Shows : Simulator → View → Type 0
Shows s a = IsSteady s × (s.run_bit ≡ true) × (s.current ≡ a.0) × (s.mem ≡ a.1)

pub cycle-performed :
    (i : Instr) (s : Simulator) (a b : View)
    → Shows s a
    → IsValid i
    → mem_read_32 a.1 a.0.pc ≡ some (encode i)
    → is_exit i a.0 ≡ false
    → step i a.0 a.1 ≡ some b
    → (cycle s ≡ some (retired i s b)) × Shows (retired i s b) b
cycle-performed i s (c, m) b (steady, on, cpu, mem) v fetch stays did =
    let same : step i s.current s.mem ≡ some b = rw (cpu, mem) did in
    let ran : cycle s ≡ some (retired i s b) =
      cycle-perform i s v steady (rw (cpu, mem) fetch) ∙ rw same refl in
    let still : is_exit i s.current ≡ false = rw cpu stays in
    (ran, (cycle-IsSteady s (retired i s b) steady ran, rw still on, refl, refl))

cycle-Shows :
    (s : Simulator) (a b : View)
    → Shows s a
    → Step a b
    → (t : Simulator) × (cycle s ≡ some t) × Shows t b
cycle-Shows s a b shown (perform i v fetch stays did) =
    let (ran, kept) = cycle-performed i s a b shown v fetch stays did in (retired i s b, ran, kept)

-- A program of the MIPS instruction set that comes, from the state of a running simulator with
-- the invariant (`IsSteady`), in n instructions, none of them the request to exit, to `SYSCALL`
-- with 10 in register 2, ends: with fuel above n, `go` returns, with the memory and the processor
-- that the n instructions leave, but the program counter past the `SYSCALL`, and n + 1 more in
-- `INSTRUCTION_COUNT`, modulo 2 ^ 32.
pub go-Executes :
    (n fuel : ℕ) (s : Simulator) (z : View)
    → IsSteady s
    → s.run_bit ≡ true
    → Executes z n (s.current, s.mem)
    → mem_read_32 z.1 z.0.pc ≡ some (encode syscall)
    → z.0.regs 2 ≡ 10
    → n < fuel
    → (t : Simulator) × (go fuel s ≡ returned t)
      × (t.current ≡ advance z.0)
      × (t.mem ≡ z.1)
      × (t.instruction_count % 2 ^ 32 ≡ (s.instruction_count + (n + 1)) % 2 ^ 32)
go-Executes n fuel s z steady on steps last ten enough =
    let (u, ran, (good, still, cpu, mem)) =
      run-Steps (λ t. t.run_bit) cycle Step Shows (λ s a h. h.1) cycle-Shows n s (s.current, s.mem)
        z (steady, on, refl, refl) steps in
    let t = retired syscall u (advance u.current, u.mem) in
    let stop : cycle u ≡ some t = cycle-perform syscall u refl good (rw (cpu, mem) last) in
    let exits : is_exit syscall u.current ≡ true = (==_iff _ 10).1 (rw cpu ten) in
    let off : t.run_bit ≡ false = rw exits refl in
    let whole = run-last (λ t. t.run_bit) cycle n s u t ran still stop in
    (
      t,
      go-run (λ t. t.run_bit) cycle (n + 1) fuel s t whole off (omega arith),
      rw cpu refl,
      mem,
      (run-IsSteady (n + 1) s t steady whole).1,
    )
