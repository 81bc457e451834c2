-- ===== src/Riscv/Isa/Trace.antt =====
-- Runs of the simulator against programs of the instruction set.
use simple_cpu.Base.{
  ℕ, ◌+◌, ◌%◌, ◌^◌, ◌<◌, ◌≡◌, refl, arith, true, false, some, ◌∙◌, u32, bit_and_mask,
}
use simple_cpu.Memory.{Store}
use simple_cpu.Driver.{returned}
use simple_cpu.Driver.Laws.{go-run, run-last}
use simple_cpu.Driver.Trace.{Steps, run-Steps}
use simple_cpu.Riscv.Machine.{CpuState, Simulator, mem_read_32}
use simple_cpu.Riscv.State.{IsReady}
use simple_cpu.Riscv.Isa.{Instr, step}
use simple_cpu.Riscv.Isa.Code.{IsValid, encode}
use simple_cpu.Riscv.Isa.Refine.{cycle-step, retired}
use simple_cpu.Riscv.Run.{no_type, decode_instr_type, dispatch, process_instruction, cycle, run, go}
use simple_cpu.Riscv.Run.Cycle.{is_known, cycle-IsReady, cycle-rest}
use simple_cpu.Riscv.Run.Loop.{run-IsReady}

-- The processor and the memory: all that the instruction set speaks of.
abbrev pub View : Type 0
View = CpuState × Store

-- The instruction at the program counter is executed.
pub data Step (a : View) : View → Type 0 where
  perform :
      (i : Instr) {b : View}
      → IsValid i
      → mem_read_32 a.1 a.0.pc ≡ some (encode i)
      → step i a.0 a.1 ≡ some b
      → Step a b

abbrev pub Shows : Simulator → View → Type 0
Shows s a = IsReady s × (s.run_bit ≡ true) × (s.current ≡ a.0) × (s.mem ≡ a.1)

-- The opcode of the word has no type: no instruction of the set, and the end of the run.
unknown_type :
    (w : ℕ) (s : Simulator)
    → is_known w ≡ false
    → decode_instr_type w s ≡ (no_type, record s { run_bit = false })
unfolding decode_instr_type
unknown_type w s unknown = ground (arith, bit_and_mask 7 w)

cycle-unknown :
    (s : Simulator) (w : ℕ)
    → IsReady s
    → mem_read_32 s.mem s.current.pc ≡ some w
    → is_known w ≡ false
    → (t : Simulator) × (cycle s ≡ some t) × (t.current ≡ s.current) × (t.mem ≡ s.mem)
unfolding cycle process_instruction dispatch
cycle-unknown s w ready fetch unknown =
    let d = unknown_type w (record s { instr_opcode = w }) unknown in
    (
      record s {
        current = s.next;
        run_bit = false;
        instr_opcode = w;
        instr_count = u32 (s.instr_count + 1);
        instruction_count = u32 (s.instruction_count + 1);
      },
      rw fetch (rw d refl),
      ready.synced,
      refl,
    )

pub cycle-retired :
    (i : Instr) (s : Simulator) (a b : View)
    → Shows s a
    → IsValid i
    → mem_read_32 a.1 a.0.pc ≡ some (encode i)
    → step i a.0 a.1 ≡ some b
    → (cycle s ≡ some (retired (encode i) s b)) × Shows (retired (encode i) s b) b
cycle-retired i s (c, m) b (ready, on, cpu, mem) v fetch did =
    let same : step i s.current s.mem ≡ some b = rw (cpu, mem) did in
    let ran : cycle s ≡ some (retired (encode i) s b) =
      cycle-step i s v ready (rw (cpu, mem) fetch) ∙ rw same refl in
    let good = cycle-IsReady s (retired (encode i) s b) ready ran in (ran, (good, on, refl, refl))

cycle-Shows :
    (s : Simulator) (a b : View)
    → Shows s a
    → Step a b
    → (t : Simulator) × (cycle s ≡ some t) × Shows t b
cycle-Shows s a b shown (perform i v fetch did) =
    let (ran, kept) = cycle-retired i s a b shown v fetch did in (retired (encode i) s b, ran, kept)

-- A program of the instruction set that comes, from the state of a running ready simulator
-- (`IsReady`), in n instructions to a word whose opcode has no type, ends: with fuel above n,
-- `go` returns, with the processor and the memory that the n instructions leave, and n + 1 more
-- in `INSTRUCTION_COUNT`, modulo 2 ^ 32.
pub go-Steps :
    (n fuel : ℕ) (s : Simulator) (z : View) (w : ℕ)
    → IsReady s
    → s.run_bit ≡ true
    → Steps Step z n (s.current, s.mem)
    → mem_read_32 z.1 z.0.pc ≡ some w
    → is_known w ≡ false
    → n < fuel
    → (t : Simulator) × (go fuel s ≡ returned t)
      × (t.current ≡ z.0)
      × (t.mem ≡ z.1)
      × (t.instruction_count % 2 ^ 32 ≡ (s.instruction_count + (n + 1)) % 2 ^ 32)
go-Steps n fuel s z w ready on steps last unknown enough =
    let (u, ran, (good, still, cpu, mem)) =
      run-Steps (λ t. t.run_bit) cycle Step Shows (λ s a h. h.1) cycle-Shows n s (s.current, s.mem)
        z (ready, on, refl, refl) steps in
    let end : mem_read_32 u.mem u.current.pc ≡ some w = rw (cpu, mem) last in
    let (t, stop, kept, stored) = cycle-unknown u w good end unknown in
    let rest = cycle-rest u t w end stop in
    let off : t.run_bit ≡ false = rest.0 ∙ rw (unknown, still) refl in
    let whole : run (n + 1) s ≡ returned t =
      run-last (λ t. t.run_bit) cycle n s u t ran still stop in
    (
      t,
      go-run (λ t. t.run_bit) cycle (n + 1) fuel s t whole off (omega arith),
      kept ∙ cpu,
      stored ∙ mem,
      (run-IsReady (n + 1) s t ready whole).1,
    )
