-- ===== src/Mips/Generator/Recorded.antt =====
-- What the arrays of mips/hex_gen/src/hex_gen_shared.h say of the simulator's memory, and how the
-- placing of one instruction keeps that.
use simple_cpu.Base.{
  ℕ, ◌%◌, ◌^◌, ◌<◌, ◌≡◌, ◌≢◌, refl, arith, some, ◌==◌, if◌then◌else◌, >>=-eq-some, sym, ap, ◌∙◌,
  update, Option-cases, Bool-cases, ==_iff, inl, inr,
}
use simple_cpu.Memory.{Store}
use simple_cpu.Memory.Laws.{IsBytes}
use simple_cpu.Driver
use simple_cpu.Driver.{Outcome, returned, exited, fault, out_of_fuel}
use simple_cpu.Driver.Laws.{run-first}
use mathlib.Core.Option.{some-injective}
use simple_cpu.Mips.Machine.{Simulator, mem_read_32, mem_write_32}
use simple_cpu.Mips.Run.{run, cycle}
use simple_cpu.Mips.Run.Cycle.{cycle-frame, cycle-fetch}
use simple_cpu.Mips.Loader.{load_instr_opcode}
use simple_cpu.Mips.Generator.State.{Generator, update_cpu}
use simple_cpu.Mips.Generator.Emit.{with_sim, execute}
use simple_cpu.Mips.Generator.Tame.{IsTame, placed}

-- Every place that `pc` marks is that of a word, which the memory has there.
abbrev pub IsWritten : (ℕ → ℕ) → (ℕ → ℕ) → Store → Type 0
IsWritten pc instr m =
    (a : ℕ)
    → a < 0x2000
    → pc a ≢ 0
    → (a % 4 ≡ 0) × (instr a < 2 ^ 32) × (mem_read_32 m a ≡ some (instr a))

-- Every place that is not marked has no word.
abbrev pub IsBlank : (ℕ → ℕ) → (ℕ → ℕ) → Type 0
IsBlank pc instr = (a : ℕ) → a < 0x2000 → pc a ≡ 0 → instr a ≡ 0

-- `prev_pc` is the program counter, which is a multiple of 4, and every marked place holds its word
-- in the memory.
abbrev pub IsPlaced : Generator → Type 0
IsPlaced g =
    IsBytes g.sim.mem
    × (g.sim.prev_pc ≡ g.sim.current.pc)
    × (g.sim.current.pc % 4 ≡ 0)
    × IsWritten g.pc g.instr g.sim.mem

-- Before the first instruction the program counter is 0, with room for two; after it place 0 is
-- marked.
abbrev pub IsRecorded : Generator → Type 0
IsRecorded g =
    IsPlaced g
    × (g.instr_gen ≡ 0 → (g.sim.current.pc ≡ 0) × (g.pc 0 ≡ 0) × (g.pc 4 ≡ 0))
    × (g.instr_gen ≢ 0 → g.pc 0 ≢ 0)
    × IsBlank g.pc g.instr

with_sim-returned :
    (g g' : Generator) (r : Outcome Simulator)
    → with_sim g r ≡ returned g'
    → (s : Simulator) × (r ≡ returned s) × (g' ≡ record g { sim = s })
with_sim-returned g g' (returned s) e = (s, refl, cc e)
with_sim-returned g g' (exited s) e = absurd (cc e)
with_sim-returned g g' fault e = absurd (cc e)
with_sim-returned g g' out_of_fuel e = absurd (cc e)

pub execute-step :
    (w : ℕ) (g g' : Generator)
    → execute w g ≡ returned g'
    → (t s : Simulator) × (load_instr_opcode w g.sim ≡ some t)
      × (cycle t ≡ some s)
      × (g' ≡ record g { sim = s })
      × (s.prev_pc ≡ g.sim.prev_pc)
unfolding execute load_instr_opcode Driver.run
execute-step w g g' e = elim (Option-cases (load_instr_opcode w g.sim)) [
  | inl bad ↦ absurd (let h = rw (bad, execute) at e in cc h)
  | inr (t, le) ↦
      let h = rw (le, execute) at e in
      let (s, re, ge) = with_sim-returned g g' (run 1 t) h in
      let (c, _, ce, last) = run-first (λ s. s.run_bit) cycle 0 t s re in
      let same : c ≡ s = cc last in
      let (v, f) = cycle-fetch t c ce in
      let (_, _, _, prev, _, _) = cycle-frame t c v f ce in
      let (m, _, me) = >>=-eq-some (mem_write_32 g.sim.mem g.sim.current.pc w) _ le in
      let kept : t.prev_pc ≡ g.sim.prev_pc =
        ap (λ (u : Simulator). u.prev_pc) (sym (some-injective _ _ me)) in
      (t, s, le, ce ∙ ap some same, ge, rw same at (prev ∙ kept))
]

pub update_cpu-returned :
    (i w : ℕ) (g g' : Generator)
    → update_cpu i w g ≡ returned g'
    → (i < 0x2000)
      × (g' ≡ (
          let s = g.sim in
          record g {
            pc = update g.pc i 1;
            instr = update g.instr i w;
            sim = record s { prev_pc = s.current.pc };
          }))
unfolding update_cpu
update_cpu-returned i w g g' e = ground arith

pub entered :
    (pc instr : ℕ → ℕ) (m m' : Store) (i w : ℕ)
    → i % 4 ≡ 0
    → w < 2 ^ 32
    → mem_read_32 m' i ≡ some w
    → ((b : ℕ) → b < 0x2000 → b % 4 ≡ 0 → b ≢ i → mem_read_32 m' b ≡ mem_read_32 m b)
    → IsWritten pc instr m
    → IsWritten (update pc i 1) (update instr i w) m'
entered pc instr m m' i w al small here others old a h marked = elim (Bool-cases (i == a)) [
  | inl at ↦
      let same : i ≡ a = (==_iff i a).0 at in
      rw (at, if◌then◌else◌) (rw (sym same) (al, small, here))
  | inr apart ↦
      let ne : a ≢ i = λ (q : a ≡ i). ground (arith, apart, q) in
      let unchanged : pc a ≢ 0 = rw (apart, if◌then◌else◌) at marked in
      let (al', small', there) = old a h unchanged in
      rw (apart, if◌then◌else◌) (al', small', others a h al' ne ∙ there)
]

pub entered-IsBlank :
    (pc instr : ℕ → ℕ) (i w : ℕ) → IsBlank pc instr → IsBlank (update pc i 1) (update instr i w)
entered-IsBlank pc instr i w old a h empty = elim (Bool-cases (i == a)) [
  | inl at ↦ absurd (let e = rw (at, if◌then◌else◌) at empty in omega (arith, e))
  | inr apart ↦
      rw (apart, if◌then◌else◌) (old a h (let e = rw (apart, if◌then◌else◌) at empty in e))
]

-- An instruction is run and then entered in the arrays, at the place it was written to.
pub placing :
    (i w : ℕ) (g g1 g2 : Generator)
    → w < 2 ^ 32
    → (g.sim.current.pc < 0x2000 → IsTame w g.sim.current)
    → IsPlaced g
    → execute w g ≡ returned g1
    → update_cpu i w g1 ≡ returned g2
    → (g1.sim.prev_pc ≡ g.sim.current.pc → i ≡ g.sim.current.pc)
    → IsPlaced g2
      × (g2.instr_gen ≡ g.instr_gen)
      × (g2.pc ≡ update g.pc i 1)
      × (g2.instr ≡ update g.instr i w)
placing i w g g1 g2 small tame (bytes, synced, al, recorded) e u at =
    let (t, s, le, ce, ge, prev) = execute-step w g g1 e in
    let (h, ue) = update_cpu-returned i w g1 g2 u in
    let index : i ≡ g.sim.current.pc = at (rw ge (prev ∙ synced)) in
    let low : g.sim.current.pc < 0x2000 = omega (arith, index, h) in
    let (al', _, bytes', here, others) = placed w g.sim t s low al bytes small (tame low) le ce in
    rw ue (
      rw ge (
        (
          bytes',
          refl,
          al',
          entered g.pc g.instr g.sim.mem s.mem i w (rw index al) small (rw index here)
              (λ b hb ab ne. others b hb ab (rw index at ne)) recorded,
        ),
        refl,
        refl,
        refl,
      ))
