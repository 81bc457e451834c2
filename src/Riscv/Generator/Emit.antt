-- ===== src/Riscv/Generator/Emit.antt =====
-- What every generated instruction goes through, `make_room`, and `gen_j` of
-- risc-v/hex_gen/src/hex_gen.c.
use simple_cpu.Base.{
  ℕ, ◌+◌, ◌^◌, ◌%◌, Bool, not, ◌&&◌, ◌||◌, none, some, u32, sub32, ◌<<<◌, ◌>>>◌, ltb, ◌==◌,
  if◌then◌else◌, bit_and,
}
use simple_cpu.Driver.{Outcome, returned, exited, fault, out_of_fuel, ◌>>=◌}
use simple_cpu.HexGen.{imem_size, room, full, past_end, find_room, room_rounds}
use simple_cpu.Riscv.Machine.{Simulator, mem_text_start}
use simple_cpu.Riscv.Run.{run}
use simple_cpu.Riscv.Loader.{load_instr_opcode}
use simple_cpu.Riscv.Generator.State.{Generator, update_cpu}

-- The tool ends when the simulator does.
abbrev pub with_sim : Generator → Outcome Simulator → Outcome Generator
with_sim g (returned s) = returned (record g { sim = s })
with_sim g (exited s) = exited (record g { sim = s })
with_sim g fault = fault
with_sim g out_of_fuel = out_of_fuel

-- `load_instr_opcode` and `run (1)`.
unfoldable pub execute : ℕ → Generator → Outcome Generator
execute hex_instr g = elim (load_instr_opcode hex_instr g.sim) [
  | none ↦ fault
  | some s ↦ with_sim g (run 1 s)
]

-- `instr_gen++`. An `int` that overflows is undefined.
unfoldable pub count : Generator → Outcome Generator
count g =
    if ltb (g.instr_gen + 1) (2 ^ 31)
    then returned (record g { instr_gen = g.instr_gen + 1 })
    else fault

-- The end of the `gen_` functions of the six types.
unfoldable pub emit : ℕ → Generator → Outcome Generator
emit hex_instr g = do
  g1 ← execute hex_instr g
  g2 ← update_cpu (if g1.instr_gen == 0 then mem_text_start else g1.sim.prev_pc) hex_instr g1
  count g2

-- The jump to an address; the link register is random.
unfoldable pub gen_j : ℕ → ℕ → Generator → ℕ
gen_j random address g =
    let target = sub32 address g.sim.current.pc >>> 1 in
    u32 (
      (bit_and (target >>> 19) 0x1 <<< 31)
      + (bit_and target 0x3ff <<< 21)
      + (bit_and (target >>> 10) 0x1 <<< 20)
      + (bit_and (target >>> 11) 0xff <<< 12)
      + (random % 32 <<< 7)
      + 0x6f)

-- The condition under which there is room, for an index within the array.
unfoldable pub has_room : ℕ → (ℕ → ℕ) → Bool
has_room i pc = (pc i == 0 && pc (u32 (i + 4)) == 0) && not (i == 0x3f00)

-- The first entry is read, and the second only where the first is 0.
unfoldable pub readable : ℕ → (ℕ → ℕ) → Bool
readable i pc = ltb i imem_size && (not (pc i == 0) || ltb (u32 (i + 4)) imem_size)

module _ (rand : ℕ → ℕ) where
  unfoldable pub make_room : Generator → Outcome Generator
  make_room g =
      let i = sub32 g.sim.current.pc mem_text_start in
      if readable i g.pc
      then (if has_room i g.pc then returned g else (elim (find_room room_rounds 4 g.pc) [
        | room k ↦ do
          let opcode = gen_j (rand g.drawn) (k + mem_text_start) g
          g1 ← execute opcode (record g { drawn = g.drawn + 1 })
          update_cpu g1.sim.prev_pc opcode g1
        | full ↦ exited g
        | past_end ↦ fault
      ]))
      else fault

  unfoldable pub gen_end_seq : Generator → Outcome Generator
  gen_end_seq g = do
    g1 ← make_room g
    g2 ← update_cpu g1.sim.current.pc 0x2002000a g1
    g3 ← execute 0x2002000a g2
    counted ← count g3
    g4 ← make_room counted
    g5 ← update_cpu g4.sim.current.pc 0x0000000c g4
    execute 0x0000000c g5
