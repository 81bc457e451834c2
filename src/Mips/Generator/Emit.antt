-- ===== src/Mips/Generator/Emit.antt =====
-- What every generated instruction goes through, `make_room`, and `gen_j` of
-- mips/hex_gen/src/hex_gen.c.
use simple_cpu.Base.{
  ℕ, ◌+◌, ◌^◌, Bool, not, ◌&&◌, ◌||◌, none, some, u32, ◌<<<◌, ◌>>>◌, ltb, ◌==◌, if◌then◌else◌,
  bit_and,
}
use simple_cpu.Driver.{Outcome, returned, exited, fault, out_of_fuel, ◌>>=◌}
use simple_cpu.Mips.Machine.{Simulator}
use simple_cpu.Mips.Opcode
use simple_cpu.Mips.Run.{run}
use simple_cpu.Mips.Loader.{load_instr_opcode}
use simple_cpu.Mips.Generator.State.{Generator, update_cpu}
use simple_cpu.HexGen.{imem_size, room, full, past_end, find_room, room_rounds}

-- The tool ends when the simulator does.
abbrev pub with_sim : Generator → Outcome Simulator → Outcome Generator
with_sim g (returned s) = returned (record g { sim = s })
with_sim g (exited s) = exited (record g { sim = s })
with_sim g fault = fault
with_sim g out_of_fuel = out_of_fuel

-- `load_instr_opcode` and `run (1)`.
unfoldable pub execute : ℕ → Generator → Outcome Generator
execute hex_instr g = elim (load_instr_opcode hex_instr g.sim) [
  | none ↦ fault
  | some s ↦ with_sim g (run 1 s)
]

-- `instr_gen++`. An `int` that overflows is undefined.
unfoldable pub count : Generator → Outcome Generator
count g =
    if ltb (g.instr_gen + 1) (2 ^ 31)
    then returned (record g { instr_gen = g.instr_gen + 1 })
    else fault

-- The end of `gen_r_instr`, `gen_i_instr` and `gen_j_instr`.
unfoldable pub emit : ℕ → Generator → Outcome Generator
emit hex_instr g = do
  g1 ← execute hex_instr g
  g2 ← update_cpu (if g1.instr_gen == 0 then 0 else g1.sim.prev_pc) hex_instr g1
  count g2

unfoldable pub gen_j : ℕ → ℕ
gen_j address = let target = bit_and address 0xffffffc >>> 2 in u32 ((Opcode.j <<< 26) + target)

-- The condition under which there is room, for a program counter within the array.
unfoldable pub has_room : ℕ → (ℕ → ℕ) → Bool
has_room cur pc = (pc cur == 0 && pc (u32 (cur + 4)) == 0) && not (cur == 0xffc)

-- `PC[CURRENT_STATE.PC]` is read first, and `PC[CURRENT_STATE.PC + 4]` only where that is 0.
unfoldable pub readable : ℕ → (ℕ → ℕ) → Bool
readable cur pc = ltb cur imem_size && (not (pc cur == 0) || ltb (u32 (cur + 4)) imem_size)

unfoldable pub make_room : Generator → Outcome Generator
make_room g =
    let cur = g.sim.current.pc in
    if readable cur g.pc
    then (if has_room cur g.pc then returned g else (elim (find_room room_rounds 4 g.pc) [
      | room i ↦ do g1 ← execute (gen_j i) g; update_cpu g1.sim.prev_pc (gen_j i) g1
      | full ↦ exited g
      | past_end ↦ fault
    ]))
    else fault
