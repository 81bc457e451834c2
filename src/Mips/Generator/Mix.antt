-- ===== src/Mips/Generator/Mix.antt =====
-- The mix of instructions and the end of a program: `gen_instr_hex`, `gen_end_seq` and `main` of
-- mips/hex_gen/src/hex_gen.c.
use simple_cpu.Base.{
  ℕ, zero, suc, ◌+◌, ◌%◌, true, false, slt, none, some, [], ◌∷◌, ◌==◌, if◌then◌else◌,
}
use simple_cpu.HexGen.{add_all}
use simple_cpu.Driver.{Outcome, returned, fault, out_of_fuel, ◌>>=◌}
use simple_cpu.Mips.Loader.{init_memory}
use simple_cpu.Mips.Generator.State.{Generator, init_hex_gen, update_cpu}
use simple_cpu.Mips.Generator.Emit.{execute, make_room, count}
use simple_cpu.Mips.Generator.Random.{random_r_instr, random_i_instr, gen_j_instr}

unfoldable pub gen_end_seq : Generator → Outcome Generator
gen_end_seq g = do
  g1 ← make_room g
  g2 ← update_cpu g1.sim.current.pc 0x2002000a g1
  g3 ← execute 0x2002000a g2
  counted ← count g3
  g4 ← make_room counted
  g5 ← update_cpu g4.sim.current.pc 0x0000000c g4
  execute 0x0000000c g5

-- `r_gen`, `i_gen`, `j_gen` and `i`. The numbers asked for are bit patterns of an `int`.
pub record Counts : Type 0 where
  pub r_gen : ℕ
  pub i_gen : ℕ
  pub j_gen : ℕ
  pub i : ℕ

module _ (rand : ℕ → ℕ) (num_r num_i num_j : ℕ) where
  -- One round of the loop; the fuel is for the choices in it.
  unfoldable pub round : ℕ → Counts → Generator → Counts × Outcome Generator
  round fuel c g =
      let choice = rand g.drawn % 3 in
      let g1 = record g { drawn = g.drawn + 1 } in
      if choice == 0
      then (if slt c.r_gen num_r
          then (
            record c { r_gen = c.r_gen + 1; i = c.i + 1 },
            (do g2 ← make_room g1; random_r_instr rand g2),
          )
          else (c, returned g1))
      else if choice == 1
      then (if slt c.i_gen num_i
          then (
            record c { i_gen = c.i_gen + 1; i = c.i + 1 },
            (do g2 ← make_room g1; random_i_instr rand fuel g2),
          )
          else (c, returned g1))
      else (if slt c.j_gen num_j
          then (
            record c { j_gen = c.j_gen + 1; i = c.i + 1 },
            (do g2 ← make_room g1; gen_j_instr rand fuel g2),
          )
          else (c, returned g1))

  -- `for (i = 0; i < n;)`; the fuel also bounds the rounds.
  unfoldable pub mix : ℕ → ℕ → Counts → Generator → Outcome Generator
  mix n zero c g = if slt c.i n then out_of_fuel else returned g
  mix n (suc fuel) c g = elim (slt c.i n) [
    | false ↦ returned g
    | true ↦ let (c1, r) = round fuel c g in do g1 ← r; mix n fuel c1 g1
  ]

  unfoldable pub gen_instr_hex : ℕ → Generator → Outcome Generator
  gen_instr_hex fuel g = elim (add_all num_r (num_i ∷ num_j ∷ [])) [
    | none ↦ fault
    | some n ↦ mix n fuel (record { r_gen = 0; i_gen = 0; j_gen = 0; i = 0 }) g
  ]

  -- `main` between the reading of its arguments and the printing of the files. `gen_user_test` is empty.
  unfoldable pub generate : ℕ → Generator → Outcome Generator
  generate fuel g = do
    let clean = init_hex_gen g
    g1 ← gen_instr_hex fuel (record clean { sim = init_memory clean.sim })
    gen_end_seq g1
