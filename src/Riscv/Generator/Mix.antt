-- ===== src/Riscv/Generator/Mix.antt =====
-- The mix of instructions: `gen_instr_hex` and `main` of risc-v/hex_gen/src/hex_gen.c.
use simple_cpu.Base.{
  ℕ, zero, suc, ◌+◌, ◌%◌, Bool, true, false, slt, Option, none, some, [], ◌∷◌, ◌==◌, if◌then◌else◌,
}
use simple_cpu.HexGen.{add_all}
use simple_cpu.Driver.{Outcome, returned, exited, fault, out_of_fuel, ◌>>=◌}
use simple_cpu.Riscv.Loader.{init_memory}
use simple_cpu.Riscv.Generator.State.{Generator, init_hex_gen}
use simple_cpu.Riscv.Generator.Emit.{make_room}
use simple_cpu.Riscv.Generator.Choose.{
  random_r_instr, random_i_instr, random_s_instr, random_b_instr, random_u_instr, random_j_instr,
}

-- `num_r` to `num_j`, and `r_gen` to `j_gen`: bit patterns of an `int`.
pub record Counts : Type 0 where
  pub r : ℕ
  pub i : ℕ
  pub s : ℕ
  pub b : ℕ
  pub u : ℕ
  pub j : ℕ

-- The sum of the six, which may overflow.
unfoldable pub total : Counts → Option ℕ
total num = add_all num.r (num.i ∷ num.s ∷ num.b ∷ num.u ∷ num.j ∷ [])

module _ (rand : ℕ → ℕ) (num : Counts) where
  -- One round of the loop, with the counts and `i`; the fuel is for the choices in it.
  unfoldable pub round : ℕ → Counts → ℕ → Generator → (Counts × ℕ) × Outcome Generator
  round fuel c i g =
      let choice = rand g.drawn % 6 in
      let g1 = record g { drawn = g.drawn + 1 } in
      let skip : (Counts × ℕ) × Outcome Generator = ((c, i), returned g1) in
      let room = make_room rand g1 in
      if choice == 0
      then (if slt c.r num.r
          then ((record c { r = c.r + 1 }, i + 1), (room >>= random_r_instr rand))
          else skip)
      else if choice == 1
      then (if slt c.i num.i
          then ((record c { i = c.i + 1 }, i + 1), (room >>= random_i_instr rand fuel))
          else skip)
      else if choice == 2
      then (if slt c.s num.s
          then ((record c { s = c.s + 1 }, i + 1), (room >>= random_s_instr rand fuel))
          else skip)
      else if choice == 3
      then (if slt c.b num.b
          then ((record c { b = c.b + 1 }, i + 1), (room >>= random_b_instr rand fuel))
          else skip)
      else if choice == 4
      then (if slt c.u num.u
          then ((record c { u = c.u + 1 }, i + 1), (room >>= random_u_instr rand))
          else skip)
      else (if slt c.j num.j
          then ((record c { j = c.j + 1 }, i + 1), (room >>= random_j_instr rand fuel))
          else skip)

  -- `for (i = 0; i < n;)`; the fuel also bounds the rounds.
  unfoldable pub mix : ℕ → ℕ → Counts → ℕ → Generator → Outcome Generator
  mix n zero c i g = if slt i n then out_of_fuel else returned g
  mix n (suc fuel) c i g = elim (slt i n) [
    | false ↦ returned g
    | true ↦
        let ((c1, i1), r) = round fuel c i g in
        elim r [
          | returned g1 ↦ mix n fuel c1 i1 g1
          | exited g1 ↦ exited g1
          | fault ↦ fault
          | out_of_fuel ↦ out_of_fuel
        ]
  ]

  unfoldable pub gen_instr_hex : ℕ → Generator → Outcome Generator
  gen_instr_hex fuel g = elim (total num) [
    | none ↦ fault
    | some n ↦ mix n fuel (record { r = 0; i = 0; s = 0; b = 0; u = 0; j = 0 }) 0 g
  ]

  -- `main` between the reading of its arguments and the printing of the files.
  unfoldable pub generate : ℕ → Bool → Generator → Outcome Generator
  generate fuel preloaded g =
      let clean = init_hex_gen g in
      gen_instr_hex fuel (record clean { sim = init_memory preloaded clean.sim })
