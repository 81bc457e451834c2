-- ===== src/Mips/Generator/Program.antt =====
-- Whole programs of mips/hex_gen/src/hex_gen.c: the mix of instructions, and the files of it.
use simple_cpu.Base.{
  ℕ, zero, suc, ◌+◌, ◌≤◌, ◌≡◌, arith, false, sym, slt, u32, ◌^◌, ◌<◌, [], ◌∷◌, ap, ◌∙◌,
  Option-cases, positive_part, slt-positive_part, Bool-cases, inl, inr,
}
use simple_cpu.HexGen.{add_all}
use simple_cpu.HexGen.Laws.{add_all-some, shifted, from_none}
use simple_cpu.Driver.{Outcome, returned, ◌>>=◌}
use simple_cpu.Driver.Laws.{bind-returned}
use simple_cpu.Mips.Generator.State.{Generator}
use simple_cpu.Mips.Generator.Emit.{make_room}
use simple_cpu.Mips.Generator.Random.{random_r_instr, random_i_instr, gen_j_instr}
use simple_cpu.Mips.Generator.Mix.{Counts, round, mix, gen_instr_hex}
use simple_cpu.Mips.Generator.Recorded.{IsRecorded}
use simple_cpu.Mips.Generator.Invariant.{Advances, make_room-Advances}
use simple_cpu.Mips.Generator.Choices.{
  random_r_instr-Advances, random_i_instr-Advances, gen_j_instr-Advances,
}

after_room :
    (next : Generator → Outcome Generator) (g g' : Generator)
    → ((g2 : Generator) → IsRecorded g2 → next g2 ≡ returned g' → Advances 1 g2 g')
    → IsRecorded g
    → (do g2 ← make_room g; next g2) ≡ returned g'
    → Advances 1 g g'
after_room next g g' h inv e =
    let (g2, e1, e2) = bind-returned (make_room g) next g' e in
    let (inv2, same) = make_room-Advances g g2 inv e1 in
    let (inv', n) = h g2 inv2 e2 in (inv', omega (arith, same, n))

module _ (rand : ℕ → ℕ) (num_r num_i num_j : ℕ) where
  round-Advances :
      (fuel : ℕ) (c : Counts) (g g' : Generator)
      → IsRecorded g
      → (round rand num_r num_i num_j fuel c g).1 ≡ returned g'
      → ((round rand num_r num_i num_j fuel c g).0.i ≤ suc c.i)
        × IsRecorded g'
        × (g'.instr_gen + c.i ≡ g.instr_gen + (round rand num_r num_i num_j fuel c g).0.i)
  unfolding round
  round-Advances fuel c g g' inv e =
      let g1 = record g { drawn = g.drawn + 1 } in
      let r =
        after_room (random_r_instr rand) g1 g' (λ g2. random_r_instr-Advances rand g2 g') inv in
      let i =
        after_room (random_i_instr rand fuel) g1 g' (λ g2. random_i_instr-Advances rand fuel g2 g')
          inv in
      let j =
        after_room (gen_j_instr rand fuel) g1 g' (λ g2. gen_j_instr-Advances rand fuel g2 g') inv in
      ground (arith, r, i, j, inv)

  mix-end :
      (n : ℕ) (c : Counts) (g g' : Generator)
      → n < 2 ^ 32
      → c.i ≤ positive_part n
      → IsRecorded g
      → slt c.i n ≡ false
      → g ≡ g'
      → IsRecorded g' × (g'.instr_gen + c.i ≡ g.instr_gen + positive_part n)
  mix-end n c g g' word low inv over same =
      let at = (slt-positive_part c.i n word low).1 over in
      rw (sym same) (inv, ap (λ (k : ℕ). g.instr_gen + k) at)

  mix-Advances :
      (n fuel : ℕ) (c : Counts) (g g' : Generator)
      → n < 2 ^ 32
      → c.i ≤ positive_part n
      → IsRecorded g
      → mix rand num_r num_i num_j n fuel c g ≡ returned g'
      → IsRecorded g' × (g'.instr_gen + c.i ≡ g.instr_gen + positive_part n)
  unfolding mix
  mix-Advances n zero c g g' word low inv e = elim (Bool-cases (slt c.i n)) [
    | inl more ↦ absurd (let h = rw (more, mix) at e in cc h)
    | inr over ↦ mix-end n c g g' word low inv over (let h = rw (over, mix) at e in cc h)
  ]
  mix-Advances n (suc fuel) c g g' word low inv e = elim (Bool-cases (slt c.i n)) [
    | inr over ↦ mix-end n c g g' word low inv over (let h = rw (over, mix) at e in cc h)
    | inl more ↦
        let h = rw (more, mix) at e in
        let c1 = (round rand num_r num_i num_j fuel c g).0 in
        let (g1, made, rest) =
          bind-returned _ (λ g1. mix rand num_r num_i num_j n fuel c1 g1) g' h in
        let (step, inv1, k) = round-Advances fuel c g g1 inv made in
        let next : suc c.i ≤ positive_part n = (slt-positive_part c.i n word low).0 more in
        let low1 : c1.i ≤ positive_part n = omega (arith, step, next) in
        let (inv', all) = mix-Advances n fuel c1 g1 g' word low1 inv1 rest in
        (inv', shifted g'.instr_gen g.instr_gen g1.instr_gen c.i c1.i (positive_part n) k all)
  ]

  -- How many instructions are asked for: the sum of the three as an `int`, if it is positive.
  abbrev pub asked : ℕ
  asked = positive_part (u32 (num_r + (num_i + num_j)))

  -- `gen_instr_hex`, where it returns: it has made the number of instructions that was asked for, and
  -- the arrays are still in step with the memory.
  pub gen_instr_hex-Advances :
      (fuel : ℕ) (g g' : Generator)
      → IsRecorded g
      → gen_instr_hex rand num_r num_i num_j fuel g ≡ returned g'
      → Advances asked g g'
  unfolding gen_instr_hex
  gen_instr_hex-Advances fuel g g' inv e =
      elim (Option-cases (add_all num_r (num_i ∷ num_j ∷ []))) [
        | inl over ↦ absurd (let h = rw (over, gen_instr_hex) at e in cc h)
        | inr (n, sum) ↦
            let h = rw (sum, gen_instr_hex) at e in
            let is : n ≡ u32 (num_r + (num_i + num_j)) =
              add_all-some num_r num_i _ n sum ∙ ap u32 (omega arith) in
            let (inv', k) = mix-Advances n fuel _ g g' (omega (arith, is)) (omega arith) inv h in
            (inv', from_none g'.instr_gen _ k ∙ ap (λ (m : ℕ). g.instr_gen + positive_part m) is)
      ]
