-- ===== src/Riscv/Generator/Program.antt =====
-- The mix of instructions of risc-v/hex_gen/src/hex_gen.c, up to the end of `gen_instr_hex`.
use simple_cpu.Base.{
  ℕ, zero, suc, ◌+◌, ◌≤◌, ◌≡◌, refl, arith, true, false, slt, u32, ◌%◌, ◌^◌, ◌<◌, ◌==◌, Bool, ap,
  ◌∙◌, Option-cases, positive_part, slt-positive_part, if◌then◌else◌, sym, Bool-cases, inl, inr,
}
use simple_cpu.HexGen.Laws.{add_all-some, shifted, from_none, zero_plus}
use simple_cpu.Driver.{Outcome, returned, exited, fault, out_of_fuel, ◌>>=◌}
use simple_cpu.Driver.Laws.{bind-returned}
use simple_cpu.Memory.Laws.{IsBytes}
use simple_cpu.Riscv.State.{IsState, IsReady}
use simple_cpu.Riscv.Generator.State.{Generator, init_hex_gen}
use simple_cpu.Riscv.Generator.Emit.{make_room}
use simple_cpu.Riscv.Generator.Choose.{
  random_r_instr, random_i_instr, random_s_instr, random_b_instr, random_u_instr, random_j_instr,
}
use simple_cpu.Riscv.Generator.Mix.{Counts, total, round, mix, gen_instr_hex, generate}
use simple_cpu.Riscv.Loader.Laws.{init_memory-IsReady}
use simple_cpu.Riscv.Generator.Advance.{Advances, make_room-Advances}
use simple_cpu.Riscv.Generator.Choices.{
  random_r_instr-Advances, random_i_instr-Advances, random_s_instr-Advances,
  random_b_instr-Advances, random_u_instr-Advances, random_j_instr-Advances,
}

-- How many instructions are asked for: the sum of the six as an `int`.
abbrev pub asked : Counts → ℕ
asked n = u32 (n.r + (n.i + (n.s + (n.b + (n.u + n.j)))))

-- The rest of the loop after a round that returned.
mixed :
    (m : Outcome Generator) (k : Generator → Outcome Generator) (g' : Generator)
    → elim m [
      | returned g1 ↦ k g1
      | exited g1 ↦ exited g1
      | fault ↦ fault
      | out_of_fuel ↦ out_of_fuel
    ]
      ≡ returned g'
    → (g1 : Generator) × (m ≡ returned g1) × (k g1 ≡ returned g')
mixed (returned g1) k g' e = (g1, refl, e)
mixed (exited g1) k g' e = absurd (cc e)
mixed fault k g' e = absurd (cc e)
mixed out_of_fuel k g' e = absurd (cc e)

module _ (rand : ℕ → ℕ) (num : Counts) where
  after_room :
      (next : Generator → Outcome Generator) (g g' : Generator)
      → ((g2 : Generator) → IsReady g2.sim → next g2 ≡ returned g' → Advances 1 g2 g')
      → IsReady g.sim
      → (make_room rand g >>= next) ≡ returned g'
      → Advances 1 g g'
  after_room next g g' h r e =
      let (g2, e1, e2) = bind-returned (make_room rand g) next g' e in
      let (r2, same) = make_room-Advances rand g g2 r e1 in
      let (r', n) = h g2 r2 e2 in (r', omega (arith, same, n))

  -- What is wanted of a round: one instruction more is made where one is counted.
  abbrev IsRound : ℕ → Generator → Generator → (Counts × ℕ) × Outcome Generator → Type 0
  IsRound i g g' ((c1, i1), m) =
      m ≡ returned g' → (i1 ≤ suc i) × IsReady g'.sim × (g'.instr_gen + i ≡ g.instr_gen + i1)

  if-IsRound :
      (i : ℕ) (g g' : Generator) (b : Bool) (x y : (Counts × ℕ) × Outcome Generator)
      → (b ≡ true → IsRound i g g' x)
      → IsRound i g g' y
      → IsRound i g g' (if b then x else y)
  if-IsRound i g g' true x y h k = h refl
  if-IsRound i g g' false x y h k = k

  made-IsRound :
      (i : ℕ) (g g' : Generator) (c1 : Counts) (next : Generator → Outcome Generator)
      → IsReady g.sim
      → ((g2 : Generator) → IsReady g2.sim → next g2 ≡ returned g' → Advances 1 g2 g')
      → IsRound i g g' ((c1, i + 1), (make_room rand (record g { drawn = g.drawn + 1 }) >>= next))
  made-IsRound i g g' c1 next ready h e =
      let (ready', n) = after_room next (record g { drawn = g.drawn + 1 }) g' h ready e in
      (omega arith, ready', omega (arith, n))

  -- A kind of instruction is made, if it has not been made often enough.
  kind-IsRound :
      (i : ℕ) (g g' : Generator) (c c1 : Counts) (b : Bool) (next : Generator → Outcome Generator)
      → IsReady g.sim
      → ((g2 : Generator) → IsReady g2.sim → next g2 ≡ returned g' → Advances 1 g2 g')
      → IsRound i g g' (
          let g1 = record g { drawn = g.drawn + 1 } in
          if b then ((c1, i + 1), (make_room rand g1 >>= next)) else ((c, i), returned g1))
  kind-IsRound i g g' c c1 true next ready h = made-IsRound i g g' c1 next ready h
  kind-IsRound i g g' c c1 false next ready h = λ e.
      let same : record g { drawn = g.drawn + 1 } ≡ g' = cc e in
      rw (sym same) (omega arith, ready, refl)

  round-IsRound :
      (fuel : ℕ) (c : Counts) (i : ℕ) (g g' : Generator)
      → IsReady g.sim
      → IsRound i g g' (round rand num fuel c i g)
  unfolding round
  round-IsRound fuel c i g g' ready =
      if-IsRound i g g' (rand g.drawn % 6 == 0) _ _
        (λ _.
          kind-IsRound i g g' c _ (slt c.r num.r) (random_r_instr rand) ready
            (λ g2. random_r_instr-Advances rand g2 g'))
        (if-IsRound i g g' (rand g.drawn % 6 == 1) _ _
          (λ _.
            kind-IsRound i g g' c _ (slt c.i num.i) (random_i_instr rand fuel) ready
              (λ g2. random_i_instr-Advances rand fuel g2 g'))
          (if-IsRound i g g' (rand g.drawn % 6 == 2) _ _
            (λ _.
              kind-IsRound i g g' c _ (slt c.s num.s) (random_s_instr rand fuel) ready
                (λ g2. random_s_instr-Advances rand fuel g2 g'))
            (if-IsRound i g g' (rand g.drawn % 6 == 3) _ _
              (λ _.
                kind-IsRound i g g' c _ (slt c.b num.b) (random_b_instr rand fuel) ready
                  (λ g2. random_b_instr-Advances rand fuel g2 g'))
              (if-IsRound i g g' (rand g.drawn % 6 == 4) _ _
                (λ _.
                  kind-IsRound i g g' c _ (slt c.u num.u) (random_u_instr rand) ready
                    (λ g2. random_u_instr-Advances rand g2 g'))
                (kind-IsRound i g g' c _ (slt c.j num.j) (random_j_instr rand fuel) ready
                  (λ g2. random_j_instr-Advances rand fuel g2 g'))))))

  mix-end :
      (i n : ℕ) (g g' : Generator)
      → n < 2 ^ 32
      → i ≤ positive_part n
      → IsReady g.sim
      → slt i n ≡ false
      → g ≡ g'
      → IsReady g'.sim × (g'.instr_gen + i ≡ g.instr_gen + positive_part n)
  mix-end i n g g' word low ready over same =
      let at = (slt-positive_part i n word low).1 over in
      rw (sym same) (ready, ap (λ (k : ℕ). g.instr_gen + k) at)

  mix-Advances :
      (n fuel : ℕ) (c : Counts) (i : ℕ) (g g' : Generator)
      → n < 2 ^ 32
      → i ≤ positive_part n
      → IsReady g.sim
      → mix rand num n fuel c i g ≡ returned g'
      → IsReady g'.sim × (g'.instr_gen + i ≡ g.instr_gen + positive_part n)
  unfolding mix
  mix-Advances n zero c i g g' word low ready e = elim (Bool-cases (slt i n)) [
    | inl more ↦ absurd (let h = rw (more, mix) at e in cc h)
    | inr over ↦ mix-end i n g g' word low ready over (let h = rw (over, mix) at e in cc h)
  ]
  mix-Advances n (suc fuel) c i g g' word low ready e = elim (Bool-cases (slt i n)) [
    | inr over ↦ mix-end i n g g' word low ready over (let h = rw (over, mix) at e in cc h)
    | inl more ↦
        let h = rw (more, mix) at e in
        let ((c1, i1), m) = round rand num fuel c i g in
        let (g1, made, rest) = mixed m (λ g1. mix rand num n fuel c1 i1 g1) g' h in
        let (step, ready1, k) = round-IsRound fuel c i g g1 ready made in
        let next : suc i ≤ positive_part n = (slt-positive_part i n word low).0 more in
        let low1 : i1 ≤ positive_part n = omega (arith, step, next) in
        let (ready', all) = mix-Advances n fuel c1 i1 g1 g' word low1 ready1 rest in
        (ready', shifted g'.instr_gen g.instr_gen g1.instr_gen i i1 (positive_part n) k all)
  ]

  gen_instr_hex-IsReady :
      (fuel : ℕ) (g g' : Generator)
      → IsReady g.sim
      → gen_instr_hex rand num fuel g ≡ returned g'
      → IsReady g'.sim × (g'.instr_gen ≡ g.instr_gen + positive_part (asked num))
  unfolding gen_instr_hex total
  gen_instr_hex-IsReady fuel g g' ready e = elim (Option-cases (total num)) [
    | inl over ↦ absurd (let h = rw (over, gen_instr_hex) at e in cc h)
    | inr (n, sum) ↦
        let h = rw (sum, gen_instr_hex) at e in
        let is : n ≡ asked num = add_all-some num.r num.i _ n sum ∙ ap u32 (omega arith) in
        let (ready', k) = mix-Advances n fuel _ 0 g g' (omega (arith, is)) (omega arith) ready h in
        (ready', from_none g'.instr_gen _ k ∙ ap (λ (m : ℕ). g.instr_gen + positive_part m) is)
  ]

  -- The whole of `main` of the RISC-V generator after its arguments, from globals that hold words
  -- and bytes and a register 0 of 0, whatever numbers `rand` gives: where it returns, it has counted
  -- as many instructions as the six numbers add up to as an `int`, or none where that is negative,
  -- and the simulator that it runs them on is ready (`IsReady`).
  pub generate-IsReady :
      (fuel : ℕ) (preloaded : Bool) (g g' : Generator)
      → IsState g.sim.current
      → IsBytes g.sim.mem
      → generate rand num fuel preloaded g ≡ returned g'
      → IsReady g'.sim × (g'.instr_gen ≡ positive_part (asked num))
  unfolding generate init_hex_gen
  generate-IsReady fuel preloaded g g' state bytes e =
      let (ready, n) =
        gen_instr_hex-IsReady fuel _ g' (init_memory-IsReady preloaded g.sim state bytes) e in
      (ready, n ∙ zero_plus _)
