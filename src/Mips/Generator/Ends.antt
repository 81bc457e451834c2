-- ===== src/Mips/Generator/Ends.antt =====
-- How the choices of mips/hex_gen/src/hex_gen.c end: `goto TARGET` of `gen_j_instr`.
use simple_cpu.Base.{
  ℕ, zero, suc, ◌+◌, ◌%◌, ◌<◌, ◌≡◌, ◌≢◌, refl, arith, Bool, true, not, ◌&&◌, ◌==◌, if◌then◌else◌,
  u32, ap, bit_and, bit_or, ◌<<<◌, Option-cases, inl, inr,
}
use simple_cpu.Driver.{Outcome, returned, exited, fault, out_of_fuel, ◌>>=◌}
use simple_cpu.Driver.Laws.{run-Ends}
use simple_cpu.Mips.Machine.{Simulator}
use simple_cpu.Mips.Run.{run, cycle}
use simple_cpu.Mips.Encode.{encode_j}
use simple_cpu.Mips.Loader.{load_instr_opcode}
use simple_cpu.Mips.Generator.State.{Generator, update_cpu}
use simple_cpu.Mips.Generator.Emit.{with_sim, execute, count, emit}
use simple_cpu.Mips.Generator.Check.{check_j_addr}
use simple_cpu.Mips.Generator.Random.{choose_j}

bind-Ends :
    (m : Outcome Generator) (k : Generator → Outcome Generator)
    → m ≢ out_of_fuel
    → ((g : Generator) → k g ≢ out_of_fuel)
    → (m >>= k) ≢ out_of_fuel
bind-Ends (returned g) k h rest = rest g
bind-Ends (exited g) k h rest = λ e. cc e
bind-Ends fault k h rest = λ e. cc e
bind-Ends out_of_fuel k h rest = h

with_sim-Ends :
    (g : Generator) (r : Outcome Simulator) → r ≢ out_of_fuel → with_sim g r ≢ out_of_fuel
with_sim-Ends g (returned s) h = λ e. cc e
with_sim-Ends g (exited s) h = λ e. cc e
with_sim-Ends g fault h = λ e. cc e
with_sim-Ends g out_of_fuel h = λ _. h refl

execute-Ends : (w : ℕ) (g : Generator) → execute w g ≢ out_of_fuel
unfolding execute
execute-Ends w g e = elim (Option-cases (load_instr_opcode w g.sim)) [
  | inl bad ↦ let h = rw (bad, execute) at e in cc h
  | inr (s, le) ↦
      with_sim-Ends g (run 1 s) (run-Ends (λ t. t.run_bit) cycle 1 s) (rw (le, execute) at e)
]

emit-Ends : (w : ℕ) (g : Generator) → emit w g ≢ out_of_fuel
unfolding emit update_cpu count
emit-Ends w g = bind-Ends _ _ (execute-Ends w g) (λ g1.
    bind-Ends (update_cpu (if g1.instr_gen == 0 then 0 else g1.sim.prev_pc) w g1) count
      (λ e. ground (arith, e)) (λ g2 e. ground (arith, e)))

-- The test that a target passes.
abbrev pub is_target : ℕ → Generator → Bool
is_target target g =
    let addr = bit_or (bit_and (u32 (g.sim.current.pc + 4)) 0xf0000000) (target <<< 2) in
    not (check_j_addr addr g == 0) && g.pc addr == 0

-- If one of the targets that `rand` is going to give, the m-th after the next, passes the tests
-- of `gen_j_instr`, then more than m rounds of its choice of a target are enough: fuel does not
-- run out.
pub choose_j-Ends :
    (rand : ℕ → ℕ) (m fuel opcode : ℕ) (g : Generator)
    → is_target (rand (g.drawn + m) % 0x3ffffff) g ≡ true
    → m < fuel
    → choose_j rand fuel opcode g ≢ out_of_fuel
unfolding choose_j check_j_addr
choose_j-Ends rand m zero opcode g h low e = absurd (omega arith)
choose_j-Ends rand zero (suc fuel) opcode g h low e =
    let g1 = record g { drawn = g.drawn + 1 } in
    let at : rand (g.drawn + 0) ≡ rand g.drawn = ap rand (omega arith) in
    let made = emit-Ends (encode_j opcode (rand g.drawn % 0x3ffffff)) g1 in
    ground (arith, at, made, h, e)
choose_j-Ends rand (suc m) (suc fuel) opcode g h low e =
    let g1 = record g { drawn = g.drawn + 1 } in
    let made = emit-Ends (encode_j opcode (rand g.drawn % 0x3ffffff)) g1 in
    let at : rand (g.drawn + suc m) ≡ rand (g.drawn + 1 + m) = ap rand (omega arith) in
    let rest = choose_j-Ends rand m fuel opcode g1 (rw at at h) (omega (arith, low)) in
    ground (arith, made, rest, e)
