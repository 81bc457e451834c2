-- ===== src/Riscv/Generator/Advance.antt =====
-- Every instruction that risc-v/hex_gen/src/hex_gen.c makes is counted once, and leaves the simulator
-- ready for the next.
use simple_cpu.Base.{
  ℕ, ◌+◌, ◌-◌, update, sub32, ◌≡◌, ◌⊎◌, refl, arith, some, sym, Bool-cases, Option-cases, inl, inr,
}
use mathlib.Core.Path.{subst}
use simple_cpu.HexGen.{Room, room, full, past_end, find_room, room_rounds}
use simple_cpu.Driver.{Outcome, returned, exited, fault, out_of_fuel, ◌>>=◌}
use simple_cpu.Driver.Laws.{bind-returned}
use simple_cpu.Memory.Laws.{mem_write_32-IsBytes}
use simple_cpu.Riscv.Machine.{Simulator, mem_regions, mem_write_32, mem_text_start}
use simple_cpu.Riscv.State.{IsReady}
use simple_cpu.Riscv.Loader.{load_instr_opcode}
use simple_cpu.Riscv.Run.{run}
use simple_cpu.Riscv.Run.Loop.{run-IsReady}
use simple_cpu.Riscv.Generator.State.{Generator, update_cpu}
use simple_cpu.Riscv.Generator.Emit.{
  with_sim, execute, count, emit, gen_j, has_room, readable, make_room,
}

-- From one state of the generator to the next, with so many instructions more.
abbrev pub Advances : ℕ → Generator → Generator → Type 0
Advances n g g' = IsReady g'.sim × (g'.instr_gen ≡ g.instr_gen + n)

loaded-IsReady :
    (w : ℕ) (s s' : Simulator) → IsReady s → load_instr_opcode w s ≡ some s' → IsReady s'
unfolding load_instr_opcode
loaded-IsReady w s s' r e = elim (Option-cases (mem_write_32 s.mem s.current.pc w)) [
  | inl bad ↦ absurd (let h = rw bad at e in cc h)
  | inr (m, good) ↦
      let h = rw good at e in
      let same : record s { mem = m } ≡ s' = cc h in
      subst IsReady same (record {
        synced = r.synced;
        state = r.state;
        bytes = mem_write_32-IsBytes mem_regions s.mem m s.current.pc w r.bytes good;
      })
]

with_sim-returned :
    (g g' : Generator) (o : Outcome Simulator)
    → with_sim g o ≡ returned g'
    → (s : Simulator) × (o ≡ returned s) × (g' ≡ record g { sim = s })
with_sim-returned g g' (returned s) e = (s, refl, ground (arith, e))
with_sim-returned g g' (exited s) e = absurd (cc e)
with_sim-returned g g' fault e = absurd (cc e)
with_sim-returned g g' out_of_fuel e = absurd (cc e)

execute-Advances :
    (w : ℕ) (g g' : Generator) → IsReady g.sim → execute w g ≡ returned g' → Advances 0 g g'
unfolding execute
execute-Advances w g g' r e = elim (Option-cases (load_instr_opcode w g.sim)) [
  | inl bad ↦ absurd (let h = rw (bad, execute) at e in cc h)
  | inr (t, good) ↦
      let h = rw (good, execute) at e in
      let (s, ran, same) = with_sim-returned g g' (run 1 t) h in
      let ready = (run-IsReady 1 t s (loaded-IsReady w g.sim t r good) ran).0 in
      rw same (ready, omega arith)
]

update_cpu-returned :
    (at w : ℕ) (g g' : Generator)
    → update_cpu at w g ≡ returned g'
    → g' ≡ (
        let s = g.sim in
        record g {
          pc = update g.pc (at - mem_text_start) 1;
          instr = update g.instr (at - mem_text_start) w;
          sim = record s { prev_pc = s.current.pc };
        })
unfolding update_cpu
update_cpu-returned at w g g' e = ground arith

update_cpu-Advances :
    (at w : ℕ) (g g' : Generator)
    → IsReady g.sim
    → update_cpu at w g ≡ returned g'
    → Advances 0 g g'
update_cpu-Advances at w g g' r e =
    rw (update_cpu-returned at w g g' e)
      (record { synced = r.synced; state = r.state; bytes = r.bytes }, omega arith)

count-returned :
    (g g' : Generator) → count g ≡ returned g' → g' ≡ record g { instr_gen = g.instr_gen + 1 }
unfolding count
count-returned g g' e = ground arith

count-Advances : (g g' : Generator) → IsReady g.sim → count g ≡ returned g' → Advances 1 g g'
count-Advances g g' r e = rw (count-returned g g' e) (r, omega arith)

pub emit-Advances :
    (w : ℕ) (g g' : Generator) → IsReady g.sim → emit w g ≡ returned g' → Advances 1 g g'
unfolding emit
emit-Advances w g g' r e =
    let (g1, e1, r1) = bind-returned (execute w g) _ g' e in
    let (g2, e2, r2) = bind-returned (update_cpu _ w g1) _ g' r1 in
    let (k1, n1) = execute-Advances w g g1 r e1 in
    let (k2, n2) = update_cpu-Advances _ w g1 g2 k1 e2 in
    let (k3, n3) = count-Advances g2 g' k2 r2 in (k3, omega (arith, n1, n2, n3))

Room-cases : (r : Room) → ((i : ℕ) × (r ≡ room i)) ⊎ ((r ≡ full) ⊎ (r ≡ past_end))
Room-cases (room i) = inl (i, refl)
Room-cases full = inr (inl refl)
Room-cases past_end = inr (inr refl)

module _ (rand : ℕ → ℕ) where
  jump-Advances :
      (w : ℕ) (g g' : Generator)
      → IsReady g.sim
      → (do g1 ← execute w g; update_cpu g1.sim.prev_pc w g1) ≡ returned g'
      → Advances 0 g g'
  jump-Advances w g g' r e =
      let (g1, e1, e2) = bind-returned (execute w g) _ g' e in
      let (k1, n1) = execute-Advances w g g1 r e1 in
      let (k2, n2) = update_cpu-Advances g1.sim.prev_pc w g1 g' k1 e2 in (k2, omega (arith, n1, n2))

  pub make_room-Advances :
      (g g' : Generator) → IsReady g.sim → make_room rand g ≡ returned g' → Advances 0 g g'
  unfolding make_room
  make_room-Advances g g' r e =
      let i = sub32 g.sim.current.pc mem_text_start in
      elim (Bool-cases (readable i g.pc)) [
        | inr out ↦ absurd (let h = rw (out, make_room) at e in cc h)
        | inl inside ↦
            let h = rw (inside, make_room) at e in
            elim (Bool-cases (has_room i g.pc)) [
              | inl roomy ↦
                  let same : g ≡ g' = let k = rw (roomy, make_room) at h in cc k in
                  rw (sym same) (r, omega arith)
              | inr tight ↦
                  let k = rw (tight, make_room) at h in
                  elim (Room-cases (find_room room_rounds 4 g.pc)) [
                    | inl (n, found) ↦
                        (jump-Advances (gen_j (rand g.drawn) (n + mem_text_start) g)
                          (record g { drawn = g.drawn + 1 }) g' r (rw (found, make_room) at k))
                    | inr (inl found) ↦ absurd (let c = rw (found, make_room) at k in cc c)
                    | inr (inr found) ↦ absurd (let c = rw (found, make_room) at k in cc c)
                  ]
            ]
      ]
