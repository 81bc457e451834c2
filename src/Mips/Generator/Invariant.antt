-- ===== src/Mips/Generator/Invariant.antt =====
-- Every instruction that mips/hex_gen/src/hex_gen.c makes, and every jump to a free place, keeps the
-- arrays in step with the memory.
use simple_cpu.Base.{
  ℕ, ◌+◌, ◌/◌, ◌^◌, ◌<◌, ◌≡◌, ◌≢◌, ◌⊎◌, refl, arith, true, false, ◌==◌, if◌then◌else◌, sym, ap,
  Bool-cases, inl, inr, update, bit_and, bit_and_shifted, bit_and_mask,
}
use simple_cpu.HexGen.{Room, room, full, past_end, find_room, room_rounds}
use simple_cpu.Driver.{returned, ◌>>=◌}
use simple_cpu.Driver.Laws.{bind-returned}
use simple_cpu.Mips.Opcode
use simple_cpu.Mips.Encode.{encode_j}
use simple_cpu.Mips.Generator.State.{Generator, update_cpu}
use simple_cpu.Mips.Generator.Emit.{execute, count, emit, gen_j, has_room, readable, make_room}
use simple_cpu.Mips.Generator.Tame.{IsTame, encode_j-IsTame}
use simple_cpu.Mips.Generator.Recorded.{IsRecorded, placing, execute-step, entered-IsBlank}

-- From one state of the generator to the next, with so many instructions more.
abbrev pub Advances : ℕ → Generator → Generator → Type 0
Advances n g g' = IsRecorded g' × (g'.instr_gen ≡ g.instr_gen + n)

count-returned :
    (g g' : Generator) → count g ≡ returned g' → g' ≡ record g { instr_gen = g.instr_gen + 1 }
unfolding count
count-returned g g' e = ground arith

still_marked : (pc : ℕ → ℕ) (i : ℕ) → pc 0 ≢ 0 → update pc i 1 0 ≢ 0
still_marked pc i h e = ground (arith, h, e)

first_marked :
    (n m prev : ℕ) (pc : ℕ → ℕ)
    → m ≡ n
    → (n ≢ 0 → pc 0 ≢ 0)
    → update pc (if m == 0 then 0 else prev) 1 0 ≢ 0
first_marked n m prev pc same begun = elim (Bool-cases (m == 0)) [
  | inl none_yet ↦ rw none_yet (λ e. ground (arith, e))
  | inr later ↦
      rw later (still_marked pc prev (begun (λ zero_yet. ground (arith, later, same, zero_yet))))
]

pub emit-Advances :
    (w : ℕ) (g g' : Generator)
    → w < 2 ^ 32
    → (g.sim.current.pc < 0x2000 → IsTame w g.sim.current)
    → IsRecorded g
    → emit w g ≡ returned g'
    → Advances 1 g g'
unfolding emit
emit-Advances w g g' small tame (inv, fresh, begun, blank) e =
    let (g1, e1, r1) = bind-returned (execute w g) _ g' e in
    let place = if g1.instr_gen == 0 then 0 else g1.sim.prev_pc in
    let (g2, e2, r2) = bind-returned (update_cpu place w g1) _ g' r1 in
    let (_, _, _, _, ge, _) = execute-step w g g1 e1 in
    let kept : g1.instr_gen ≡ g.instr_gen = ap (λ (h : Generator). h.instr_gen) ge in
    let index : g1.sim.prev_pc ≡ g.sim.current.pc → place ≡ g.sim.current.pc =
      λ prev. ground (arith, kept, fresh, prev) in
    let (inv', same, marks, words) = placing place w g g1 g2 small tame inv e1 e2 index in
    let first : g2.pc 0 ≢ 0 = rw marks (first_marked g.instr_gen g1.instr_gen _ g.pc kept begun) in
    rw (count-returned g2 g' r2) (
      (
        inv',
        (λ none_yet. absurd (omega (arith, none_yet))),
        (λ _. first),
        rw (marks, words) (entered-IsBlank g.pc g.instr place w blank),
      ),
      omega (arith, same),
    )

has_room-fresh :
    (g : Generator)
    → (g.instr_gen ≡ 0 → (g.sim.current.pc ≡ 0) × (g.pc 0 ≡ 0) × (g.pc 4 ≡ 0))
    → has_room g.sim.current.pc g.pc ≡ false
    → g.instr_gen ≢ 0
unfolding has_room
has_room-fresh g fresh tight zero_yet =
    let (at, first, second) = fresh zero_yet in
    let roomy : has_room 0 g.pc ≡ true = rw (first, second) refl in
    let closed = rw at at tight in cc (roomy, closed)

pub gen_j-encode_j :
    (i : ℕ)
    → (gen_j i ≡ encode_j Opcode.j (bit_and i 0xffffffc / 2 ^ 2))
      × (bit_and i 0xffffffc / 2 ^ 2 < 2 ^ 26)
unfolding gen_j encode_j
gen_j-encode_j i =
    (refl, ground (arith, bit_and_shifted 2 0x3ffffff i, bit_and_mask 26 (i / 2 ^ 2)))

pub gen_j-lt : (i : ℕ) → gen_j i < 2 ^ 32
unfolding gen_j
gen_j-lt i = omega arith

pub Room-cases : (r : Room) → ((i : ℕ) × (r ≡ room i)) ⊎ ((r ≡ full) ⊎ (r ≡ past_end))
Room-cases (room i) = inl (i, refl)
Room-cases full = inr (inl refl)
Room-cases past_end = inr (inr refl)

jump-Advances :
    (i : ℕ) (g g' : Generator)
    → IsRecorded g
    → g.instr_gen ≢ 0
    → (do g1 ← execute (gen_j i) g; update_cpu g1.sim.prev_pc (gen_j i) g1) ≡ returned g'
    → Advances 0 g g'
jump-Advances i g g' (inv, fresh, begun, blank) later e =
    let (word, small) = gen_j-encode_j i in
    let (g1, e1, e2) = bind-returned (execute (gen_j i) g) _ g' e in
    let tame : g.sim.current.pc < 0x2000 → IsTame (gen_j i) g.sim.current =
      λ h. rw word (encode_j-IsTame g.sim.current inv.2 _ small (omega (arith, h))) in
    let (inv', same, marks, words) =
      placing g1.sim.prev_pc (gen_j i) g g1 g' (gen_j-lt i) tame inv e1 e2 (λ at. at) in
    let first : g'.pc 0 ≢ 0 = rw marks (still_marked g.pc g1.sim.prev_pc (begun later)) in
    (
      (
        inv',
        (λ none_yet. absurd (later (omega (arith, same, none_yet)))),
        (λ _. first),
        rw (marks, words) (entered-IsBlank g.pc g.instr g1.sim.prev_pc (gen_j i) blank),
      ),
      omega (arith, same),
    )

-- The jump to a free place, where there is no room for two.
pub make_room-Advances :
    (g g' : Generator) → IsRecorded g → make_room g ≡ returned g' → Advances 0 g g'
unfolding make_room
make_room-Advances g g' (inv, fresh, begun, blank) e =
    let cur = g.sim.current.pc in
    elim (Bool-cases (readable cur g.pc)) [
      | inr out ↦ absurd (let h = rw (out, make_room) at e in cc h)
      | inl inside ↦
          let h = rw (inside, make_room) at e in
          elim (Bool-cases (has_room cur g.pc)) [
            | inl roomy ↦
                let same : g ≡ g' = let k = rw (roomy, make_room) at h in cc k in
                rw (sym same) ((inv, fresh, begun, blank), omega arith)
            | inr tight ↦
                let k = rw (tight, make_room) at h in
                let later = has_room-fresh g fresh tight in
                elim (Room-cases (find_room room_rounds 4 g.pc)) [
                  | inl (i, found) ↦
                      jump-Advances i g g' (inv, fresh, begun, blank) later
                        (rw (found, make_room) at k)
                  | inr (inl found) ↦ absurd (let c = rw (found, make_room) at k in cc c)
                  | inr (inr found) ↦ absurd (let c = rw (found, make_room) at k in cc c)
                ]
          ]
    ]
