-- ===== src/Mips/Generator/Room.antt =====
-- Where `make_room` of mips/hex_gen/src/hex_gen.c leaves the simulator.
use simple_cpu.Base.{
  ℕ, ◌+◌, ◌*◌, ◌/◌, ◌%◌, ◌^◌, ◌<◌, ◌≡◌, refl, arith, true, false, some, sym, ap, ◌∙◌, >>=-eq-some,
  Bool-cases, inl, inr, bit_and, bit_and_shifted, bit_and_mask,
}
use mathlib.Core.Option.{some-injective}
use simple_cpu.HexGen.{find_room, room_rounds}
use simple_cpu.HexGen.Laws.{find_room-free}
use simple_cpu.Driver.{returned}
use simple_cpu.Driver.Laws.{bind-returned}
use simple_cpu.Memory.Laws.{read-write}
use simple_cpu.Mips.Opcode
use simple_cpu.Mips.Machine.{Simulator, mem_read_32, mem_write_32, mem_regions}
use simple_cpu.Mips.Encode.{encode_j}
use simple_cpu.Mips.Fields.{dispatch-encode_j}
use simple_cpu.Mips.Execute.Jump.{execute_j}
use simple_cpu.Mips.Execute.Laws.{execute_j_lem}
use simple_cpu.Mips.Run.{decode_instr_type, dispatch, process_instruction, cycle}
use simple_cpu.Mips.Loader.{load_instr_opcode}
use simple_cpu.Mips.Generator.State.{Generator, update_cpu}
use simple_cpu.Mips.Generator.Emit.{execute, gen_j, has_room, readable, make_room}
use simple_cpu.Mips.Generator.Tame.{text-IsMapped}
use simple_cpu.Mips.Generator.Recorded.{IsPlaced, execute-step}
use simple_cpu.Mips.Generator.Invariant.{gen_j-encode_j, gen_j-lt, Room-cases}

-- A cycle that fetches a jump to a place of the text segment, from another.
cycle-j :
    (s s' : Simulator) (target : ℕ)
    → mem_read_32 s.mem s.current.pc ≡ some (encode_j Opcode.j target)
    → s.current.pc < 0x2000
    → target < 0x800
    → cycle s ≡ some s'
    → s'.current.pc ≡ 4 * target
unfolding cycle process_instruction
cycle-j s s' target f low small e =
    let (p, pe, re) = >>=-eq-some (process_instruction s) _ e in
    let (v, ve, de) = >>=-eq-some (mem_read_32 s.mem s.current.pc) _ pe in
    let w = encode_j Opcode.j target in
    let same : w ≡ v = some-injective _ _ (sym f ∙ ve) in
    let start = record s { rt_as_src = false; wr_link_reg = false; instr_opcode = v } in
    let (d, dd, fe) = >>=-eq-some (dispatch (decode_instr_type v) v start) _ de in
    let jumps = dispatch-encode_j Opcode.j target start refl (omega arith) in
    let ran : d ≡ execute_j Opcode.j target start =
      some-injective _ _ (sym dd ∙ rw same at jumps) in
    let first = some-injective _ _ fe in
    let second = some-injective _ _ re in
    let there = (execute_j_lem Opcode.j target start refl (omega arith) (omega arith)).0 in
    rw (sym second) (rw (sym first) (rw ran (omega (arith, there))))

jump-lands :
    (k : ℕ) (g g' : Generator)
    → IsPlaced g
    → g.sim.current.pc < 0x2000
    → k < 0x2000
    → k % 4 ≡ 0
    → execute (gen_j k) g ≡ returned g'
    → g'.sim.current.pc ≡ k
unfolding load_instr_opcode
jump-lands k g g' (bytes, _, al, _) low small even e =
    let (word, _) = gen_j-encode_j k in
    let target = bit_and k 0xffffffc / 2 ^ 2 in
    let at : 4 * target ≡ k =
      ground (arith, bit_and_shifted 2 0x3ffffff k, bit_and_mask 26 (k / 2 ^ 2)) in
    let (t, s, le, ce, ge, _) = execute-step (gen_j k) g g' e in
    let a = g.sim.current.pc in
    let (m, me, re) = >>=-eq-some (mem_write_32 g.sim.mem a (gen_j k)) _ le in
    let t' = let s0 = g.sim in record s0 { mem = m } in
    let same : t ≡ t' = sym (some-injective _ _ re) in
    let here =
      read-write mem_regions g.sim.mem m a (gen_j k) bytes me (gen_j-lt k)
        (text-IsMapped a low al) in
    let there =
      cycle-j t' s target (here ∙ ap some word) low (omega (arith, at, small))
        (ap cycle (sym same) ∙ ce) in
    rw ge (there ∙ at)

stays :
    (cur : ℕ) (pc : ℕ → ℕ)
    → readable cur pc ≡ true
    → has_room cur pc ≡ true
    → (cur + 4 < 0x2000) × (pc cur ≡ 0) × (pc (cur + 4) ≡ 0)
unfolding readable has_room
stays cur pc e h = ground arith

update_cpu-pc :
    (i w : ℕ) (g g' : Generator)
    → update_cpu i w g ≡ returned g'
    → g'.sim.current.pc ≡ g.sim.current.pc
unfolding update_cpu
update_cpu-pc i w g g' e = ground arith

readable-lt : (cur : ℕ) (pc : ℕ → ℕ) → readable cur pc ≡ true → cur < 0x2000
unfolding readable
readable-lt cur pc e = ground arith

-- Where the arrays are in step with the memory (`IsPlaced`) and `make_room` returns, with or
-- without a jump, the program counter is at a place that was not marked before, and neither was
-- the next one, which is below 0x2000 too.
pub make_room-free :
    (g g' : Generator)
    → IsPlaced g
    → make_room g ≡ returned g'
    → (g'.sim.current.pc + 4 < 0x2000)
      × (g.pc g'.sim.current.pc ≡ 0)
      × (g.pc (g'.sim.current.pc + 4) ≡ 0)
unfolding make_room
make_room-free g g' inv e =
    let cur = g.sim.current.pc in
    elim (Bool-cases (readable cur g.pc)) [
      | inr out ↦ absurd (let h = rw (out, make_room) at e in cc h)
      | inl inside ↦
          let h = rw (inside, make_room) at e in
          elim (Bool-cases (has_room cur g.pc)) [
            | inl roomy ↦
                let same : g ≡ g' = let k = rw (roomy, make_room) at h in cc k in
                rw (sym same) (stays cur g.pc inside roomy)
            | inr tight ↦
                let k = rw (tight, make_room) at h in
                elim (Room-cases (find_room room_rounds 4 g.pc)) [
                  | inl (i, found) ↦
                      let (_, high, even, free, free') =
                        find_room-free room_rounds 4 i g.pc found in
                      let (g1, e1, e2) =
                        bind-returned (execute (gen_j i) g) _ g' (rw (found, make_room) at k) in
                      let lands =
                        jump-lands i g g1 inv (readable-lt cur g.pc inside) (omega (arith, high))
                          (omega (arith, even)) e1 in
                      let kept : g'.sim.current.pc ≡ i =
                        update_cpu-pc g1.sim.prev_pc (gen_j i) g1 g' e2 ∙ lands in
                      rw kept (high, free, free')
                  | inr (inl found) ↦ absurd (let c = rw (found, make_room) at k in cc c)
                  | inr (inr found) ↦ absurd (let c = rw (found, make_room) at k in cc c)
                ]
          ]
    ]
