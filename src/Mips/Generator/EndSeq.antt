-- ===== src/Mips/Generator/EndSeq.antt =====
-- The end of a program, `gen_end_seq` of mips/hex_gen/src/hex_gen.c, where there is room for it.
pub mod Words
use simple_cpu.Base.{
  ℕ, ◌+◌, ◌%◌, ◌^◌, ◌<◌, ◌≡◌, refl, arith, true, false, some, u32, sym, ap, ◌∙◌, update,
  >>=-eq-some, Bool-cases, inl, inr,
}
use mathlib.Core.Option.{some-injective}
use simple_cpu.Driver.{returned}
use simple_cpu.Driver.Laws.{bind-returned}
use simple_cpu.Memory.{Store}
use simple_cpu.Memory.Laws.{IsBytes, read-write}
use simple_cpu.Mips.Opcode
use simple_cpu.Mips.Machine.{Simulator, CpuState, mem_read_32, mem_write_32, mem_regions}
use simple_cpu.Mips.Encode.{encode_r, encode_i}
use simple_cpu.Mips.Fields.{dispatch-encode_r, dispatch-encode_i}
use simple_cpu.Mips.Execute.Special.{execute_special}
use simple_cpu.Mips.Execute.Register.{execute_shift, execute_alu, execute_r}
use simple_cpu.Mips.Execute.Branch.{execute_branch}
use simple_cpu.Mips.Execute.Immediate.{finish_i, execute_immediate}
use simple_cpu.Mips.Execute.Access.{execute_i}
use simple_cpu.Mips.Run.{decode_instr_type, dispatch, process_instruction, cycle}
use simple_cpu.Mips.Loader.{load_instr_opcode}
use simple_cpu.Mips.Generator.State.{Generator, update_cpu}
use simple_cpu.Mips.Generator.Emit.{execute, count, has_room, readable, make_room}
use simple_cpu.Mips.Generator.Mix.{gen_end_seq}
use simple_cpu.Mips.Generator.Tame.{IsTame, placed, encode_i-IsTame, text-IsMapped}
use simple_cpu.Mips.Generator.Recorded.{
  IsWritten, IsPlaced, entered, execute-step, update_cpu-returned,
}
use simple_cpu.Mips.Generator.EndSeq.Words.{exit-IsTame, encode_i_ten, execute-ten}

-- The place is marked before the word is run.
sealing :
    (w : ℕ) (g g1 g2 : Generator)
    → w < 2 ^ 32
    → IsTame w g.sim.current
    → IsBytes g.sim.mem
    → g.sim.current.pc % 4 ≡ 0
    → IsWritten g.pc g.instr g.sim.mem
    → update_cpu g.sim.current.pc w g ≡ returned g1
    → execute w g1 ≡ returned g2
    → IsBytes g2.sim.mem
      × (g2.sim.current.pc % 4 ≡ 0)
      × IsWritten g2.pc g2.instr g2.sim.mem
      × (g2.pc ≡ update g.pc g.sim.current.pc 1)
      × (g2.instr ≡ update g.instr g.sim.current.pc w)
sealing w g g1 g2 small tame bytes al written u e =
    let (low, ue) = update_cpu-returned g.sim.current.pc w g g1 u in
    let at : g1.sim.current ≡ g.sim.current = ap (λ (h : Generator). h.sim.current) ue in
    let mem : g1.sim.mem ≡ g.sim.mem = ap (λ (h : Generator). h.sim.mem) ue in
    let (t, s, le, ce, ge, _) = execute-step w g1 g2 e in
    let (al', _, bytes', here, others) =
      placed w g1.sim t s (rw at low) (rw at al) (rw mem bytes) small (rw at tame) le ce in
    rw ge (
      rw ue (
        bytes',
        al',
        entered g.pc g.instr g.sim.mem s.mem g.sim.current.pc w al small (rw at at here)
            (λ b hb ab ne. others b hb ab (rw at ne) ∙ ap (λ (m : Store). mem_read_32 m b) mem)
            written,
        refl,
        refl,
      ))

make_room-stays :
    (g g' : Generator) → has_room g.sim.current.pc g.pc ≡ true → make_room g ≡ returned g' → g ≡ g'
unfolding make_room
make_room-stays g g' roomy e = elim (Bool-cases (readable g.sim.current.pc g.pc)) [
  | inr out ↦ absurd (let h = rw (out, make_room) at e in cc h)
  | inl inside ↦ let h = rw (inside, make_room) at e in let k = rw (roomy, make_room) at h in cc k
]

count-returned :
    (g g' : Generator) → count g ≡ returned g' → g' ≡ record g { instr_gen = g.instr_gen + 1 }
unfolding count
count-returned g g' e = ground arith

has_room-apart :
    (cur : ℕ) (pc : ℕ → ℕ)
    → cur + 8 < 0x2000
    → has_room (cur + 4) pc ≡ true
    → has_room (cur + 4) (update pc cur 1) ≡ true
unfolding has_room
has_room-apart cur pc low h = ground arith

-- The first instruction of the two.
first_half :
    (g g2 g3 : Generator)
    → IsPlaced g
    → g.sim.current.pc < 0x1ff8
    → update_cpu g.sim.current.pc 0x2002000a g ≡ returned g2
    → execute 0x2002000a g2 ≡ returned g3
    → IsBytes g3.sim.mem
      × IsWritten g3.pc g3.instr g3.sim.mem
      × (g3.pc ≡ update g.pc g.sim.current.pc 1)
      × (g3.instr ≡ update g.instr g.sim.current.pc 0x2002000a)
      × (g3.sim.current.pc ≡ g.sim.current.pc + 4)
first_half g g2 g3 (bytes, _, al, written) low e2 e3 =
    let tame = rw encode_i_ten at (
      encode_i-IsTame g.sim.current al Opcode.addi 0 2 0xa (omega arith) (omega arith) (omega arith)
        refl) in
    let (bytes3, _, written3, pc3, instr3) =
      sealing 0x2002000a g g2 g3 (omega arith) tame bytes al written e2 e3 in
    let (_, ue) = update_cpu-returned g.sim.current.pc 0x2002000a g g2 e2 in
    let at : g2.sim.current ≡ g.sim.current = ap (λ (h : Generator). h.sim.current) ue in
    let mem : g2.sim.mem ≡ g.sim.mem = ap (λ (h : Generator). h.sim.mem) ue in
    let moved = execute-ten g2 g3 (rw mem bytes) (rw at (omega (arith, low))) (rw at al) e3 in
    let there = rw at at moved in (bytes3, written3, pc3, instr3, omega (arith, there, low))

-- The second, from the state after the first.
second_half :
    (cur : ℕ) (g g1 g2 g' : Generator)
    → g.sim.current.pc ≡ cur + 4
    → cur % 4 ≡ 0
    → has_room (cur + 4) g.pc ≡ true
    → IsBytes g.sim.mem
    → IsWritten g.pc g.instr g.sim.mem
    → make_room g ≡ returned g1
    → update_cpu g1.sim.current.pc 0x0000000c g1 ≡ returned g2
    → execute 0x0000000c g2 ≡ returned g'
    → IsWritten g'.pc g'.instr g'.sim.mem
      × (g'.pc ≡ update g.pc (cur + 4) 1)
      × (g'.instr ≡ update g.instr (cur + 4) 0x0000000c)
second_half cur g g1 g2 g' at al roomy bytes written e1 e2 e3 =
    let same = make_room-stays g g1 (rw at roomy) e1 in
    let even : g.sim.current.pc % 4 ≡ 0 = omega (arith, at, al) in
    let (_, _, written', pc', instr') =
      sealing 0x0000000c g g2 g' (omega arith) (exit-IsTame g.sim.current even) bytes even written
        (rw (sym same) at e2) e3 in
    (written', rw at at pc', rw at at instr')

-- Where there is room for them, the two instructions are entered, and the arrays are in step with
-- the memory again.
pub gen_end_seq-IsWritten :
    (g g' : Generator)
    → IsPlaced g
    → g.sim.current.pc + 8 < 0x2000
    → has_room g.sim.current.pc g.pc ≡ true
    → has_room (g.sim.current.pc + 4) g.pc ≡ true
    → gen_end_seq g ≡ returned g'
    → (g'.pc ≡ update (update g.pc g.sim.current.pc 1) (g.sim.current.pc + 4) 1)
      × (g'.instr
          ≡ update (update g.instr g.sim.current.pc 0x2002000a) (g.sim.current.pc + 4) 0x0000000c)
      × IsWritten g'.pc g'.instr g'.sim.mem
unfolding gen_end_seq
gen_end_seq-IsWritten g g' inv low roomy roomy' e =
    let cur = g.sim.current.pc in
    let (g1, e1, r1) = bind-returned (make_room g) _ g' e in
    let f1 = rw (sym (make_room-stays g g1 roomy e1)) at r1 in
    let (g2, e2, r2) = bind-returned (update_cpu cur 0x2002000a g) _ g' f1 in
    let (g3, e3, r3) = bind-returned (execute 0x2002000a g2) _ g' r2 in
    let (gc, ec, rc) = bind-returned (count g3) _ g' r3 in
    let (g4, e4, r4) = bind-returned (make_room gc) _ g' rc in
    let (g5, e5, e6) = bind-returned (update_cpu g4.sim.current.pc 0x0000000c g4) _ g' r4 in
    let (bytes3, written3, pc3, instr3, at3) = first_half g g2 g3 inv (omega (arith, low)) e2 e3 in
    let counted = count-returned g3 gc ec in
    let roomy3 : has_room (cur + 4) g3.pc ≡ true = rw pc3 (has_room-apart cur g.pc low roomy') in
    let (written', pc', instr') =
      second_half cur gc g4 g5 g' (rw counted at3) inv.2 (rw counted roomy3) (rw counted bytes3)
        (rw counted written3) e4 e5 e6 in
    let words : g'.instr ≡ update (update g.instr cur 0x2002000a) (cur + 4) 0x0000000c =
      instr'
      ∙ ap (λ (f : ℕ → ℕ). update f (cur + 4) 0x0000000c)
          (ap (λ (k : Generator). k.instr) counted ∙ instr3) in
    let marks : g'.pc ≡ update (update g.pc cur 1) (cur + 4) 1 =
      pc' ∙ ap (λ (f : ℕ → ℕ). update f (cur + 4) 1) (ap (λ (k : Generator). k.pc) counted ∙ pc3) in
    (marks, words, written')
