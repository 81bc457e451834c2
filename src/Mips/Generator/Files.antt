-- ===== src/Mips/Generator/Files.antt =====
-- A whole run of mips/hex_gen/src/hex_gen.c up to its files, and the simulator that reads them.
use simple_cpu.Base.{
  zero, suc, ◌⊎◌, ◌==◌, ==_iff, Bool-cases, update, ℕ, ◌+◌, ◌*◌, ◌/◌, ◌%◌, ◌^◌, ◌<◌, ◌≡◌, ◌≢◌, refl,
  arith, true, some, sym, ap, ◌∙◌, inl, inr, Option-cases,
}
use simple_cpu.Memory.{Place, Store, locate, load_word}
use simple_cpu.Memory
use simple_cpu.Memory.Laws.{IsBytes}
use simple_cpu.Memory.Image.Laws.{HasRoom, IsLoaded, fill_regions-IsBytes}
use simple_cpu.HexGen.{imem_size, print_rounds}
use simple_cpu.HexGen.Laws.{zero_plus, clear-inside, HaveRoom, printed-IsLayout, printed-read}
use simple_cpu.Driver.{returned}
use simple_cpu.Mips.Machine.{Simulator, CpuState, mem_regions, mem_read_32, mem_text_start}
use simple_cpu.Mips.Loader.{init_memory, init}
use simple_cpu.Mips.Loader.Laws.{init-IsLoaded}
use simple_cpu.Mips.Generator.State.{Generator, init_hex_gen}
use simple_cpu.Mips.Generator.Mix.{gen_instr_hex, gen_end_seq, generate}
use simple_cpu.Mips.Generator.Emit.{has_room}
use simple_cpu.Mips.Generator.EndSeq.{gen_end_seq-IsWritten}
use simple_cpu.Mips.Generator.Print.{print_to_file}
use simple_cpu.Mips.Generator.Tame.{text-IsMapped}
use simple_cpu.Mips.Generator.Recorded.{IsWritten, IsBlank, IsRecorded, entered-IsBlank}
use simple_cpu.Mips.Generator.Invariant.{Advances}
use simple_cpu.Mips.Generator.Program.{asked, gen_instr_hex-Advances}

decided : {P : Type 0} (n : ℕ) → (n ≢ 0 → P) → (n ≡ 0) ⊎ P
decided zero h = inl refl
decided (suc n) h = inr (h (λ e. omega (arith, e)))

-- The calls of `main` before `gen_instr_hex`.
abbrev pub started : Generator → Generator
started g = let clean = init_hex_gen g in record clean { sim = init_memory clean.sim }

started-IsRecorded : (g : Generator) → IsBytes g.sim.mem → IsRecorded (started g)
unfolding init_hex_gen init_memory
started-IsRecorded g bytes =
    let cleared : (a : ℕ) → a < 0x2000 → (started g).pc a ≡ 0 =
      λ a h. clear-inside imem_size 0 g.pc a (omega arith) (omega (arith, h)) in
    (
      (
        fill_regions-IsBytes mem_regions 0 g.sim.mem bytes,
        refl,
        omega arith,
        λ a h marked. absurd (marked (cleared a h)),
      ),
      (λ _. (refl, cleared 0 (omega arith), cleared 4 (omega arith))),
      (λ more. absurd (more refl)),
      λ a h _. clear-inside imem_size 0 g.instr a (omega arith) (omega (arith, h)),
    )

module _ (rand : ℕ → ℕ) (num_r num_i num_j fuel : ℕ) (g g' : Generator) (bytes : IsBytes g.sim.mem)
    (made : gen_instr_hex rand num_r num_i num_j fuel (started g) ≡ returned g') where
  reached : Advances (asked rand num_r num_i num_j) (started g) g'
  reached =
      gen_instr_hex-Advances rand num_r num_i num_j fuel (started g) g' (started-IsRecorded g bytes)
        made

  -- From a memory of bytes, cleared and filled as `main` does, whatever numbers `rand` gives and
  -- whatever mix is asked for: where `gen_instr_hex` returns, it has made as many instructions as
  -- the three numbers add up to as an `int`, or none where that is negative; if it has made any,
  -- place 0 is marked; and each place below 0x2000 either is not marked by `PC` and has 0 in
  -- `instr`, or is marked, a multiple of 4, and its entry in `instr` is a word, the one that the
  -- simulator's memory holds there.
  pub gen_instr_hex-IsRecorded :
      (a : ℕ)
      → a < 0x2000
      → (g'.instr_gen ≡ asked rand num_r num_i num_j)
        × ((g'.instr_gen ≡ 0) ⊎ (g'.pc 0 ≢ 0))
        × (((g'.pc a ≡ 0) × (g'.instr a ≡ 0))
            ⊎ ((g'.pc a ≢ 0)
                × (a % 4 ≡ 0)
                × (g'.instr a < 2 ^ 32)
                × (mem_read_32 g'.sim.mem a ≡ some (g'.instr a))))
  unfolding init_hex_gen
  gen_instr_hex-IsRecorded a h =
      let ((inv, _, begun, blank), n) = reached in
      (
        n ∙ zero_plus _,
        decided g'.instr_gen begun,
        elim (Bool-cases (g'.pc a == 0)) [
          | inl unmarked ↦ let at = (==_iff (g'.pc a) 0).0 unmarked in inl (at, blank a h at)
          | inr taken ↦
              let marked : g'.pc a ≢ 0 = λ e. ground (arith, taken, e) in
              let (al, small, read) = inv.3 a h marked in inr (marked, al, small, read)
        ],
      )

-- What is printed of arrays that are in step with the memory.
module _ (g' : Generator) (written : IsWritten g'.pc g'.instr g'.sim.mem) where
  read-HasRoom :
      (a v : ℕ) → a < 0x2000 → a % 4 ≡ 0 → mem_read_32 g'.sim.mem a ≡ some v → HasRoom mem_regions a
  unfolding Memory.mem_read_32 load_word
  read-HasRoom a v h al e = elim (Option-cases (locate mem_regions 0 a)) [
    | inl out ↦ absurd (text-IsMapped a h al out)
    | inr (p, at) ↦ let k = rw (at, Memory.mem_read_32) at e in (p, at, ground (arith, k))
  ]

  places-HaveRoom : HaveRoom mem_regions 0 g'.pc g'.instr print_rounds 0
  places-HaveRoom k h marked =
      let a = 0 + 4 * k in
      let low : a < 0x2000 = omega (arith, h) in
      let (al, small, read) = written a low marked in
      let there : a ≡ a + 0 = omega arith in
      (small, rw there at (read-HasRoom a (g'.instr a) low al read))

  printed_place-read :
      (m : Store) (a : ℕ)
      → a < 0x2000
      → g'.pc a ≢ 0
      → IsLoaded mem_regions m (print_to_file g').1 (print_to_file g').0
      → mem_read_32 m a ≡ mem_read_32 g'.sim.mem a
  unfolding print_to_file
  printed_place-read m a h marked loaded =
      let (al, _, read) = written a h marked in
      let place : 0 + 4 * (a / 4) ≡ a = omega (arith, al) in
      let there : a + 0 ≡ a = omega arith in
      let found =
        printed-read mem_regions 0 g'.pc g'.instr print_rounds 0 m (a / 4) loaded (omega (arith, h))
          (rw place marked) in
      rw there at (rw place at found) ∙ sym read

  -- A simulator that reads it.
  print_to_file-init :
      (s : Simulator)
      → IsBytes s.mem
      → (s' : Simulator) × (init (some (print_to_file g').1) (some (print_to_file g').0) s
          ≡ returned s')
        × (s'.next ≡ s'.current)
        × (s'.current.pc ≡ mem_text_start)
        × (s'.run_bit ≡ true)
        × IsLoaded mem_regions s'.mem (print_to_file g').1 (print_to_file g').0
  unfolding print_to_file
  print_to_file-init s w =
      let layout = printed-IsLayout mem_regions 0 g'.pc g'.instr print_rounds 0 places-HaveRoom in
      let (s', e, next, current, on, _, loaded) = init-IsLoaded _ _ s w layout in
      (s', e, next, ap (λ (c : CpuState). c.pc) current, on, loaded)

  -- The words that it has are the marked ones.
  place-cases :
      (m : Store) (a : ℕ)
      → IsBlank g'.pc g'.instr
      → a < 0x2000
      → IsLoaded mem_regions m (print_to_file g').1 (print_to_file g').0
      → ((g'.pc a ≡ 0) × (g'.instr a ≡ 0))
        ⊎ ((g'.pc a ≢ 0)
            × (mem_read_32 m a ≡ some (g'.instr a))
            × (mem_read_32 m a ≡ mem_read_32 g'.sim.mem a))
  place-cases m a blank h loaded = elim (Bool-cases (g'.pc a == 0)) [
    | inl unmarked ↦ let at = (==_iff (g'.pc a) 0).0 unmarked in inl (at, blank a h at)
    | inr taken ↦
        let marked : g'.pc a ≢ 0 = λ e. ground (arith, taken, e) in
        let (_, _, read) = written a h marked in
        let same = printed_place-read m a h marked loaded in inr (marked, same ∙ read, same)
  ]

-- The two places of the end.
end_marked :
    (pc pc' : ℕ → ℕ) (cur : ℕ)
    → pc' ≡ update (update pc cur 1) (cur + 4) 1
    → (pc' cur ≡ 1) × (pc' (cur + 4) ≡ 1)
end_marked pc pc' cur e = (rw e (ground arith), rw e (ground arith))

end_entered :
    (instr instr' : ℕ → ℕ) (cur : ℕ)
    → instr' ≡ update (update instr cur 0x2002000a) (cur + 4) 0x0000000c
    → (instr' cur ≡ 0x2002000a) × (instr' (cur + 4) ≡ 0x0000000c)
end_entered instr instr' cur e = (rw e (ground arith), rw e (ground arith))

-- The whole of `main` after its arguments, from a memory of bytes, whatever numbers `rand` gives:
-- where `gen_instr_hex` leaves the program counter at a place below 0x1ff8 at which there is
-- room, and there is room at the next one too, and the generator returns, it has entered the two
-- instructions of the end there and marked both places, and the files that `print_to_file` then
-- prints load into any simulator with a memory of bytes: `init` returns a running state with the
-- program counter at the start of the text segment and `NEXT_STATE` in step, and each place below
-- 0x2000 either is not marked and has 0 in `instr`, or is marked, and the memory holds there the
-- word that is entered in `instr` and that the generator's simulator has there.
pub generate-init :
    (rand : ℕ → ℕ) (num_r num_i num_j fuel : ℕ) (g g1 g' : Generator) (s : Simulator) (a : ℕ)
    → IsBytes g.sim.mem
    → gen_instr_hex rand num_r num_i num_j fuel (started g) ≡ returned g1
    → g1.sim.current.pc + 8 < 0x2000
    → has_room g1.sim.current.pc g1.pc ≡ true
    → has_room (g1.sim.current.pc + 4) g1.pc ≡ true
    → generate rand num_r num_i num_j fuel g ≡ returned g'
    → IsBytes s.mem
    → a < 0x2000
    → (g'.instr g1.sim.current.pc ≡ 0x2002000a)
      × (g'.instr (g1.sim.current.pc + 4) ≡ 0x0000000c)
      × (g'.pc g1.sim.current.pc ≡ 1)
      × (g'.pc (g1.sim.current.pc + 4) ≡ 1)
      × (s' : Simulator) × (init (some (print_to_file g').1) (some (print_to_file g').0) s
          ≡ returned s')
      × (s'.next ≡ s'.current)
      × (s'.current.pc ≡ mem_text_start)
      × (s'.run_bit ≡ true)
      × (((g'.pc a ≡ 0) × (g'.instr a ≡ 0))
          ⊎ ((g'.pc a ≢ 0)
              × (mem_read_32 s'.mem a ≡ some (g'.instr a))
              × (mem_read_32 s'.mem a ≡ mem_read_32 g'.sim.mem a)))
unfolding generate
generate-init rand num_r num_i num_j fuel g g1 g' s a bytes made low roomy roomy' e w h =
    let cur = g1.sim.current.pc in
    let ((placed, _, _, blank), _) = reached rand num_r num_i num_j fuel g g1 bytes made in
    let ended : gen_end_seq g1 ≡ returned g' = rw made at e in
    let (marks, words, written) = gen_end_seq-IsWritten g1 g' placed low roomy roomy' ended in
    let (s', e', next, current, on, loaded) = print_to_file-init g' written s w in
    let first = entered-IsBlank g1.pc g1.instr cur 0x2002000a blank in
    let second : IsBlank g'.pc g'.instr =
      rw (marks, words) (entered-IsBlank _ _ (cur + 4) 0x0000000c first) in
    let (m1, m2) = end_marked g1.pc g'.pc cur marks in
    let (w1, w2) = end_entered g1.instr g'.instr cur words in
    (w1, w2, m1, m2, s', e', next, current, on, place-cases g' written s'.mem a second h loaded)
