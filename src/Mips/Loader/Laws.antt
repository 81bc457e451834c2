-- ===== src/Mips/Loader/Laws.antt =====
-- The state that `init` leaves.
use simple_cpu.Base.{ℕ, ◌≡◌, refl, ap, true, some, List, [], ◌∷◌}
use simple_cpu.Memory.{Store}
use simple_cpu.Memory.Laws.{IsBytes}
use simple_cpu.Memory.Image.{load_words}
use simple_cpu.Memory.Image.Laws.{fill_regions-IsBytes, IsLayout, IsLoaded, load_words-IsLoaded}
use simple_cpu.Driver.{returned}
use simple_cpu.Mips.Machine.{Simulator, mem_regions, mem_text_start}
use simple_cpu.Mips.Loader.{init_memory, load_program, init}

load_program_lem :
    (words pcs : List ℕ) (s : Simulator) (m : Store) (n : ℕ)
    → load_words mem_regions words pcs 0 s.mem ≡ some (n, m)
    → (load_program (some words) (some pcs) s).0 ≡ returned (record s { mem = m })
unfolding load_program load_words
load_program_lem [] pcs s m n e =
    let same : s.mem ≡ m = cc e in ap (λ (t : Store). returned (record s { mem = t })) same
load_program_lem (w ∷ words) pcs s m n e = rw (e, load_program) refl

-- The start of the simulator with a program whose addresses have room and do not overlap, from a
-- store of bytes: `init` returns a running state with the program counter at the start of the
-- text segment, the registers kept, `NEXT_STATE` in step, a store of bytes, and every word of the
-- program in its memory.
pub init-IsLoaded :
    (words pcs : List ℕ) (s : Simulator)
    → IsBytes s.mem
    → IsLayout mem_regions words pcs
    → (s' : Simulator) × (init (some words) (some pcs) s ≡ returned s')
      × (s'.next ≡ s'.current)
      × (s'.current ≡ (let c = s.current in record c { pc = mem_text_start }))
      × (s'.run_bit ≡ true)
      × IsBytes s'.mem
      × IsLoaded mem_regions s'.mem words pcs
unfolding init init_memory
init-IsLoaded words pcs s m h =
    let start = init_memory (record s { instr_count = 0 }) in
    let (mem, e, bytes, loaded) =
      load_words-IsLoaded mem_regions words pcs 0 start.mem
        (fill_regions-IsBytes mem_regions 0 s.mem m) h in
    (
      record start { mem = mem },
      load_program_lem words pcs start mem _ e,
      refl,
      refl,
      refl,
      bytes,
      loaded,
    )
