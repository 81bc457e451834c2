-- ===== src/Riscv/Loader/Laws.antt =====
-- The state that `init` leaves is one from which the simulator can run.
use simple_cpu.Base.{
  ℕ, zero, suc, ◌+◌, ◌^◌, ◌<◌, ◌≤◌, ◌≡◌, refl, arith, Bool, true, false, some, List, [], ◌∷◌,
  update, ap,
}
use simple_cpu.Memory.{Store}
use simple_cpu.Memory.Laws.{IsBytes}
use simple_cpu.Memory.Image.{load_words}
use simple_cpu.Memory.Image.Laws.{fill_regions-IsBytes, IsLayout, IsLoaded, load_words-IsLoaded}
use simple_cpu.Driver.{returned}
use simple_cpu.Riscv.Machine.{Simulator, mem_regions, mem_text_start}
use simple_cpu.Riscv.State.{IsState, IsReady}
use simple_cpu.Riscv.Loader.{preload, init_memory, load_program, init}

preload-words :
    (n i : ℕ) (regs : ℕ → ℕ)
    → n + i ≤ 32
    → ((k : ℕ) → regs k < 2 ^ 32)
    → (k : ℕ) → preload n i regs k < 2 ^ 32
unfolding preload
preload-words zero i regs le h k = h k
preload-words (suc n) i regs le h k =
    preload-words n (suc i) _ (omega arith) (λ j. ground (arith, h j)) k

preload-zero : (n i : ℕ) (regs : ℕ → ℕ) → 0 < i → regs 0 ≡ 0 → preload n i regs 0 ≡ 0
unfolding preload
preload-zero zero i regs lt h = h
preload-zero (suc n) i regs lt h = preload-zero n (suc i) _ (omega arith) (ground (arith, h))

pub init_memory-IsReady :
    (b : Bool) (s : Simulator) → IsState s.current → IsBytes s.mem → IsReady (init_memory b s)
unfolding init_memory preload
init_memory-IsReady true s c m = record {
  synced = refl;
  state = record {
    zero_reg = preload-zero 31 1 (update s.current.regs 0 0) (omega arith) (ground arith);
    words =
        preload-words 31 1 (update s.current.regs 0 0) (omega arith)
          (λ j. ground (arith, c.words j));
    pc_word = omega arith;
  };
  bytes = fill_regions-IsBytes mem_regions 0 s.mem m;
}
init_memory-IsReady false s c m = record {
  synced = refl;
  state = record { zero_reg = c.zero_reg; words = c.words; pc_word = omega arith };
  bytes = fill_regions-IsBytes mem_regions 0 s.mem m;
}

load_program_lem :
    (words pcs : List ℕ) (s : Simulator) (m : Store) (n : ℕ)
    → load_words mem_regions words pcs 0 s.mem ≡ some (n, m)
    → (load_program (some words) (some pcs) s).0 ≡ returned (record s { mem = m })
unfolding load_program load_words
load_program_lem [] pcs s m n e =
    let same : s.mem ≡ m = cc e in ap (λ (t : Store). returned (record s { mem = t })) same
load_program_lem (w ∷ words) pcs s m n e = rw (e, load_program) refl

pub init_lem :
    (b : Bool) (words pcs : List ℕ) (s : Simulator)
    → IsState s.current
    → IsBytes s.mem
    → IsLayout mem_regions words pcs
    → (s' : Simulator) × (init b (some words) (some pcs) s ≡ returned s')
      × (s'.current ≡ (init_memory b s).current)
      × IsReady s'
      × (s'.current.pc ≡ mem_text_start)
      × (s'.run_bit ≡ true)
      × IsLoaded mem_regions s'.mem words pcs
unfolding init load_program init_memory
init_lem b words pcs s c m h =
    let start = record s { instr_count = 0 } in
    let ready = init_memory-IsReady b start c m in
    let (mem, e, bytes, loaded) =
      load_words-IsLoaded mem_regions words pcs 0 (init_memory b start).mem ready.bytes h in
    let filled = init_memory b start in
    (
      record filled { mem = mem },
      load_program_lem words pcs filled mem _ e,
      refl,
      record { synced = ready.synced; state = ready.state; bytes = bytes },
      refl,
      refl,
      loaded,
    )

-- The start of the simulator with a program whose addresses have room and do not overlap, from
-- globals that hold words and bytes and a register 0 of 0: `init` returns a state that is ready,
-- stands at the start of the text segment and runs, with every word of the program in its memory.
pub init-IsReady :
    (b : Bool) (words pcs : List ℕ) (s : Simulator)
    → IsState s.current
    → IsBytes s.mem
    → IsLayout mem_regions words pcs
    → (s' : Simulator) × (init b (some words) (some pcs) s ≡ returned s')
      × IsReady s'
      × (s'.current.pc ≡ mem_text_start)
      × (s'.run_bit ≡ true)
      × IsLoaded mem_regions s'.mem words pcs
init-IsReady b words pcs s c m h =
    let (s', e, _, ready, start, on, loaded) = init_lem b words pcs s c m h in
    (s', e, ready, start, on, loaded)
