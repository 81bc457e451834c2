-- ===== src/Riscv/Isa/Program.antt =====
-- A program from its files to its end: `main` of risc-v/iss/src/main.c.
use simple_cpu.Base.{ℕ, ◌<◌, ◌≡◌, Bool, false, some, List}
use simple_cpu.Memory.{Store}
use simple_cpu.Memory.Laws.{IsBytes}
use simple_cpu.Memory.Image.Laws.{IsLayout, IsLoaded}
use simple_cpu.Driver.{returned}
use simple_cpu.Driver.Trace.{Steps}
use simple_cpu.Riscv.Machine.{Simulator, mem_regions, mem_read_32}
use simple_cpu.Riscv.State.{IsState}
use simple_cpu.Riscv.Isa.Trace.{View, Step, go-Steps}
use simple_cpu.Riscv.Loader.{init_memory}
use simple_cpu.Riscv.Loader.Laws.{init_lem}
use simple_cpu.Riscv.Main.{main}
use simple_cpu.Riscv.Run.Cycle.{is_known}

-- A program of the RISC-V simulator from its files to its end, with `PRELOAD_ARCH_REGS` defined
-- or not: words at addresses with room for them, which do not overlap, and globals that hold
-- words and bytes and a register 0 of 0. If in every memory of bytes where the words stand at
-- their addresses the n instructions from the start of the text segment lead to a word whose
-- opcode has no type, in a view of which `Post` holds, then with fuel above n `main` returns,
-- with the processor and the memory of such a view.
pub main-Steps :
    (b : Bool) (words pcs : List ℕ) (n fuel : ℕ) (s : Simulator) (Post : View → Type 0)
    → IsState s.current
    → IsBytes s.mem
    → IsLayout mem_regions words pcs
    → ((m : Store)
        → IsBytes m
        → IsLoaded mem_regions m words pcs
        → (z : View) × (w : ℕ) × Steps Step z n ((init_memory b s).current, m)
          × (mem_read_32 z.1 z.0.pc ≡ some w)
          × (is_known w ≡ false)
          × Post z)
    → n < fuel
    → (t : Simulator) × (z : View) × (main b fuel (some words) (some pcs) s ≡ returned t)
      × (t.current ≡ z.0)
      × (t.mem ≡ z.1)
      × Post z
unfolding main
main-Steps b words pcs n fuel s Post state bytes layout program enough =
    let (s', started, cpu, ready, _, on, loaded) = init_lem b words pcs s state bytes layout in
    let (z, w, steps, last, unknown, post) = program s'.mem ready.bytes loaded in
    let from : Steps Step z n (s'.current, s'.mem) = rw cpu steps in
    let (t, ran, left, stored, _) = go-Steps n fuel s' z w ready on from last unknown enough in
    (t, z, rw started ran, left, stored, post)
