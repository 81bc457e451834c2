-- ===== src/Mips/Isa/Program.antt =====
-- A program from its files to its end: `main` of mips/iss/src/main.c.
use simple_cpu.Base.{ℕ, ◌<◌, ◌≡◌, arith, some, List}
use simple_cpu.Memory.{Store}
use simple_cpu.Memory.Laws.{IsBytes}
use simple_cpu.Memory.Image.Laws.{IsLayout, IsLoaded}
use simple_cpu.Driver.{returned}
use simple_cpu.Mips.Machine.{CpuState, Simulator, mem_regions, mem_text_start, mem_read_32}
use simple_cpu.Mips.State.{IsState}
use simple_cpu.Mips.Isa.{syscall, advance}
use simple_cpu.Mips.Isa.Code.{encode}
use simple_cpu.Mips.Isa.Trace.{View, Executes, go-Executes}
use simple_cpu.Mips.Main.{main}
use simple_cpu.Mips.Loader.Laws.{init-IsLoaded}

-- The processor as `init` leaves it.
abbrev pub at_text : CpuState → CpuState
at_text c = record c { pc = mem_text_start }

-- A program of the MIPS simulator from its files to its end: words at addresses with room for
-- them, which do not overlap, and globals that hold words and bytes and a register 0 of 0. If in
-- every memory of bytes where the words stand at their addresses the n instructions from the
-- start of the text segment, none of them the request to exit, lead to `SYSCALL` with 10 in
-- register 2, in a view of which `Post` holds, then with fuel above n `main` returns, with the
-- memory of such a view, and its processor, but the program counter past the `SYSCALL`.
pub main-Executes :
    (words pcs : List ℕ) (n fuel : ℕ) (s : Simulator) (Post : View → Type 0)
    → IsState s.current
    → IsBytes s.mem
    → IsLayout mem_regions words pcs
    → ((m : Store)
        → IsBytes m
        → IsLoaded mem_regions m words pcs
        → (z : View) × Executes z n (at_text s.current, m)
          × (mem_read_32 z.1 z.0.pc ≡ some (encode syscall))
          × (z.0.regs 2 ≡ 10)
          × Post z)
    → n < fuel
    → (t : Simulator) × (z : View) × (main fuel (some words) (some pcs) s ≡ returned t)
      × (t.current ≡ advance z.0)
      × (t.mem ≡ z.1)
      × Post z
unfolding main
main-Executes words pcs n fuel s Post state bytes layout program enough =
    let (s', started, synced, cpu, on, kept, loaded) = init-IsLoaded words pcs s bytes layout in
    let (z, steps, last, ten, post) = program s'.mem kept loaded in
    let good : IsState s'.current = rw cpu (state.0, state.1, omega arith, state.3, state.4) in
    let from : Executes z n (s'.current, s'.mem) = rw cpu steps in
    let (t, ran, left, stored, _) =
      go-Executes n fuel s' z (synced, good, kept) on from last ten enough in
    (t, z, rw started ran, left, stored, post)
