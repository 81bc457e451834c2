-- ===== src/Riscv/Loader.antt =====
-- Start of the simulator, risc-v/iss/src/main.c. The two files are lists of the words that `fscanf`
-- reads from them; `none` is a file that `fopen` cannot open.
mod Tests
pub mod Laws
use simple_cpu.Base.{
  ℕ, zero, suc, ◌+◌, ◌*◌, ◌/◌, ◌%◌, ◌^◌, Bool, true, Option, none, some, ◌>>=◌, List, [], ◌∷◌,
  update, if◌then◌else◌,
}
use simple_cpu.Memory.Image.{fill_regions, load_words}
use simple_cpu.Riscv.Machine.{CpuState, Simulator, mem_text_start, mem_regions, mem_write_32}
use simple_cpu.Driver.{Outcome, returned, exited, fault}

-- The loop under `PRELOAD_ARCH_REGS`, with the registers that are left.
unfoldable pub preload : ℕ → ℕ → (ℕ → ℕ) → ℕ → ℕ
preload zero i regs = regs
preload (suc left) i regs = preload left (suc i) (update regs i (i * 32 + i % 3))

-- The flag says that `PRELOAD_ARCH_REGS` is defined.
unfoldable pub init_memory : Bool → Simulator → Simulator
init_memory preloaded s =
    let regs = if preloaded then preload 32 0 s.current.regs else s.current.regs in
    let start : CpuState = record { pc = mem_text_start; regs = regs } in
    record s {
      current = start;
      next = start;
      mem = fill_regions mem_regions 0 s.mem;
      run_bit = true;
      prev_pc = mem_text_start;
    }

unfoldable pub load_instr_opcode : ℕ → Simulator → Option Simulator
load_instr_opcode w s = do mem ← mem_write_32 s.mem s.current.pc w; some (record s { mem = mem })

-- The outcome, and the number of words that is printed. A missing file of addresses is not checked
-- for: reading from it is undefined.
unfoldable pub load_program : Option (List ℕ) → Option (List ℕ) → Simulator → Outcome Simulator × ℕ
load_program none pcs s = (exited s, 0)
load_program (some []) none s = (returned s, 0)
load_program (some (_ ∷ _)) none s = (fault, 0)
load_program (some words) (some pcs) s = elim (load_words mem_regions words pcs 0 s.mem) [
  | none ↦ (fault, 0)
  | some (ii, mem) ↦ (returned (record s { mem = mem }), ii / 4)
]

-- `init`, through `sim` and `initialize`, for the one program file that `sim` passes on.
unfoldable pub init : Bool → Option (List ℕ) → Option (List ℕ) → Simulator → Outcome Simulator
init preloaded words pcs s =
    (load_program words pcs (init_memory preloaded (record s { instr_count = 0 }))).0
