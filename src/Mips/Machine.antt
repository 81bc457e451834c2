-- ===== src/Mips/Machine.antt =====
-- The state of the simulator: the global variables of mips/iss/src/main.c and main.h, and the
-- assignments to `NEXT_STATE` that the instructions share.
use simple_cpu.Base.{ℕ, ◌+◌, Bool, Option, List, [], ◌∷◌, u32, update}
use simple_cpu.Memory
use simple_cpu.Memory.{Region, Store}

-- `CPU_State`.
pub record CpuState : Type 0 where
  pub pc : ℕ
  pub regs : ℕ → ℕ
  pub hi : ℕ
  pub lo : ℕ
  pub epc : ℕ
  pub esr : ℕ
  pub ecr : ℕ

-- The global variables, the blocks of `MEM_REGIONS` among them.
pub record Simulator : Type 0 where
  pub current : CpuState
  pub next : CpuState
  pub mem : Store
  pub run_bit : Bool
  pub prev_pc : ℕ
  pub rt_as_src : Bool
  pub wr_link_reg : Bool
  pub instr_count : ℕ
  pub instruction_count : ℕ
  pub instr_opcode : ℕ

abbrev pub mem_text_start : ℕ
mem_text_start = 0x00000000

-- `MEM_REGIONS`: text, data, stack, kernel data, kernel text.
abbrev pub mem_regions : List Region
mem_regions =
    record { start = mem_text_start; size = 0x1fff }
    ∷ record { start = 0x00002000; size = 0x100000 }
    ∷ record { start = 0x7ff00000; size = 0x100000 }
    ∷ record { start = 0x90000000; size = 0x100000 }
    ∷ record { start = 0x80000000; size = 0x100000 }
    ∷ []

abbrev pub mem_read_32 : Store → ℕ → Option ℕ
mem_read_32 = Memory.mem_read_32 mem_regions

abbrev pub mem_write_32 : Store → ℕ → ℕ → Option Store
mem_write_32 = Memory.mem_write_32 mem_regions

-- `CURRENT_STATE.REGS[i]`.
abbrev pub reg : Simulator → ℕ → ℕ
reg s i = s.current.regs i

-- `NEXT_STATE.PC = v`.
abbrev pub set_pc : ℕ → Simulator → Simulator
set_pc v s = let c = s.next in record s { next = record c { pc = v } }

-- `NEXT_STATE.PC = CURRENT_STATE.PC + 4`.
abbrev pub next_pc : Simulator → Simulator
next_pc s = set_pc (u32 (s.current.pc + 4)) s

-- `NEXT_STATE.REGS[i] = v`.
abbrev pub set_reg : ℕ → ℕ → Simulator → Simulator
set_reg i v s = let c = s.next in record s { next = record c { regs = update c.regs i v } }

-- `NEXT_STATE.HI = h` and `NEXT_STATE.LO = l`.
abbrev pub set_hi : ℕ → Simulator → Simulator
set_hi h s = let c = s.next in record s { next = record c { hi = h } }

abbrev pub set_lo : ℕ → Simulator → Simulator
set_lo l s = let c = s.next in record s { next = record c { lo = l } }
