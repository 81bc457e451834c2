-- ===== src/Riscv/State.antt =====
-- The invariant of the simulator's state.
use simple_cpu.Base.{ℕ, ◌^◌, ◌<◌, ◌≡◌}
use simple_cpu.Memory.Laws.{IsBytes}
use simple_cpu.Riscv.Machine.{CpuState, Simulator}

-- Register 0 is 0, the rest are words, and so is the program counter.
pub record IsState (c : CpuState) : Type 0 where
  pub zero_reg : c.regs 0 ≡ 0
  pub words : (i : ℕ) → c.regs i < 2 ^ 32
  pub pc_word : c.pc < 2 ^ 32

-- While an instruction is executed.
pub record IsGood (s : Simulator) : Type 0 where
  pub old : IsState s.current
  pub new : IsState s.next
  pub bytes : IsBytes s.mem

-- Between cycles: `NEXT_STATE` is `CURRENT_STATE`.
pub record IsReady (s : Simulator) : Type 0 where
  pub synced : s.next ≡ s.current
  pub state : IsState s.current
  pub open state use *
  pub bytes : IsBytes s.mem
