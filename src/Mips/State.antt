-- ===== src/Mips/State.antt =====
-- The invariant of the simulator's state.
use simple_cpu.Base.{ℕ, ◌^◌, ◌<◌, ◌≡◌}
use simple_cpu.Memory.Laws.{IsBytes}
use simple_cpu.Mips.Machine.{CpuState, Simulator}

-- Register 0 is 0, and all registers, the program counter, `HI` and `LO` are words.
abbrev pub IsState : CpuState → Type 0
IsState c =
    (c.regs 0 ≡ 0)
    × ((i : ℕ) → c.regs i < 2 ^ 32)
    × (c.pc < 2 ^ 32)
    × (c.hi < 2 ^ 32)
    × (c.lo < 2 ^ 32)

-- While an instruction is executed.
pub record IsGood (s : Simulator) : Type 0 where
  pub old : IsState s.current
  pub new : IsState s.next
  pub bytes : IsBytes s.mem

-- Between cycles: `NEXT_STATE` is `CURRENT_STATE`.
abbrev pub IsSteady : Simulator → Type 0
IsSteady s = (s.next ≡ s.current) × IsState s.current × IsBytes s.mem
