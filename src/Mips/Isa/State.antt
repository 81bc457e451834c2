-- ===== src/Mips/Isa/State.antt =====
-- The state of the simulator around one instruction.
use simple_cpu.Base.{ℕ, ◌+◌, false, u32, if◌then◌else◌}
use simple_cpu.Memory.{Store}
use simple_cpu.Mips.Machine.{CpuState, Simulator}
use simple_cpu.Mips.Isa.{Instr, is_shift, is_link, is_exit}

-- Fetched, with `NEXT_STATE` still in step and the flags cleared.
abbrev pub fetched : ℕ → Simulator → Simulator
fetched w s = record s {
  next = s.current;
  rt_as_src = false;
  wr_link_reg = false;
  instr_opcode = w;
}

-- Executed: the instruction has left the given processor state and memory.
abbrev pub executed : ℕ → Instr → Simulator → CpuState × Store → Simulator
executed w i s (c, m) = record s {
  next = c;
  mem = m;
  run_bit = if is_exit i s.current then false else s.run_bit;
  rt_as_src = is_shift i;
  wr_link_reg = is_link i;
  instr_opcode = w;
}

-- After the cycle.
abbrev pub finished : Simulator → Simulator
finished d = record d {
  current = d.next;
  instr_count = u32 (d.instr_count + 1);
  instruction_count = u32 (d.instruction_count + 1);
}
