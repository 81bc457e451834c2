-- ===== src/Mips/Generator/State.antt =====
-- The globals of mips/hex_gen/src/hex_gen_shared.h, `init_hex_gen`, and `update_cpu` of hex_gen.c.
use simple_cpu.HexGen.{imem_size, clear}
use simple_cpu.Base.{ℕ, ltb, update, if◌then◌else◌}
use simple_cpu.Driver.{Outcome, returned, fault}
use simple_cpu.Mips.Machine.{Simulator}

-- The arrays by index, the counters, the simulator that the tool is linked with, and how many numbers
-- `rand` has given.
pub record Generator : Type 0 where
  pub sim : Simulator
  pub pc : ℕ → ℕ
  pub instr : ℕ → ℕ
  pub ls_addr : ℕ → ℕ
  pub br_addr : ℕ → ℕ
  pub instr_gen : ℕ
  pub err_count : ℕ
  pub drawn : ℕ

-- `br_addr` is not cleared.
unfoldable pub init_hex_gen : Generator → Generator
init_hex_gen g = record g {
  pc = clear imem_size 0 g.pc;
  instr = clear imem_size 0 g.instr;
  ls_addr = clear imem_size 0 g.ls_addr;
  instr_gen = 0;
  err_count = 0;
}

-- An index past the arrays is a fault.
unfoldable pub update_cpu : ℕ → ℕ → Generator → Outcome Generator
update_cpu pc hex_instr g =
    let s = g.sim in
    if ltb pc imem_size
    then returned (record g {
      pc = update g.pc pc 1;
      instr = update g.instr pc hex_instr;
      sim = record s { prev_pc = s.current.pc };
    })
    else fault
