-- ===== src/Riscv/Generator/State.antt =====
-- The globals of risc-v/hex_gen/src/hex_gen_shared.h, `init_hex_gen`, and `update_cpu` and
-- `print_to_file` of hex_gen.c.
use simple_cpu.Base.{ℕ, ◌-◌, ◌+◌, ◌&&◌, List, leb, ltb, update, if◌then◌else◌}
use simple_cpu.Driver.{Outcome, returned, fault}
use simple_cpu.HexGen.{imem_size, clear, printed, print_rounds}
use simple_cpu.Riscv.Machine.{Simulator, mem_text_start}

-- The arrays by index, the counters, the simulator that the tool is linked with, and how many numbers
-- `rand` has given.
pub record Generator : Type 0 where
  pub sim : Simulator
  pub pc : ℕ → ℕ
  pub instr : ℕ → ℕ
  pub ls_addr : ℕ → ℕ
  pub br_addr : ℕ → ℕ
  pub instr_gen : ℕ
  pub err_count : ℕ
  pub drawn : ℕ

unfoldable pub init_hex_gen : Generator → Generator
init_hex_gen g = record g {
  pc = clear imem_size 0 g.pc;
  instr = clear imem_size 0 g.instr;
  ls_addr = clear imem_size 0 g.ls_addr;
  br_addr = clear imem_size 0 g.br_addr;
  instr_gen = 0;
  err_count = 0;
}

-- An index before or past the arrays is a fault.
unfoldable pub update_cpu : ℕ → ℕ → Generator → Outcome Generator
update_cpu pc hex_instr g =
    let s = g.sim in
    let i = pc - mem_text_start in
    if leb mem_text_start pc && ltb pc (mem_text_start + imem_size)
    then returned (record g {
      pc = update g.pc i 1;
      instr = update g.instr i hex_instr;
      sim = record s { prev_pc = s.current.pc };
    })
    else fault

unfoldable pub print_to_file : Generator → List ℕ × List ℕ
print_to_file g = printed mem_text_start print_rounds 0 g.pc g.instr
