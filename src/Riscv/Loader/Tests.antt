-- ===== src/Riscv/Loader/Tests.antt =====
-- The start of the simulator and the checks at concrete inputs.
use simple_cpu.Base.{ℕ, ◌≡◌, ◌↔◌, ◌⊎◌, inl, refl, arith, true, false, some, List, [], ◌∷◌}
use simple_cpu.Memory.{locate, in_region}
use simple_cpu.Memory.Image.Laws.{IsLayout, IsLoaded}
use simple_cpu.Driver.{returned}
use simple_cpu.Riscv.Machine.{CpuState, Simulator, mem_regions, mem_text_start}
use simple_cpu.Riscv.State.{IsReady}
use simple_cpu.Riscv.Loader.{init}
use simple_cpu.Riscv.Loader.Laws.{init-IsReady}
use simple_cpu.Riscv.Compare.Lockstep.{r_report, check}
use simple_cpu.Riscv.Compare.Laws.{Agrees, check_iff, check-effect}

abbrev zeroed : CpuState
zeroed = record { pc = 0; regs = λ i. 0 }

-- The global variables of C before `init`.
abbrev globals : Simulator
globals = record {
  current = zeroed;
  next = zeroed;
  mem = λ r o. 0;
  run_bit = false;
  prev_pc = 0;
  instr_count = 0;
  instruction_count = 0;
  instr_opcode = 0;
}

abbrev program : List ℕ
program = 0x00700293 ∷ 0x00000000 ∷ []

abbrev addresses : List ℕ
addresses = 0x2000 ∷ 0x2004 ∷ []

program-IsLayout : IsLayout mem_regions program addresses
unfolding locate in_region
program-IsLayout = (
  omega arith,
  (record { region = 0; size = 0x1fff; offset = 0 }, refl, omega arith),
  (inl (omega arith), tt),
  (omega arith, (record { region = 0; size = 0x1fff; offset = 4 }, refl, omega arith), tt, tt),
)

init-IsReady_example :
    (s' : Simulator) × (init true (some program) (some addresses) globals ≡ returned s')
    × IsReady s'
    × (s'.current.pc ≡ mem_text_start)
    × (s'.run_bit ≡ true)
    × IsLoaded mem_regions s'.mem program addresses
init-IsReady_example =
    init-IsReady true program addresses globals
      (record { zero_reg = refl; words = λ i. omega arith; pc_word = omega arith })
      (λ r o. omega arith) program-IsLayout

abbrev add_five : ℕ
add_five = 0x006282b3

abbrev executed : Simulator
executed = record globals { instr_opcode = add_five }

-- `add x5, x5, x6`, which reads what it writes.

check_iff_example :
    ((check (r_report 0 add_five 5 5 6 0 1 0) executed).0 ≡ true)
    ↔ Agrees (r_report 0 add_five 5 5 6 0 1 0) executed
check_iff_example = check_iff (r_report 0 add_five 5 5 6 0 1 0) executed

check-effect_example :
    (check (r_report 8 add_five 5 5 6 0 1 0) globals ≡ (true, record globals { prev_pc = 0 }))
    ⊎ (check (r_report 8 add_five 5 5 6 0 1 0) globals
        ≡ (false, record globals { run_bit = false }))
check-effect_example = check-effect (r_report 8 add_five 5 5 6 0 1 0) globals
