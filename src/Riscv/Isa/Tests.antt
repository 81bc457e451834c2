-- ===== src/Riscv/Isa/Tests.antt =====
-- A program of one instruction from its files to its end.
use simple_cpu.Base.{ℕ, ◌≡◌, refl, arith, inl, false, some, List, [], ◌∷◌, update}
use simple_cpu.Memory.{Store, locate, in_region}
use simple_cpu.Memory.Image.Laws.{IsLayout, IsLoaded}
use simple_cpu.Driver.{returned}
use simple_cpu.Driver.Trace.{Steps, here, next}
use simple_cpu.Riscv.Machine.{CpuState, Simulator, mem_regions, mem_read_32}
use simple_cpu.Riscv.Encode.{encode_i}
use simple_cpu.Riscv.Isa.{addi, alu_imm}
use simple_cpu.Riscv.Isa.Trace.{View, Step, perform}
use simple_cpu.Riscv.Isa.Program.{main-Steps}
use simple_cpu.Riscv.Loader.{init_memory}
use simple_cpu.Riscv.Main.{main}

abbrev blank : CpuState
blank = record { pc = 0; regs = λ i. 0 }

abbrev globals : Simulator
globals = record {
  current = blank;
  next = blank;
  mem = λ r o. 0;
  run_bit = false;
  prev_pc = 0;
  instr_count = 0;
  instruction_count = 0;
  instr_opcode = 0;
}

-- addi x5, x0, 7; a word of no type
abbrev seven : List ℕ
seven = 0x00700293 ∷ 0 ∷ []

abbrev first_two : List ℕ
first_two = 0x2000 ∷ 0x2004 ∷ []

layout : IsLayout mem_regions seven first_two
unfolding locate in_region
layout = (
  omega arith,
  (record { region = 0; size = 0x1fff; offset = 0 }, refl, omega arith),
  (inl (omega arith), tt),
  (omega arith, (record { region = 0; size = 0x1fff; offset = 4 }, refl, omega arith), tt, tt),
)

abbrev five_is_seven : CpuState
five_is_seven = record { pc = 0x2004; regs = update (λ i. 0) 5 7 }

finishes :
    (m : Store)
    → IsLoaded mem_regions m seven first_two
    → Steps Step (five_is_seven, m) 1 ((init_memory false globals).current, m)
      × (mem_read_32 m 0x2004 ≡ some 0)
unfolding encode_i init_memory
finishes m (fetched, (last, _)) = (
  next (perform (alu_imm addi 5 0 7) (omega arith, omega arith, omega arith) fetched refl) here,
  last,
)

main-Steps_example :
    (t : Simulator) × (z : View) × (main false 2 (some seven) (some first_two) globals ≡ returned t)
    × (t.current ≡ z.0)
    × (t.mem ≡ z.1)
    × (z.0.regs 5 ≡ 7)
main-Steps_example =
    main-Steps false seven first_two 1 2 globals (λ z. z.0.regs 5 ≡ 7)
      (record { zero_reg = refl; words = λ i. omega arith; pc_word = omega arith })
      (λ r o. omega arith) layout
      (λ m _ loaded.
        let (steps, last) = finishes m loaded in ((five_is_seven, m), 0, steps, last, refl, refl))
      (omega arith)
