-- ===== src/Riscv/Tests.antt =====
-- The theorems about the RISC-V simulator at concrete states: an `addi` at the start of the text
-- segment, an unknown opcode, an `andi`.
use simple_cpu.Base.{
  Option, ℕ, List, [], ◌∷◌, ◌+◌, ◌%◌, ◌^◌, ◌<◌, ◌≤◌, ◌-◌, ◌≡◌, refl, arith, true, false, ◌&&◌, ◌⊎◌,
  some, u32, update,
}
use simple_cpu.Memory.{Store, in_region, locate, load_word, put_bytes, store_word}
use simple_cpu.Memory
use simple_cpu.Memory.Laws.{mem_write_32-IsBytes, read-write}
use simple_cpu.Driver
use simple_cpu.Driver.{returned, out_of_fuel}
use simple_cpu.Riscv.Machine.{
  CpuState, Simulator, mem_regions, mem_read_32, mem_text_start, next_pc,
}
use simple_cpu.Riscv.State.{IsReady}
use simple_cpu.Extend.{shift_const, extend}
use simple_cpu.Riscv.Encode.{encode_i}
use simple_cpu.Riscv.Execute.Transfer.{execute_b}
use simple_cpu.Riscv.Fields.Formats
use simple_cpu.Riscv.Fields.Formats.{Format, b_format, assemble, dispatch-assemble}
use simple_cpu.Riscv.Generator.State.{Generator}
use simple_cpu.Riscv.Generator.Check.{is_free, check_brn_addr, decode_brn_result}
use simple_cpu.Riscv.Generator.Check.Laws.{check_b-passed}
use simple_cpu.Riscv.Generator.Fields.{SFields, passed, check_b}
use simple_cpu.Riscv.Run.{decode_instr_type, dispatch, cycle, run, go}
use simple_cpu.Riscv.Run.Cycle.{is_known, cycle-IsReady, cycle-rest}
use simple_cpu.Riscv.Run.Loop.{run-IsReady}
use simple_cpu.Riscv.Run.Hang.{go-hangs}
use simple_cpu.Riscv.Isa.{addi, alu_imm}
use simple_cpu.Riscv.Isa.Code.{encode}
use simple_cpu.Riscv.Isa.Refine.{retired, cycle-step}
use simple_cpu.Riscv.Isa.Trace.{Step, perform, go-Steps}
use simple_cpu.Riscv.Compare.Lockstep.{Report, i_report, lockstep}
use simple_cpu.Riscv.Compare.Run.{Observed, ended, observed, Expects, lockstep-Observed}
use simple_cpu.Driver.Trace.{Steps, here, next}

abbrev blank : Store
blank r o = 0

abbrev at_start : CpuState
at_start = record { pc = mem_text_start; regs = λ i. 0 }

-- The memory with one word at the start of the text segment.
abbrev holding : ℕ → Store
holding w = update blank 0 (put_bytes (λ o. 0) 0 w)

abbrev machine : ℕ → Simulator
machine w = record {
  current = at_start;
  next = at_start;
  mem = holding w;
  run_bit = true;
  prev_pc = mem_text_start;
  instr_count = 0;
  instruction_count = 0;
  instr_opcode = 0;
}

machine-IsReady : (w : ℕ) → IsReady (machine w)
unfolding Memory.mem_write_32 locate in_region store_word
machine-IsReady w = record {
  synced = refl;
  state = record { zero_reg = refl; words = λ i. omega arith; pc_word = omega arith };
  bytes =
      mem_write_32-IsBytes mem_regions blank (holding w) mem_text_start w (λ r o. omega arith) refl;
}

fetch : (w : ℕ) → w < 2 ^ 32 → mem_read_32 (machine w).mem mem_text_start ≡ some w
unfolding Memory.mem_write_32 locate in_region store_word
fetch w h =
    read-write mem_regions blank (holding w) mem_text_start w (λ r o. omega arith) refl h
      (λ e. cc e)

-- `addi x5, x0, 7`
abbrev add_seven : ℕ
add_seven = 0x00700293

abbrev five_is_seven : CpuState
five_is_seven = record { pc = 0x2004; regs = update (λ i. 0) 5 7 }

abbrev added : Simulator
added = retired add_seven (machine add_seven) (five_is_seven, holding add_seven)

encode_seven : encode (alu_imm addi 5 0 7) ≡ add_seven
unfolding encode_i
encode_seven = refl

cycle-step_example : cycle (machine add_seven) ≡ some added
unfolding encode_i
cycle-step_example =
    cycle-step (alu_imm addi 5 0 7) (machine add_seven) (omega arith, omega arith, omega arith)
      (machine-IsReady add_seven) (fetch add_seven (omega arith))

cycle-added : cycle (machine add_seven) ≡ some added
unfolding encode_i
cycle-added =
    cycle-step (alu_imm addi 5 0 7) (machine add_seven) (omega arith, omega arith, omega arith)
      (machine-IsReady add_seven) (fetch add_seven (omega arith))

cycle-IsReady_example : IsReady added
cycle-IsReady_example =
    cycle-IsReady (machine add_seven) added (machine-IsReady add_seven) cycle-added

cycle-rest_example :
    (added.run_bit ≡ (true && is_known add_seven))
    × (added.instr_opcode ≡ add_seven)
    × (added.prev_pc ≡ mem_text_start)
    × (added.instr_count ≡ u32 (0 + 1))
    × (added.instruction_count ≡ u32 (0 + 1))
cycle-rest_example =
    cycle-rest (machine add_seven) added add_seven (fetch add_seven (omega arith)) cycle-added

ran_one : run 1 (machine add_seven) ≡ returned added
unfolding Driver.run
ran_one = rw (cycle-added, Driver.run) refl

run-IsReady_example : IsReady added × (1 % 2 ^ 32 ≡ (0 + 1) % 2 ^ 32)
run-IsReady_example = run-IsReady 1 (machine add_seven) added (machine-IsReady add_seven) ran_one

no_code : mem_read_32 (holding add_seven) 0x2004 ≡ some 0
unfolding Memory.mem_read_32 locate in_region load_word put_bytes
no_code = refl

ran-Steps : Steps Step (five_is_seven, holding add_seven) 1 (at_start, holding add_seven)
unfolding encode_i
ran-Steps =
    next
      (perform (alu_imm addi 5 0 7) (omega arith, omega arith, omega arith)
        (fetch add_seven (omega arith)) refl)
      here

go-Steps_example :
    (t : Simulator) × (go 2 (machine add_seven) ≡ returned t)
    × (t.current ≡ five_is_seven)
    × (t.mem ≡ holding add_seven)
    × (t.instruction_count % 2 ^ 32 ≡ (0 + (1 + 1)) % 2 ^ 32)
go-Steps_example =
    go-Steps 1 2 (machine add_seven) (five_is_seven, holding add_seven) 0
      (machine-IsReady add_seven) refl ran-Steps no_code refl (omega arith)

abbrev seen_seven : List (Option Report)
seen_seven = some (i_report 0x2000 add_seven 5 0 7 0) ∷ []

saw_seven : Observed (five_is_seven, holding add_seven) seen_seven (at_start, holding add_seven)
unfolding encode_i
saw_seven =
    observed (alu_imm addi 5 0 7) (omega arith, omega arith, omega arith)
      (fetch add_seven (omega arith)) refl ended

lockstep-Observed_example :
    (t : Simulator) × (lockstep seen_seven 199 (machine add_seven) ≡ returned t)
    × Expects t (five_is_seven, holding add_seven)
lockstep-Observed_example =
    lockstep-Observed seen_seven 199 (machine add_seven) (at_start, holding add_seven)
      (five_is_seven, holding add_seven) ((machine-IsReady add_seven, refl, refl, refl), refl)
      saw_seven (omega arith)

-- `andi x5, x0, 7`
abbrev and_seven : ℕ
and_seven = 0x00707293

go-hangs_example : go 1000 (machine and_seven) ≡ out_of_fuel
go-hangs_example =
    go-hangs 1000 (machine and_seven) and_seven (machine-IsReady and_seven) refl
      (fetch and_seven (omega arith)) refl

-- A branch with all four parts of its offset.
abbrev far_branch : Format
far_branch = b_format 0x1abc 4 5 1

dispatch-assemble_example :
    (let (type, s') = decode_instr_type (assemble far_branch) (machine 0) in
      dispatch type (assemble far_branch) s')
    ≡ Formats.execute far_branch (machine 0)
dispatch-assemble_example =
    dispatch-assemble far_branch (machine 0)
      (omega arith, refl, omega arith, omega arith, omega arith)

-- `beq x1, x2, 8`, which is taken, at the start of an empty program.
abbrev fields : SFields
fields = record { funct3 = 0; rs1 = 1; rs2 = 2; imm = 8 }

abbrev generator : Generator
generator = record {
  sim = machine 0;
  pc = λ i. 0;
  instr = λ i. 0;
  ls_addr = λ i. 0;
  br_addr = λ i. 0;
  instr_gen = 0;
  err_count = 0;
  drawn = 0;
}

abbrev targeted : Generator
targeted = record generator { br_addr = update (λ i. 0) 1 0x2008 }

check_b-targeted : check_b false fields generator ≡ passed targeted
unfolding check_b check_brn_addr decode_brn_result is_free extend shift_const
check_b-targeted = refl

check_b-passed_example :
    (execute_b 0 1 2 8 generator.sim ≡ next_pc generator.sim)
    ⊎ ((0x2000 < (execute_b 0 1 2 8 generator.sim).next.pc)
        × ((execute_b 0 1 2 8 generator.sim).next.pc ≤ 0x3f00)
        × (generator.pc ((execute_b 0 1 2 8 generator.sim).next.pc - 0x2000) ≡ 0)
        × (targeted.br_addr 1 ≡ (execute_b 0 1 2 8 generator.sim).next.pc))
check_b-passed_example = check_b-passed fields generator targeted refl check_b-targeted
