-- ===== src/Mips/Tests.antt =====
-- The theorems about the MIPS simulator at concrete states: the exit system call at the start of the
-- text segment, words of the generator, single instructions.
use simple_cpu.Base.{
  List, [], ◌∷◌, ℕ, ◌+◌, ◌*◌, ◌%◌, ◌^◌, ◌<◌, ◌⊎◌, ◌≡◌, is_neg, refl, arith, true, false, not, ◌&&◌,
  ◌||◌, some, u32, update,
}
use simple_cpu.Memory
use simple_cpu.Memory.{Store, in_region, locate, load_word, put_bytes, store_word}
use simple_cpu.Driver
use simple_cpu.Driver.{returned}
use simple_cpu.Mips.Machine.{CpuState, Simulator, mem_read_32, next_pc, mem_regions, mem_text_start}
use simple_cpu.Mips.Encode.{encode_r}
use simple_cpu.Mips.Execute.Register.{is_shift, execute_shift, execute_alu, execute_r, decode_r}
use simple_cpu.Mips.Execute.Special.{divide, execute_special}
use simple_cpu.Mips.Execute.Division.{divide_lem}
use simple_cpu.Mips.Isa.{distance}
use simple_cpu.Mips.Run.{decode_instr_type, dispatch, process_instruction, cycle, run, go}
use simple_cpu.Mips.Run.Cycle.{is_exit, cycle-frame}
use simple_cpu.Mips.Run.Halt.{go-exit}
use simple_cpu.Memory.Laws.{IsBytes, mem_write_32-IsBytes}
use simple_cpu.Mips.State.{IsSteady}
use simple_cpu.Mips.Run.Steady.{cycle-IsSteady, run-IsSteady}
use simple_cpu.Memory.Image.Laws.{IsLoaded}
use simple_cpu.Mips.Loader.{init}
use simple_cpu.Mips.Loader.Laws.{init-IsLoaded}
use simple_cpu.Mips.Fields.Formats
use simple_cpu.Mips.Fields.Formats.{Format, i_format, assemble, dispatch-execute}
use simple_cpu.Mips.Fields.{dispatch-encode_r_zero}

-- Register 2 has 10, the rest 0.
abbrev at_exit : CpuState
at_exit = record { pc = 0; regs = update (λ i. 0) 2 10; hi = 0; lo = 0; epc = 0; esr = 0; ecr = 0 }

abbrev exit_word : ℕ
exit_word = 0xc

abbrev machine : Simulator
machine = record {
  current = at_exit;
  next = at_exit;
  mem = update (λ r o. 0) 0 (put_bytes (λ o. 0) 0 exit_word);
  run_bit = true;
  prev_pc = 0;
  rt_as_src = false;
  wr_link_reg = false;
  instr_count = 0;
  instruction_count = 0;
  instr_opcode = 0;
}

abbrev moved_on : CpuState
moved_on = record at_exit { pc = 4 }

abbrev stopped : Simulator
stopped = record machine {
  current = moved_on;
  next = moved_on;
  run_bit = false;
  instr_count = 1;
  instruction_count = 1;
  instr_opcode = exit_word;
}

fetch : mem_read_32 machine.mem 0 ≡ some exit_word
unfolding Memory.mem_read_32 locate in_region load_word put_bytes
fetch = refl

cycle-stopped : cycle machine ≡ some stopped
unfolding cycle process_instruction Memory.mem_read_32 locate in_region load_word put_bytes dispatch
    decode_instr_type decode_r execute_r execute_shift execute_alu execute_special
cycle-stopped = refl

ran_one : run 1 machine ≡ returned stopped
unfolding Driver.run
ran_one = rw (cycle-stopped, Driver.run) refl

go-stopped : go 1 machine ≡ returned stopped
unfolding Driver.go Driver.while_running
go-stopped = rw (cycle-stopped, Driver.while_running) refl

go-exit_example :
    (k : ℕ) × (t : Simulator) × (w : ℕ) × (run k machine ≡ returned t)
    × (mem_read_32 t.mem t.current.pc ≡ some w)
    × (is_exit w t ≡ true)
    × (cycle t ≡ some stopped)
go-exit_example = go-exit 1 machine stopped go-stopped refl

machine-IsSteady : IsSteady machine
unfolding Memory.mem_write_32 locate in_region store_word
machine-IsSteady = (
  refl,
  (refl, λ i. ground arith, omega arith, omega arith, omega arith),
  mem_write_32-IsBytes mem_regions (λ r o. 0) machine.mem 0 exit_word (λ r o. omega arith) refl,
)

cycle-IsSteady_example : IsSteady stopped
cycle-IsSteady_example = cycle-IsSteady machine stopped machine-IsSteady cycle-stopped

run-IsSteady_example :
    IsSteady stopped
    × (stopped.instruction_count % 2 ^ 32 ≡ (machine.instruction_count + 1) % 2 ^ 32)
run-IsSteady_example = run-IsSteady 1 machine stopped machine-IsSteady ran_one

cycle-frame_example :
    (stopped.run_bit ≡ (machine.run_bit && not (is_exit exit_word machine)))
    × (stopped.current ≡ stopped.next)
    × (stopped.instr_opcode ≡ exit_word)
    × (stopped.prev_pc ≡ machine.prev_pc)
    × (stopped.instr_count ≡ u32 (machine.instr_count + 1))
    × (stopped.instruction_count ≡ u32 (machine.instruction_count + 1))
cycle-frame_example = cycle-frame machine stopped exit_word fetch cycle-stopped

-- `lw` with a negative offset.
abbrev load_back : Format
load_back = i_format 0x23 3 4 0xfffc

dispatch-execute_example :
    dispatch (decode_instr_type (assemble load_back)) (assemble load_back) machine
    ≡ Formats.execute load_back machine
dispatch-execute_example = dispatch-execute load_back machine (
  λ e. omega arith,
  λ e. omega arith,
  λ e. omega arith,
  omega arith,
  omega arith,
  omega arith,
  omega arith,
)

abbrev exit_program : List ℕ
exit_program = 0xc ∷ []

abbrev exit_addresses : List ℕ
exit_addresses = 0x100 ∷ []

init-IsLoaded_example :
    (s' : Simulator) × (init
        (some exit_program)
        (some exit_addresses)
        (record machine { mem = λ r o. 0 })
      ≡ returned s')
    × (s'.next ≡ s'.current)
    × (s'.current ≡ (record at_exit { pc = mem_text_start }))
    × (s'.run_bit ≡ true)
    × IsBytes s'.mem
    × IsLoaded mem_regions s'.mem exit_program exit_addresses
unfolding locate in_region
init-IsLoaded_example =
    init-IsLoaded exit_program exit_addresses (record machine { mem = λ r o. 0 })
      (λ r o. omega arith)
      (
        omega arith,
        (record { region = 0; size = 0x1fff; offset = 0x100 }, refl, omega arith),
        tt,
        tt,
      )

-- `jr $31`
dispatch-encode_r_zero_example :
    dispatch (decode_instr_type (encode_r 31 0 0 0 8)) (encode_r 31 0 0 0 8) machine
    ≡ some (next_pc (record machine { rt_as_src = is_shift 8 || machine.rt_as_src }))
dispatch-encode_r_zero_example =
    dispatch-encode_r_zero 31 0 0 8 machine (omega arith) (omega arith) (omega arith) (omega arith)
      (λ e. omega arith)

-- -7 by 2.
divide_lem_example :
    (s' : Simulator) × (divide 0xfffffff9 2 machine ≡ some s')
    × ((s'.next.lo * 2 + s'.next.hi) % 2 ^ 32 ≡ 0xfffffff9)
    × (distance s'.next.lo * 2 + distance s'.next.hi ≡ 7)
    × (distance s'.next.hi < 2)
    × ((s'.next.hi ≡ 0) ⊎ (is_neg s'.next.hi ≡ true))
    × (s'.next.pc ≡ (machine.current.pc + 4) % 2 ^ 32)
    × (s'.next.regs ≡ machine.next.regs)
divide_lem_example = divide_lem 0xfffffff9 2 machine (omega arith) (omega arith) (omega arith) refl
