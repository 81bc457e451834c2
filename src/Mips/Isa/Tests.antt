-- ===== src/Mips/Isa/Tests.antt =====
-- A program of two instructions: `addi $2, $0, 10` and the exit system call.
use simple_cpu.Base.{
  Option, ℕ, inl, List, [], ◌∷◌, ◌↔◌, ◌+◌, ◌%◌, ◌^◌, ◌≡◌, refl, arith, true, false, some, update,
}
use simple_cpu.Memory
use simple_cpu.Memory.{Store, in_region, locate, load_word, put_bytes, store_word}
use simple_cpu.Memory.Laws.{mem_write_32-IsBytes}
use simple_cpu.Driver.{returned, exited}
use simple_cpu.Driver.Trace.{here, next}
use simple_cpu.Mips.Machine.{CpuState, Simulator, mem_regions, mem_read_32}
use simple_cpu.Mips.State.{IsSteady}
use simple_cpu.Mips.Encode.{encode_r, encode_i}
use simple_cpu.Mips.Isa.{jalr, addi, alu_imm, syscall, advance}
use simple_cpu.Mips.Isa.Code.{encode}
use simple_cpu.Mips.Isa.Refine.{retired, cycle-perform}
use simple_cpu.Mips.Isa.Trace.{View, Executes, perform, go-Executes}
use simple_cpu.Mips.Isa.Program.{main-Executes}
use simple_cpu.Mips.Main.{main}
use simple_cpu.Memory.Image.Laws.{IsLayout, IsLoaded}
use simple_cpu.Mips.Compare.Lockstep.{Report, r_report, i_report, j_report, check, lockstep}
use simple_cpu.Mips.Compare.Laws.{Agrees, check-Agrees_iff}
use simple_cpu.Mips.Compare.Run.{Watched, ended, watched, Expects, lockstep-Watched, lockstep-jalr}
use simple_cpu.Mips.Run.{cycle, go}

abbrev at_start : CpuState
at_start = record { pc = 0; regs = λ i. 0; hi = 0; lo = 0; epc = 0; esr = 0; ecr = 0 }

abbrev one_word : Store
one_word = update (λ r o. 0) 0 (put_bytes (λ o. 0) 0 0x2002000a)

abbrev two_words : Store
two_words = update one_word 0 (put_bytes (one_word 0) 4 0xc)

abbrev machine : Simulator
machine = record {
  current = at_start;
  next = at_start;
  mem = two_words;
  run_bit = true;
  prev_pc = 0;
  rt_as_src = false;
  wr_link_reg = false;
  instr_count = 0;
  instruction_count = 0;
  instr_opcode = 0;
}

machine-IsSteady : IsSteady machine
unfolding Memory.mem_write_32 locate in_region store_word
machine-IsSteady = (
  refl,
  (refl, λ i. omega arith, omega arith, omega arith, omega arith),
  mem_write_32-IsBytes mem_regions one_word two_words 4 0xc
      (mem_write_32-IsBytes mem_regions (λ r o. 0) one_word 0 0x2002000a (λ r o. omega arith) refl)
      refl,
)

abbrev ten_in_two : CpuState
ten_in_two = record at_start { pc = 4; regs = update (λ i. 0) 2 10 }

fetch : mem_read_32 two_words 0 ≡ some (encode (alu_imm addi 2 0 10))
unfolding Memory.mem_read_32 locate in_region load_word put_bytes encode_i
fetch = refl

fetch_exit : mem_read_32 two_words 4 ≡ some (encode syscall)
unfolding Memory.mem_read_32 locate in_region load_word put_bytes encode_r
fetch_exit = refl

cycle-perform_example :
    cycle machine ≡ some (retired (alu_imm addi 2 0 10) machine (ten_in_two, two_words))
cycle-perform_example =
    cycle-perform (alu_imm addi 2 0 10) machine (omega arith, omega arith, omega arith)
      machine-IsSteady fetch

added : Executes (ten_in_two, two_words) 1 (at_start, two_words)
added =
    next (perform (alu_imm addi 2 0 10) (omega arith, omega arith, omega arith) fetch refl refl)
      here

go-Executes_example :
    (t : Simulator) × (go 2 machine ≡ returned t)
    × (t.current ≡ advance ten_in_two)
    × (t.mem ≡ two_words)
    × (t.instruction_count % 2 ^ 32 ≡ (0 + (1 + 1)) % 2 ^ 32)
go-Executes_example =
    go-Executes 1 2 machine (ten_in_two, two_words) machine-IsSteady refl added fetch_exit refl
      (omega arith)

abbrev seen_ten : List (Option Report)
seen_ten = some (i_report 0 0x2002000a 0 2 0 10) ∷ []

saw_ten : Watched (ten_in_two, two_words) seen_ten (at_start, two_words)
unfolding encode_i
saw_ten =
    watched (alu_imm addi 2 0 10) (omega arith, omega arith, omega arith) refl fetch refl refl ended

lockstep-Watched_example :
    (t : Simulator) × (lockstep seen_ten machine ≡ returned t) × Expects t (ten_in_two, two_words)
lockstep-Watched_example =
    lockstep-Watched seen_ten machine (at_start, two_words) (ten_in_two, two_words)
      ((machine-IsSteady, refl, refl, refl), refl) saw_ten

check-Agrees_iff_example :
    ((check (j_report 0 0 31 4) machine).0 ≡ true) ↔ Agrees (j_report 0 0 31 4) machine
check-Agrees_iff_example = check-Agrees_iff (j_report 0 0 31 4) machine

-- addi $2, $0, 10; syscall
abbrev ten_and_exit : List ℕ
ten_and_exit = 0x2002000a ∷ 0xc ∷ []

abbrev first_two : List ℕ
first_two = 0 ∷ 4 ∷ []

layout : IsLayout mem_regions ten_and_exit first_two
unfolding locate in_region
layout = (
  omega arith,
  (record { region = 0; size = 0x1fff; offset = 0 }, refl, omega arith),
  (inl (omega arith), tt),
  (omega arith, (record { region = 0; size = 0x1fff; offset = 4 }, refl, omega arith), tt, tt),
)

finishes :
    (m : Store)
    → IsLoaded mem_regions m ten_and_exit first_two
    → Executes (ten_in_two, m) 1 (at_start, m) × (mem_read_32 m 4 ≡ some (encode syscall))
unfolding encode_r encode_i
finishes m (fetched, (exit, _)) = (
  next (perform (alu_imm addi 2 0 10) (omega arith, omega arith, omega arith) fetched refl refl)
      here,
  exit,
)

main-Executes_example :
    (t : Simulator) × (z : View) × (main 2 (some ten_and_exit) (some first_two) machine
      ≡ returned t)
    × (t.current ≡ advance z.0)
    × (t.mem ≡ z.1)
    × (z.0.regs 2 ≡ 10)
main-Executes_example =
    main-Executes ten_and_exit first_two 1 2 machine (λ z. z.0.regs 2 ≡ 10) machine-IsSteady.1
      machine-IsSteady.2 layout
      (λ m _ loaded.
        let (steps, exit) = finishes m loaded in ((ten_in_two, m), steps, exit, refl, refl))
      (omega arith)

-- jalr $1, $2
abbrev jumping : Simulator
jumping = record machine { mem = update (λ r o. 0) 0 (put_bytes (λ o. 0) 0 0x00400809) }

jumping-IsSteady : IsSteady jumping
unfolding Memory.mem_write_32 locate in_region store_word
jumping-IsSteady = (
  refl,
  machine-IsSteady.1,
  mem_write_32-IsBytes mem_regions (λ r o. 0) jumping.mem 0 0x00400809 (λ r o. omega arith) refl,
)

abbrev jumped : CpuState
jumped = record at_start { pc = 0; regs = update (λ i. 0) 31 4 }

fetch_jump : mem_read_32 jumping.mem 0 ≡ some (encode (jalr 1 2))
unfolding Memory.mem_read_32 locate in_region load_word put_bytes encode_r
fetch_jump = refl

lockstep-jalr_example :
    lockstep (some (r_report 0 (encode (jalr 1 2)) 31 2 31 4 0 0) ∷ []) jumping
    ≡ exited (record (retired (jalr 1 2) jumping (jumped, jumping.mem)) { run_bit = false })
lockstep-jalr_example =
    lockstep-jalr 1 2 [] jumping (at_start, jumping.mem) (jumped, jumping.mem)
      ((jumping-IsSteady, refl, refl, refl), refl) (omega arith, omega arith, omega arith)
      fetch_jump refl
