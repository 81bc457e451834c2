-- ===== src/Mips/Generator/Tests.antt =====
-- Concrete runs of the MIPS generator.
use simple_cpu.Base.{
  ◌⊎◌, ℕ, ◌≡◌, ◌≢◌, ◌%◌, refl, arith, Bool, true, false, some, none, ◌+◌, ◌*◌, ◌<◌, ◌≤◌, ◌^◌, ◌==◌,
  ltb, ltb→lt, ◌↔◌, ◌⊎◌, update, Bool-cases, ==_iff, inl, inr, sym,
}
use simple_cpu.Memory
use simple_cpu.Memory.{locate, in_region, store_word, put_bytes, load_word}
use simple_cpu.Memory.Image.{fill_regions}
use simple_cpu.Memory.Laws.{IsBytes}
use simple_cpu.HexGen.{add_all, add_int, clear, find_room, room_rounds}
use simple_cpu.HexGen.Laws.{searched, find_room-taken}
use simple_cpu.Extend
use simple_cpu.Driver
use simple_cpu.Driver.{Outcome, returned, exited, fault, out_of_fuel}
use simple_cpu.Mips.Machine.{Simulator, CpuState, mem_read_32, mem_text_start}
use simple_cpu.Mips.Encode.{encode_r, encode_i, encode_j}
use simple_cpu.Mips.Loader.{init, init_memory, load_instr_opcode}
use simple_cpu.Mips.Run.{decode_instr_type, dispatch, process_instruction, cycle}
use simple_cpu.Mips.Execute.Register.{execute_shift, execute_alu, execute_r, decode_r}
use simple_cpu.Mips.Execute.Special.{execute_special}
use simple_cpu.Mips.Execute.Branch.{branch, execute_branch}
use simple_cpu.Mips.Execute.Immediate.{finish_i, execute_immediate}
use simple_cpu.Mips.Execute.Access.{finish_store, execute_load, execute_store, execute_i, decode_i}
use simple_cpu.Mips.Execute.Jump.{execute_j, decode_j}
use simple_cpu.Mips.Generator.State.{Generator, init_hex_gen, update_cpu}
use simple_cpu.Mips.Generator.Emit.{execute, count, emit, gen_j, has_room, readable, make_room}
use simple_cpu.Mips.Generator.Check.{check_ls_addr, check_brn_addr, check_j_addr}
use simple_cpu.Mips.Generator.Random.{
  retarget, check_ls, is_branch, check_brn, check_i, emit_i, gen_r_instr, random_r_instr, redraw,
  choose_i, random_i_instr, choose_j, gen_j_instr,
}
use simple_cpu.Mips.Opcode
use simple_cpu.Mips.Run.Effect.{access_address}
use simple_cpu.Mips.Generator.Check.Laws.{check_brn_addr_iff, check_ls_addr-access}
use simple_cpu.Mips.Generator.Ends.{is_target, choose_j-Ends}
use simple_cpu.Mips.Generator.Recorded.{IsPlaced}
use simple_cpu.Mips.Generator.Room.{make_room-free}
use simple_cpu.Mips.Generator.Print.{print_to_file}
use simple_cpu.Mips.Generator.Mix.{generate, gen_end_seq, round, mix, gen_instr_hex}
use simple_cpu.Mips.Generator.Files.{started, gen_instr_hex-IsRecorded, generate-init}

-- A sequence of numbers for `rand`.
abbrev rising : ℕ → ℕ
rising n = n + 4

abbrev blank_cpu : CpuState
blank_cpu = record { pc = 0; regs = λ i. 0; hi = 0; lo = 0; epc = 0; esr = 0; ecr = 0 }

abbrev blank_sim : Simulator
blank_sim = record {
  current = blank_cpu;
  next = blank_cpu;
  mem = λ r o. 0;
  run_bit = true;
  prev_pc = 0;
  rt_as_src = false;
  wr_link_reg = false;
  instr_count = 0;
  instruction_count = 0;
  instr_opcode = 0;
}

abbrev blank : Generator
blank = record {
  sim = blank_sim;
  pc = λ i. 0;
  instr = λ i. 0;
  ls_addr = λ i. 0;
  br_addr = λ i. 0;
  instr_gen = 0;
  err_count = 0;
  drawn = 0;
}

abbrev is_returned : Outcome Generator → Bool
is_returned (returned g) = true
is_returned (exited g) = false
is_returned fault = false
is_returned out_of_fuel = false

abbrev result : Outcome Generator → Generator
result (returned g) = g
result (exited g) = g
result fault = blank
result out_of_fuel = blank

returned-result : (o : Outcome Generator) → is_returned o ≡ true → o ≡ returned (result o)
returned-result (returned g) e = refl
returned-result (exited g) e = absurd (cc e)
returned-result fault e = absurd (cc e)
returned-result out_of_fuel e = absurd (cc e)

abbrev mixed : Outcome Generator
mixed = gen_instr_hex rising 2 1 1 40 (started blank)

abbrev written : Generator
written = result mixed

abbrev whole : Outcome Generator
whole = generate rising 2 1 1 40 blank

abbrev ended : Generator
ended = result whole

blank-IsBytes : IsBytes blank.sim.mem
blank-IsBytes r o = omega arith

mixed-written :
    (mixed ≡ returned written)
    × (ltb (written.sim.current.pc + 8) 0x2000 ≡ true)
    × (has_room written.sim.current.pc written.pc ≡ true)
    × (has_room (written.sim.current.pc + 4) written.pc ≡ true)
    × (whole ≡ returned ended)
unfolding generate gen_end_seq execute_special gen_instr_hex add_all add_int mix round make_room
    readable has_room find_room random_r_instr gen_r_instr emit execute count update_cpu
    load_instr_opcode Memory.mem_write_32 Memory.mem_read_32 locate in_region store_word put_bytes
    load_word Driver.run cycle process_instruction dispatch decode_instr_type decode_r execute_r
    execute_shift execute_alu decode_i execute_i execute_branch branch execute_immediate finish_i
    execute_load execute_store finish_store decode_j execute_j encode_r encode_i encode_j retarget
    check_ls check_brn check_i emit_i redraw choose_i random_i_instr choose_j gen_j_instr
    check_ls_addr check_brn_addr check_j_addr is_branch gen_j init_hex_gen init_memory clear
    fill_regions Extend.shift_const Extend.extend
mixed-written = (returned-result mixed refl, refl, refl, refl, returned-result whole refl)

gen_instr_hex-IsRecorded_example :
    (written.instr_gen ≡ 4)
    × ((written.instr_gen ≡ 0) ⊎ (written.pc 0 ≢ 0))
    × (((written.pc 0 ≡ 0) × (written.instr 0 ≡ 0))
        ⊎ ((written.pc 0 ≢ 0)
            × (0 % 4 ≡ 0)
            × (written.instr 0 < 2 ^ 32)
            × (mem_read_32 written.sim.mem 0 ≡ some (written.instr 0))))
gen_instr_hex-IsRecorded_example =
    gen_instr_hex-IsRecorded rising 2 1 1 40 blank written blank-IsBytes mixed-written.0 0
      (omega arith)

generate-init_example :
    (ended.instr written.sim.current.pc ≡ 0x2002000a)
    × (ended.instr (written.sim.current.pc + 4) ≡ 0x0000000c)
    × (ended.pc written.sim.current.pc ≡ 1)
    × (ended.pc (written.sim.current.pc + 4) ≡ 1)
    × (s' : Simulator) × (init
          (some (print_to_file ended).1)
          (some (print_to_file ended).0)
          blank_sim
        ≡ returned s')
    × (s'.next ≡ s'.current)
    × (s'.current.pc ≡ mem_text_start)
    × (s'.run_bit ≡ true)
    × (((ended.pc 0 ≡ 0) × (ended.instr 0 ≡ 0))
        ⊎ ((ended.pc 0 ≢ 0)
            × (mem_read_32 s'.mem 0 ≡ some (ended.instr 0))
            × (mem_read_32 s'.mem 0 ≡ mem_read_32 ended.sim.mem 0)))
generate-init_example =
    generate-init rising 2 1 1 40 blank written ended blank_sim 0 blank-IsBytes mixed-written.0
      (ltb→lt _ _ mixed-written.1) mixed-written.2 mixed-written.3 mixed-written.4 blank-IsBytes
      (omega arith)

-- A register with an address of the data segment, and one place taken.
abbrev busy_cpu : CpuState
busy_cpu = record blank_cpu { regs = update (λ i. 0) 1 0x2100 }

abbrev busy : Generator
busy = record blank { sim = record blank_sim { current = busy_cpu }; pc = update (λ i. 0) 4 1 }

check_brn_addr_iff_example :
    (check_brn_addr 2 busy ≡ 12)
    ↔ (((branch true 2 busy.sim).next.pc ≡ 12) × (0 < 12) × (12 ≤ 0x1f00) × (busy.pc 12 ≡ 0))
check_brn_addr_iff_example = check_brn_addr_iff 2 12 busy (λ e. omega arith)

busy-addr : check_ls_addr 1 8 busy ≡ 0x2108
unfolding check_ls_addr Extend.extend
busy-addr = refl

check_ls_addr-access_example :
    (check_ls_addr 1 8 busy ≡ access_address 1 8 busy.sim)
    × (execute_i Opcode.lw 1 5 8 busy.sim ≢ none)
    × (execute_i Opcode.sw 1 5 8 busy.sim ≢ none)
check_ls_addr-access_example =
    check_ls_addr-access 1 5 8 busy (λ e. omega (arith, busy-addr, e))
      (λ e. omega (arith, busy-addr, e))

first-searched : searched (find_room room_rounds 4 busy.pc) (4 + 4 * room_rounds) ≡ 8
unfolding find_room
first-searched = refl

find_room-taken_example : (busy.pc 4 ≢ 0) ⊎ (busy.pc (4 + 4) ≢ 0)
find_room-taken_example =
    find_room-taken room_rounds 4 4 busy.pc (omega arith) (omega (arith, first-searched)) refl

-- The place after the next is taken by a word of the memory.
abbrev crowded : Generator
crowded = record blank { pc = update (λ i. 0) 4 1 }

crowded-IsPlaced : IsPlaced crowded
unfolding Memory.mem_read_32 locate in_region load_word
crowded-IsPlaced = (
  blank-IsBytes,
  refl,
  refl,
  λ a h here. elim (Bool-cases (4 == a)) [
    | inl at ↦ let same : 4 ≡ a = (==_iff 4 a).0 at in rw (sym same) (refl, omega arith, refl)
    | inr apart ↦ absurd (ground (arith, apart, here))
  ],
)

abbrev jumped : Outcome Generator
jumped = make_room crowded

jumped-returned : jumped ≡ returned (result jumped)
unfolding make_room readable has_room find_room execute update_cpu load_instr_opcode
    Memory.mem_write_32 Memory.mem_read_32 locate in_region store_word put_bytes load_word
    Driver.run cycle process_instruction dispatch decode_instr_type decode_j execute_j gen_j
jumped-returned = returned-result jumped refl

make_room-free_example :
    ((result jumped).sim.current.pc + 4 < 0x2000)
    × (crowded.pc (result jumped).sim.current.pc ≡ 0)
    × (crowded.pc ((result jumped).sim.current.pc + 4) ≡ 0)
make_room-free_example = make_room-free crowded (result jumped) crowded-IsPlaced jumped-returned

accepted : is_target (rising (0 + 3) % 0x3ffffff) busy ≡ true
unfolding check_j_addr
accepted = refl

choose_j-Ends_example : choose_j rising 4 Opcode.j busy ≢ out_of_fuel
choose_j-Ends_example = choose_j-Ends rising 3 4 Opcode.j busy accepted (omega arith)
