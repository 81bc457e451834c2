-- ===== src/Riscv/Generator/Tests.antt =====
-- A concrete run of the RISC-V generator.
use simple_cpu.Base.{List, [], ◌∷◌, ℕ, ◌+◌, ◌≡◌, refl, arith, Bool, true, false}
use simple_cpu.Memory
use simple_cpu.Memory.{locate, in_region, store_word, put_bytes, load_word}
use simple_cpu.Memory.Image.{fill_regions}
use simple_cpu.HexGen.{add_int, add_all, clear, find_room}
use simple_cpu.Extend
use simple_cpu.Driver
use simple_cpu.Driver.{Outcome, returned, exited, fault, out_of_fuel}
use simple_cpu.Riscv.Machine.{Simulator, CpuState}
use simple_cpu.Riscv.State.{IsReady}
use simple_cpu.Riscv.Encode.{encode_r, encode_u}
use simple_cpu.Riscv.Loader.{preload, init_memory, load_instr_opcode}
use simple_cpu.Riscv.Run.{decode_instr_type, dispatch, process_instruction, cycle}
use simple_cpu.Riscv.Execute.Register.{execute_r, decode_r}
use simple_cpu.Riscv.Execute.Transfer.{execute_u, decode_u}
use simple_cpu.Riscv.Generator.State.{Generator, init_hex_gen, update_cpu}
use simple_cpu.Riscv.Generator.Emit.{execute, count, emit, gen_j, has_room, readable, make_room}
use simple_cpu.Riscv.Generator.Choose.{gen_r_instr, gen_u_instr, random_r_instr, random_u_instr}
use simple_cpu.Riscv.Generator.Mix.{Counts, total, round, mix, gen_instr_hex, generate}
use Prim.Native.String.{String}
use simple_cpu.HexGen.Arguments.{next_value}
use simple_cpu.Riscv.Generator.Arguments.{assign, parse, main, main-IsReady}

-- A sequence of numbers for `rand`.
abbrev rising : ℕ → ℕ
rising n = n + 4

abbrev blank_cpu : CpuState
blank_cpu = record { pc = 0; regs = λ i. 0 }

abbrev blank_sim : Simulator
blank_sim = record {
  current = blank_cpu;
  next = blank_cpu;
  mem = λ r o. 0;
  run_bit = true;
  prev_pc = 0;
  instr_count = 0;
  instruction_count = 0;
  instr_opcode = 0;
}

abbrev blank : Generator
blank = record {
  sim = blank_sim;
  pc = λ i. 0;
  instr = λ i. 0;
  ls_addr = λ i. 0;
  br_addr = λ i. 0;
  instr_gen = 0;
  err_count = 0;
  drawn = 0;
}

abbrev is_returned : Outcome Generator → Bool
is_returned (returned g) = true
is_returned (exited g) = false
is_returned fault = false
is_returned out_of_fuel = false

abbrev result : Outcome Generator → Generator
result (returned g) = g
result (exited g) = g
result fault = blank
result out_of_fuel = blank

returned-result : (o : Outcome Generator) → is_returned o ≡ true → o ≡ returned (result o)
returned-result (returned g) e = refl
returned-result (exited g) e = absurd (cc e)
returned-result fault e = absurd (cc e)
returned-result out_of_fuel e = absurd (cc e)

-- An instruction of type R and one of type U.
abbrev wanted : Counts
wanted = record { r = 1; i = 0; s = 0; b = 0; u = 1; j = 0 }

abbrev whole : Outcome Generator
whole = generate rising wanted 40 true blank

abbrev ended : Generator
ended = result whole

whole-ended : whole ≡ returned ended
unfolding generate gen_instr_hex total add_all add_int mix round make_room readable has_room gen_j
    find_room clear emit execute count update_cpu init_hex_gen init_memory preload fill_regions
    random_r_instr gen_r_instr random_u_instr gen_u_instr load_instr_opcode Driver.run cycle
    process_instruction dispatch decode_instr_type decode_r execute_r decode_u execute_u encode_r
    encode_u Memory.mem_read_32 Memory.mem_write_32 locate in_region load_word store_word put_bytes
    Extend.extend Extend.shift_const
whole-ended = returned-result whole refl

-- `hex_gen -r 1 -u 1`
abbrev argv : List String
argv = "hex_gen" ∷ "-r" ∷ "1" ∷ "-u" ∷ "1" ∷ []

-- Stands for the library's function.
abbrev atoi_one : String → ℕ
atoi_one s = 1

main-ended : main atoi_one rising 40 true argv blank ≡ returned ended
unfolding main parse assign next_value
main-ended = whole-ended

main-IsReady_example : IsReady ended.sim × (ended.instr_gen ≡ 2)
unfolding next_value
main-IsReady_example =
    main-IsReady atoi_one rising 40 true argv blank ended refl
      (record { zero_reg = refl; words = λ i. omega arith; pc_word = omega arith })
      (λ r o. omega arith) main-ended
