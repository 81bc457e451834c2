-- ===== src/Lib.antt =====
-- SimpleCPU: the instruction set simulators of the two processors, RISC-V (risc-v/iss/src) and
-- MIPS (mips/iss/src), each a fetch-execute loop over global variables that a Verilog test bench
-- drives by `init`, `run` and the `compare_` functions and that a generator of test programs
-- (hex_gen) uses to find the effect of the words it makes: it writes a word at the program
-- counter, runs one cycle, and marks the place in its arrays.
--
-- Base: the Boolean tests, words of 32 bits with their wrap-around, `<<` and `>>` as `<<<` and
-- `>>>`, bit masks as arithmetic. Base/Test, Base/Word, Base/Bits.
--
-- Memory: `mem_region_t`, `mem_read_32` and `mem_write_32` of main.c, which are the same in both
-- simulators; the table of regions is an argument, and the search through it, which both functions
-- write out in the same words, is `locate`. An address of no region reads as 0 and ignores a
-- write, as in the code; `none` is an access past the block of its region, which C leaves
-- undefined. Memory/Image: the fill of `init_memory`, the reading loop of `load_program`;
-- Memory/Laws and Memory/Image/Laws prove.
--
-- Extend: the table `shift_const` of both sim.c and the idiom that extends a sign with it.
--
-- Driver: the loops `run` and `go` of main.c over any cycle. `go` repeats while `RUN_BIT` is set,
-- which need not end, so the model of it takes fuel, one unit a round, and has an outcome for fuel
-- that is used up; Driver/Laws relates the two loops and shows that more fuel than rounds changes
-- nothing; Driver/Trace describes runs as a relation.
--
-- Riscv: Riscv/Machine has `CPU_State`, the other globals and `MEM_REGIONS`; Riscv/Opcode the
-- constants of risc-v/shared/riscv_instr_defines.h; Riscv/Execute the functions `execute_` and
-- `decode_` of sim.c for the types R, I (with the loads), S, B, U and J; Riscv/Run
-- `decode_instr_type`, `process_instruction`, `cycle`, `run`, `go`; Riscv/Loader the start in
-- main.c, Riscv/Main its `main`; Riscv/Compare the checks, Riscv/Compare/Lockstep the loop of
-- risc-v/riscv-pipeline/testbench/top_tb.sv that runs a cycle and calls the check of the
-- instruction's type, up to the 200th instruction; Riscv/Encode the words of
-- risc-v/hex_gen/src/hex_gen.c. Riscv/State is the invariant, Riscv/Isa a description of the
-- instruction set that does not look at the code (Riscv/Isa/Code its words); Riscv/Isa/Refine and
-- Riscv/Fields prove against it, Riscv/Isa/Trace about runs and Riscv/Isa/Program about whole
-- programs, Riscv/Compare/Run about hardware that implements it, with Accept for one check.
--
-- Mips: the same parts for mips/iss/src. Mips/Execute/Register and Special are `execute_r`,
-- Branch, Immediate and Access are `execute_i`, Jump is `execute_j`. Mips/State is the invariant,
-- which Mips/Run/Keep and Steady prove. Mips/Isa is the description of the instruction set, with
-- its words in Code and operands in Range; Alu, Flow and Refine prove that a cycle implements it,
-- Trace is about runs and Program about whole programs. Mips/Compare/Lockstep is the loop of
-- mips/mips-single-cycle/testbench/top_tb.sv, with Kept, Accept and Run for its proofs; the
-- registers that its reports name are those of top.v, which takes 31 for a link. A `switch` that
-- is cut into several definitions passes on what the remaining cases give.
--
-- HexGen: `IMEM_SIZE` and the loops over the arrays that both generators have: the clearing of
-- `init_hex_gen`, the search of `make_room` (2047 rounds, every fourth place from 4 on), the
-- printing of `print_to_file` (2048 rounds). HexGen/Laws proves what they find and print.
-- HexGen/Arguments is what the readings of `argv` share; `Arguments` of each generator has the
-- loop of its `main`, and `atoi`, which gives the bit pattern of an `int`, is a parameter; the
-- numbers asked for are added and compared as `int`.
--
-- Mips/Generator: mips/hex_gen/src. State has the globals of hex_gen_shared.h and the simulator's,
-- which the tool is linked with, `init_hex_gen` and `update_cpu`; Check the three checks of
-- addresses; Emit what ends every `gen_` function (`load_instr_opcode`, `run (1)`, `update_cpu`,
-- `instr_gen++`), `gen_j` and `make_room`; Random `gen_r_instr`, `gen_i_instr` and `gen_j_instr`
-- with given or random fields; Mix `gen_instr_hex`, `gen_end_seq` and `main`; Print
-- `print_to_file`; Api hex_gen_api.c; Directed all functions of hex_gen_instr_api.c. Tame,
-- Recorded, Invariant, Choices, Program and EndSeq lead to the theorems of Files about whole
-- programs; Room is about `make_room`, Ends about a `goto`, Check/Laws and Api/Laws about those
-- parts.
--
-- Riscv/Generator: risc-v/hex_gen/src in the same way. Fields has the tables of constants and the
-- checks on fields, Choose the `gen_` functions; Advance, Choices and Program prove what each does
-- to the simulator and to the count of instructions. The arms of `gen_s_instr` and `gen_b_instr`
-- for given fields read `opcode` before it is set: what it holds is a parameter.
--
-- `rand` is the library's, so the generators take the sequence of its numbers as an argument, and
-- count how many are drawn. A `goto` that draws again may never end, so choices take fuel;
-- `gen_instr_hex` hands its fuel on and spends one unit a round. An index past an array, an `int`
-- that overflows and an access past a block are a fault.
--
-- The globals are a record that every function takes and returns; assignments are made in the
-- order of the code. `uint32_t` and `int` are their bit patterns below 2 ^ 32, with `% 2 ^ 32`
-- where C wraps; a comparison of `int32_t` compares the signed readings. Registers are a function
-- of their index. Functions that can fault return an Option. The files of `load_program` are the
-- lists of the words that `fscanf` reads; `none` is a file that cannot be opened.
--
-- Not modelled: output (`printf`, `mdump`, `rdump`, the `print_assembled_` functions with the
-- search for the name they print), the opening of files and their names, `srand`, the Verilog of
-- the processors apart from the two loops above,
-- mips/mips-single-cycle_from_textbook/verilog/mips.h (Verilog macros), the unused copy
-- mips/hex_gen/src/hex_gen_bak.h, test programs and scripts.
pub mod Base
pub mod Memory
pub mod Extend
pub mod Driver
pub mod HexGen
pub mod Riscv
pub mod Mips
