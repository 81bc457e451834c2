-- ===== src/Mips/Run/Frame.antt =====
-- What an instruction leaves alone: everything but `NEXT_STATE`, the memory and the two flags of the
-- checks; only `SYSCALL` clears `RUN_BIT`.
use simple_cpu.Base.{
  ℕ, ◌%◌, ◌^◌, ◌≡◌, arith, Bool, not, ◌&&◌, Option, some, ◌==◌, bit_and, bit_and_mask,
}
use simple_cpu.Mips.Machine.{Simulator}
use simple_cpu.Mips.Execute.Special.{multiply, divide, divide_unsigned, execute_special}
use simple_cpu.Mips.Execute.Register.{execute_shift, execute_alu, execute_r, decode_r}
use simple_cpu.Mips.Execute.Branch.{branch, link, execute_bvar, execute_branch}
use simple_cpu.Mips.Execute.Immediate.{finish_i, execute_immediate}
use simple_cpu.Mips.Execute.Access.{finish_store, execute_load, execute_store, execute_i, decode_i}
use simple_cpu.Mips.Execute.Jump.{execute_j, decode_j}

abbrev pub SameRest : Simulator → Simulator → Type 0
SameRest s d =
    (d.current ≡ s.current)
    × (d.prev_pc ≡ s.prev_pc)
    × (d.instr_count ≡ s.instr_count)
    × (d.instruction_count ≡ s.instruction_count)
    × (d.instr_opcode ≡ s.instr_opcode)

abbrev pub RFrame : ℕ → Simulator → Simulator → Type 0
RFrame funct s d =
    (d.run_bit ≡ (s.run_bit && not (funct == 0xc && s.current.regs 2 == 0xa))) × SameRest s d

abbrev pub IFrame : Simulator → Simulator → Type 0
IFrame s d = (d.run_bit ≡ s.run_bit) × SameRest s d

execute_special-RFrame :
    (funct rs rt rd : ℕ) (s d : Simulator)
    → execute_special funct rs rt rd s ≡ some d
    → RFrame funct s d
unfolding execute_special multiply divide divide_unsigned
execute_special-RFrame funct rs rt rd s d e = ground arith

execute_alu-RFrame :
    (funct rs rt rd : ℕ) (s d : Simulator) (next_case : Option Simulator)
    → (next_case ≡ some d → RFrame funct s d)
    → execute_alu funct rs rt rd s next_case ≡ some d
    → RFrame funct s d
unfolding execute_alu
execute_alu-RFrame funct rs rt rd s d next_case h e = ground arith

execute_shift-RFrame :
    (funct rs rt rd shamt : ℕ) (s d : Simulator) (next_case : Option Simulator)
    → (next_case ≡ some d → RFrame funct s d)
    → execute_shift funct rs rt rd shamt s next_case ≡ some d
    → RFrame funct s d
unfolding execute_shift
execute_shift-RFrame funct rs rt rd shamt s d next_case h e = ground arith

execute_r-RFrame :
    (rs rt rd shamt funct : ℕ) (s d : Simulator)
    → execute_r rs rt rd shamt funct s ≡ some d
    → RFrame funct s d
unfolding execute_r
execute_r-RFrame rs rt rd shamt funct s d e =
    let special = execute_special-RFrame funct rs rt rd s d in
    let alu = execute_alu-RFrame funct rs rt rd s d (execute_special funct rs rt rd s) special in
    let all =
      execute_shift-RFrame funct rs rt rd shamt s d
        (execute_alu funct rs rt rd s (execute_special funct rs rt rd s)) alu in
    ground (arith, all)

branch-IFrame : (b : Bool) (imm : ℕ) (s : Simulator) → IFrame s (branch b imm s)
unfolding branch
branch-IFrame b imm s = ground arith

execute_bvar-IFrame : (rs rt imm : ℕ) (s : Simulator) → IFrame s (execute_bvar rs rt imm s)
unfolding execute_bvar link branch
execute_bvar-IFrame rs rt imm s = ground arith

module _ (opcode rs rt imm : ℕ) (s d : Simulator) where
  module _ (next_case : Option Simulator) (h : next_case ≡ some d → IFrame s d) where
    execute_branch-IFrame : execute_branch opcode rs rt imm s next_case ≡ some d → IFrame s d
    unfolding execute_branch branch
    execute_branch-IFrame e = ground arith

    execute_immediate-IFrame : execute_immediate opcode rs rt imm s next_case ≡ some d → IFrame s d
    unfolding execute_immediate finish_i
    execute_immediate-IFrame e = ground arith

    execute_load-IFrame : execute_load opcode rs rt imm s next_case ≡ some d → IFrame s d
    unfolding execute_load finish_i
    execute_load-IFrame e = ground arith

    execute_store-IFrame : execute_store opcode rs rt imm s next_case ≡ some d → IFrame s d
    unfolding execute_store finish_store
    execute_store-IFrame e = ground arith

  execute_i-IFrame : execute_i opcode rs rt imm s ≡ some d → IFrame s d
  unfolding execute_i
  execute_i-IFrame e =
      execute_branch-IFrame _
        (execute_immediate-IFrame _ (
          execute_load-IFrame _
            (execute_store-IFrame _ (λ f. ground (arith, execute_bvar-IFrame rs rt imm s)))))
        e

pub decode_r-RFrame : (w : ℕ) (s d : Simulator) → decode_r w s ≡ some d → RFrame (w % 2 ^ 6) s d
unfolding decode_r
decode_r-RFrame w s d e = rw (bit_and_mask 6 w) at (execute_r-RFrame _ _ _ _ (bit_and w 0x3f) s d e)

pub decode_i-IFrame : (w : ℕ) (s d : Simulator) → decode_i w s ≡ some d → IFrame s d
unfolding decode_i
decode_i-IFrame w s d e = execute_i-IFrame _ _ _ _ s d e

pub decode_j-IFrame : (w : ℕ) (s : Simulator) → IFrame s (decode_j w s)
unfolding decode_j execute_j link
decode_j-IFrame w s = ground arith
