-- ===== src/Riscv/Run/Hang.antt =====
-- Words of a known type for which the `switch` has no case: `NEXT_STATE.PC` is not moved on.
use simple_cpu.Base.{
  ℕ, zero, suc, ◌/◌, ◌%◌, ◌^◌, ◌≡◌, refl, arith, Bool, true, ◌&&◌, ◌||◌, some, ◌==◌, leb,
  bit_and_mask, ap, inl, inr, Bool-cases,
}
use simple_cpu.Riscv.Machine.{Simulator, mem_read_32}
use simple_cpu.Riscv.State.{IsReady}
use simple_cpu.Riscv.Execute.Immediate.{execute_i, decode_i}
use simple_cpu.Riscv.Execute.Load.{execute_load}
use simple_cpu.Riscv.Execute.Transfer.{execute_s, decode_s, execute_b, decode_b}
use simple_cpu.Riscv.Run.{InstrType, i_type, s_type, b_type, decode_instr_type, dispatch, cycle, go}
use simple_cpu.Driver
use simple_cpu.Driver.{out_of_fuel}
use simple_cpu.Riscv.Isa.Refine.{fetched, retired, cycle_of}

-- Shift-immediates and `andi` of the arithmetic opcode, and the unused `funct3` values of the loads,
-- stores and branches.
abbrev pub has_no_case : ℕ → Bool
has_no_case w =
    let opcode = w % 2 ^ 7 in
    let funct3 = w / 2 ^ 12 % 2 ^ 3 in
    (opcode == 0x13 && (funct3 == 1 || funct3 == 5 || funct3 == 7))
    || (opcode == 0x03 && (funct3 == 3 || funct3 == 6))
    || (opcode == 0x23 && leb 3 funct3)
    || (opcode == 0x63 && (funct3 == 2 || funct3 == 3))

execute_i-idle :
    (opcode f3 rs1 rd imm : ℕ) (s : Simulator)
    → ((opcode == 0x13 && (f3 == 1 || f3 == 5 || f3 == 7))
        || (opcode == 0x03 && (f3 == 3 || f3 == 6)))
      ≡ true
    → execute_i f3 opcode rs1 rd imm s ≡ some s
unfolding execute_i execute_load
execute_i-idle opcode f3 rs1 rd imm s h = ground arith

execute_s-idle :
    (f3 rs1 rs2 imm : ℕ) (s : Simulator) → leb 3 f3 ≡ true → execute_s f3 rs1 rs2 imm s ≡ some s
unfolding execute_s
execute_s-idle f3 rs1 rs2 imm s h = ground arith

execute_b-idle :
    (f3 rs1 rs2 imm : ℕ) (s : Simulator)
    → (f3 == 2 || f3 == 3) ≡ true
    → execute_b f3 rs1 rs2 imm s ≡ s
unfolding execute_b
execute_b-idle f3 rs1 rs2 imm s h = ground arith

decode_i-idle :
    (w : ℕ) (s : Simulator)
    → ((w % 2 ^ 7 == 0x13
          && (w / 2 ^ 12 % 2 ^ 3 == 1 || w / 2 ^ 12 % 2 ^ 3 == 5 || w / 2 ^ 12 % 2 ^ 3 == 7))
        || (w % 2 ^ 7 == 0x03 && (w / 2 ^ 12 % 2 ^ 3 == 3 || w / 2 ^ 12 % 2 ^ 3 == 6)))
      ≡ true
    → decode_i w s ≡ some s
unfolding decode_i
decode_i-idle w s h =
    rw (bit_and_mask 7 w, bit_and_mask 3 (w / 2 ^ 12)) (execute_i-idle _ _ _ _ _ s h)

decode_s-idle : (w : ℕ) (s : Simulator) → leb 3 (w / 2 ^ 12 % 2 ^ 3) ≡ true → decode_s w s ≡ some s
unfolding decode_s
decode_s-idle w s h = rw (bit_and_mask 3 (w / 2 ^ 12)) (execute_s-idle _ _ _ _ s h)

decode_b-idle :
    (w : ℕ) (s : Simulator)
    → (w / 2 ^ 12 % 2 ^ 3 == 2 || w / 2 ^ 12 % 2 ^ 3 == 3) ≡ true
    → decode_b w s ≡ s
unfolding decode_b
decode_b-idle w s h = rw (bit_and_mask 3 (w / 2 ^ 12)) (execute_b-idle _ _ _ _ s h)

-- Such a word is dispatched by its type, and changes nothing.
dispatch-idle :
    (w : ℕ) (s : Simulator)
    → has_no_case w ≡ true
    → (t : InstrType) × (decode_instr_type w s ≡ (t, s)) × (dispatch t w s ≡ some s)
unfolding decode_instr_type dispatch
dispatch-idle w s h = elim (Bool-cases (w % 2 ^ 7 == 0x23)) [
  | inl store ↦ (s_type, ground (arith, bit_and_mask 7 w), decode_s-idle w s (ground arith))
  | inr no_store ↦ elim (Bool-cases (w % 2 ^ 7 == 0x63)) [
    | inl jump ↦
        (b_type, ground (arith, bit_and_mask 7 w), ap some (decode_b-idle w s (ground arith)))
    | inr no_branch ↦ (i_type, ground (arith, bit_and_mask 7 w), decode_i-idle w s (ground arith))
  ]
]

-- A cycle on a word of a known type without a `case`, in a ready state, succeeds and leaves the
-- registers, the memory and the program counter as they are; it only records and counts the word.
cycle-idle :
    (s : Simulator) (w : ℕ)
    → IsReady s
    → mem_read_32 s.mem s.current.pc ≡ some w
    → has_no_case w ≡ true
    → cycle s ≡ some (retired w s (s.current, s.mem))
cycle-idle s w r f h =
    let (t, type, same) = dispatch-idle w (fetched w s) h in cycle_of s w t _ r.synced f type same

hangs :
    (fuel : ℕ) (s : Simulator) (w : ℕ)
    → IsReady s
    → s.run_bit ≡ true
    → mem_read_32 s.mem s.current.pc ≡ some w
    → has_no_case w ≡ true
    → Driver.while_running (λ t. t.run_bit) cycle fuel s ≡ out_of_fuel
unfolding Driver.while_running
hangs zero s w r on f h = rw (on, Driver.while_running)
hangs (suc fuel) s w r on f h =
    let ready : IsReady (retired w s (s.current, s.mem)) = record {
      synced = refl;
      state = r.state;
      bytes = r.bytes;
    } in
    rw (on, Driver.while_running)
      (rw (cycle-idle s w r f h, Driver.while_running)
        (hangs fuel (retired w s (s.current, s.mem)) w ready on f h))

-- Once a ready simulator that runs has a word of a known type without a `case` at its program
-- counter (`andi` as the standard encodes it, the shifts by an immediate, unused `funct3`
-- values), `go` does not return: no fuel is enough.
pub go-hangs :
    (fuel : ℕ) (s : Simulator) (w : ℕ)
    → IsReady s
    → s.run_bit ≡ true
    → mem_read_32 s.mem s.current.pc ≡ some w
    → has_no_case w ≡ true
    → go fuel s ≡ out_of_fuel
unfolding Driver.go
go-hangs fuel s w r on f h = rw (on, Driver.go) (hangs fuel s w r on f h)
