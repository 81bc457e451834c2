-- ===== src/Riscv/Run/Frame.antt =====
-- What an instruction leaves alone: everything but `NEXT_STATE` and the memory.
use simple_cpu.Base.{ℕ, ◌≡◌, ◌≢◌, refl, arith, some, bit_and, bit_or, ◌<<<◌, ◌>>>◌}
use mathlib.Core.Path.{subst}
use mathlib.Core.Option.{some-injective}
use simple_cpu.Extend.{shift_const, extend}
use simple_cpu.Riscv.Machine.{Simulator}
use simple_cpu.Riscv.Execute.Register.{execute_r, decode_r}
use simple_cpu.Riscv.Execute.Immediate.{finish_i, execute_jalr, execute_i, decode_i}
use simple_cpu.Riscv.Execute.Load.{finish_load, execute_load}
use simple_cpu.Riscv.Execute.Transfer.{
  finish_store, execute_s, decode_s, branch, execute_b, decode_b, execute_u, decode_u, execute_j,
  decode_j,
}
use simple_cpu.Riscv.Run.{
  InstrType, r_type, i_type, s_type, b_type, u_type, j_type, no_type, dispatch,
}

abbrev pub SameRest : Simulator → Simulator → Type 0
SameRest s s' =
    (s'.current ≡ s.current)
    × (s'.run_bit ≡ s.run_bit)
    × (s'.prev_pc ≡ s.prev_pc)
    × (s'.instr_count ≡ s.instr_count)
    × (s'.instruction_count ≡ s.instruction_count)
    × (s'.instr_opcode ≡ s.instr_opcode)

execute_r-SameRest :
    (rs1 rs2 rd f7 f3 : ℕ) (s : Simulator) → SameRest s (execute_r rs1 rs2 rd f7 f3 s)
unfolding execute_r
execute_r-SameRest rs1 rs2 rd f7 f3 s = ground arith

execute_b-SameRest : (f3 rs1 rs2 imm : ℕ) (s : Simulator) → SameRest s (execute_b f3 rs1 rs2 imm s)
unfolding execute_b branch
execute_b-SameRest f3 rs1 rs2 imm s = ground arith

execute_u-SameRest : (opcode rd imm : ℕ) (s : Simulator) → SameRest s (execute_u opcode rd imm s)
unfolding execute_u
execute_u-SameRest opcode rd imm s = ground arith

execute_j-SameRest : (rd imm : ℕ) (s : Simulator) → SameRest s (execute_j rd imm s)
unfolding execute_j
execute_j-SameRest rd imm s = ground arith

execute_load-SameRest :
    (funct v rs1 rd imm : ℕ) (s s' : Simulator)
    → execute_load funct v rs1 rd imm s ≡ some s'
    → SameRest s s'
unfolding execute_load finish_load
execute_load-SameRest funct v rs1 rd imm s s' e = ground arith

execute_i-SameRest :
    (f3 opcode rs1 rd imm : ℕ) (s s' : Simulator)
    → execute_i f3 opcode rs1 rd imm s ≡ some s'
    → SameRest s s'
unfolding execute_i finish_i execute_jalr
execute_i-SameRest f3 opcode rs1 rd imm s s' e = ground (
  arith,
  execute_load-SameRest (bit_or (bit_and (opcode >>> 4) 0x1 <<< 4) f3) (shift_const 20) rs1 rd
      (extend (bit_and imm 0x800 >>> 11) (shift_const 20) imm) s s',
)

execute_s-SameRest :
    (f3 rs1 rs2 imm : ℕ) (s s' : Simulator) → execute_s f3 rs1 rs2 imm s ≡ some s' → SameRest s s'
unfolding execute_s finish_store
execute_s-SameRest f3 rs1 rs2 imm s s' e = ground arith

pub dispatch-SameRest :
    (t : InstrType) (w : ℕ) (s s' : Simulator)
    → t ≢ no_type
    → dispatch t w s ≡ some s'
    → SameRest s s'
unfolding dispatch decode_r decode_i decode_s decode_b decode_u decode_j
dispatch-SameRest r_type w s s' known e =
    subst (SameRest s) (some-injective _ _ e) (execute_r-SameRest _ _ _ _ _ s)
dispatch-SameRest i_type w s s' known e = execute_i-SameRest _ _ _ _ _ s s' e
dispatch-SameRest s_type w s s' known e = execute_s-SameRest _ _ _ _ s s' e
dispatch-SameRest b_type w s s' known e =
    subst (SameRest s) (some-injective _ _ e) (execute_b-SameRest _ _ _ _ s)
dispatch-SameRest u_type w s s' known e =
    subst (SameRest s) (some-injective _ _ e) (execute_u-SameRest _ _ _ s)
dispatch-SameRest j_type w s s' known e =
    subst (SameRest s) (some-injective _ _ e) (execute_j-SameRest _ _ s)
dispatch-SameRest no_type w s s' known e = absurd (known refl)
