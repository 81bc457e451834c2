-- ===== src/Riscv/Isa/Execute.antt =====
-- The `execute_` functions against the instruction set, one lemma for each format.
use simple_cpu.Base.{
  ℕ, ◌+◌, ◌-◌, ◌*◌, ◌/◌, ◌%◌, ◌^◌, ◌<◌, ◌≡◌, refl, arith, Option, some, u32, ◌==◌, if◌then◌else◌,
  bit_and, bit_and_mask, bit_and_shifted, bit_or, bit_or_shifted, bit_or_fields_low, holds_below,
  holds_below_lem, true, ltb, Bool-cases, inl, inr, update, write_reg, fun_ext, sym, ==_iff, ◌>>>◌,
}
use simple_cpu.Extend.{shift_const, extend}
use simple_cpu.Extend.Laws.{sext, sra, sra_lem, slt_lem, extend_8, extend_12, extend_13, extend_21}
use simple_cpu.Riscv.Machine.{Simulator, reg, set_pc, next_pc, mem_read_32}
use simple_cpu.Riscv.Opcode
use simple_cpu.Riscv.Isa.{
  AluOp, sll, srl, sra_op, add, sub, and, or, xor, slt_op, sltu, ImmOp, addi, slti, sltiu, ori,
  xori, LoadOp, lb, lh, lw, lbu, lhu, StoreOp, sb, sh, BranchOp, beq, bne, blt, bltu, bge, bgeu,
  alu_value, imm_value, load_value, store_at, store_value, taken,
}
use simple_cpu.Riscv.Isa.Code.{alu_funct, imm_funct, load_funct, store_funct, branch_funct}
use simple_cpu.Riscv.Execute.Register.{execute_r, sra_value}
use simple_cpu.Riscv.Execute.Immediate.{execute_i, finish_i, execute_jalr}
use simple_cpu.Riscv.Execute.Load.{execute_load, finish_load}
use simple_cpu.Riscv.Execute.Transfer
use simple_cpu.Riscv.Execute.Transfer.{execute_s, finish_store, execute_b, execute_u, execute_j}

sra_value_lem : (x y : ℕ) → x < 2 ^ 32 → sra_value x y ≡ sra x (y % 32)
unfolding sra_value
sra_value_lem x y hx = rw (bit_and_mask 5 y) (sra_lem x (y % 32) hx (omega arith))

-- What the simulator writes for an R-type instruction.
abbrev written : ℕ → ℕ → Simulator → Simulator
written rd v s =
    next_pc (record s { next = record { pc = s.next.pc; regs = write_reg rd v s.next.regs } })

pub execute_r-alu :
    (op : AluOp) (rs1 rs2 rd : ℕ) (s : Simulator)
    → reg s rs1 < 2 ^ 32
    → reg s rs2 < 2 ^ 32
    → execute_r rs1 rs2 rd (alu_funct op / 8 % 2 * 2 ^ 5) (alu_funct op % 8) s
      ≡ written rd (alu_value op (reg s rs1) (reg s rs2)) s
unfolding execute_r
execute_r-alu sll rs1 rs2 rd s h1 h2 = ground (arith, bit_and_mask 5 (reg s rs2))
execute_r-alu srl rs1 rs2 rd s h1 h2 = ground (arith, bit_and_mask 5 (reg s rs2))
execute_r-alu sra_op rs1 rs2 rd s h1 h2 = ground (arith, sra_value_lem (reg s rs1) (reg s rs2) h1)
execute_r-alu add rs1 rs2 rd s h1 h2 = ground arith
execute_r-alu sub rs1 rs2 rd s h1 h2 = ground arith
execute_r-alu and rs1 rs2 rd s h1 h2 = ground arith
execute_r-alu or rs1 rs2 rd s h1 h2 = ground arith
execute_r-alu xor rs1 rs2 rd s h1 h2 = ground arith
execute_r-alu slt_op rs1 rs2 rd s h1 h2 = ground (arith, slt_lem (reg s rs1) (reg s rs2) h1 h2)
execute_r-alu sltu rs1 rs2 rd s h1 h2 = ground arith

pub execute_i-alu_imm :
    (op : ImmOp) (rs1 rd imm : ℕ) (s : Simulator)
    → reg s rs1 < 2 ^ 32
    → imm < 2 ^ 12
    → execute_i (imm_funct op % 8) 0x13 rs1 rd imm s
      ≡ some (written rd (imm_value op (reg s rs1) (sext 12 imm)) s)
unfolding execute_i finish_i
execute_i-alu_imm addi rs1 rd imm s h hi = rw (extend_12 imm hi) (ground arith)
execute_i-alu_imm slti rs1 rd imm s h hi =
    rw (extend_12 imm hi) (ground (arith, slt_lem (reg s rs1) (sext 12 imm) h (ground arith)))
execute_i-alu_imm sltiu rs1 rd imm s h hi = rw (extend_12 imm hi) (ground arith)
execute_i-alu_imm ori rs1 rd imm s h hi = rw (extend_12 imm hi) (ground arith)
execute_i-alu_imm xori rs1 rd imm s h hi = rw (extend_12 imm hi) (ground arith)

pub execute_i-jalr :
    (rs1 rd imm : ℕ) (s : Simulator)
    → imm < 2 ^ 12
    → execute_i (Opcode.jalr % 8) 0x03 rs1 rd imm s
      ≡ some (
          set_pc (u32 (reg s rs1 + sext 12 imm)) (record s {
            next = record {
              pc = s.next.pc;
              regs = write_reg rd (u32 (s.current.pc + 4)) s.next.regs;
            };
          }))
unfolding execute_i execute_jalr
execute_i-jalr rs1 rd imm s hi = rw (extend_12 imm hi) (ground arith)

top_table : holds_below (λ q. bit_or q 0xfffff == 0xfffff) 16 ≡ true
unfolding holds_below
top_table = refl

-- `lh` extends with the entry of the table for 12 bits.
half_lem :
    (x : ℕ)
    → x < 2 ^ 16
    → extend (x >>> 15) (shift_const 20) x
      ≡ (if ltb x (2 ^ 15) then x else x % 2 ^ 12 + 2 ^ 32 - 2 ^ 12)
unfolding extend shift_const
half_lem x h =
    let top : bit_or (x / 2 ^ 12) 0xfffff ≡ 0xfffff =
      (==_iff _ _).0 (holds_below_lem _ 16 (x / 2 ^ 12) (omega arith) top_table) in
    ground (arith, bit_or_shifted 12 0xfffff x, top)

pub execute_i-load :
    (op : LoadOp) (rs1 rd imm w : ℕ) (s : Simulator)
    → imm < 2 ^ 12
    → mem_read_32 s.mem (u32 (reg s rs1 + sext 12 imm)) ≡ some w
    → execute_i (load_funct op % 8) 0x03 rs1 rd imm s ≡ some (written rd (load_value op w) s)
unfolding execute_i execute_load finish_load
execute_i-load lb rs1 rd imm w s hi e =
    rw (extend_12 imm hi) (ground (arith, e, bit_and_mask 8 w, extend_8 (w % 2 ^ 8) (omega arith)))
execute_i-load lh rs1 rd imm w s hi e =
    rw (extend_12 imm hi)
      (ground (arith, e, bit_and_mask 16 w, half_lem (w % 2 ^ 16) (omega arith)))
execute_i-load lw rs1 rd imm w s hi e = rw (extend_12 imm hi) (ground (arith, e))
execute_i-load lbu rs1 rd imm w s hi e = rw (extend_12 imm hi) (ground (arith, e, bit_and_mask 8 w))
execute_i-load lhu rs1 rd imm w s hi e =
    rw (extend_12 imm hi) (ground (arith, e, bit_and_mask 16 w))

pub execute_i-load_fault :
    (op : LoadOp) (rs1 rd imm : ℕ) (s : Simulator)
    → imm < 2 ^ 12
    → mem_read_32 s.mem (u32 (reg s rs1 + sext 12 imm)) ≡ Option.none
    → execute_i (load_funct op % 8) 0x03 rs1 rd imm s ≡ Option.none
unfolding execute_i execute_load finish_load
execute_i-load_fault lb rs1 rd imm s hi e = rw (extend_12 imm hi) (ground (arith, e))
execute_i-load_fault lh rs1 rd imm s hi e = rw (extend_12 imm hi) (ground (arith, e))
execute_i-load_fault lw rs1 rd imm s hi e = rw (extend_12 imm hi) (ground (arith, e))
execute_i-load_fault lbu rs1 rd imm s hi e = rw (extend_12 imm hi) (ground (arith, e))
execute_i-load_fault lhu rs1 rd imm s hi e = rw (extend_12 imm hi) (ground (arith, e))

align_lem : (x : ℕ) → x < 2 ^ 32 → bit_and x 0xfffffffc ≡ x / 4 * 4
align_lem x h = omega (arith, bit_and_shifted 2 (2 ^ 30 - 1) x, bit_and_mask 30 (x / 2 ^ 2))

-- The sign that `SH` and `SW` test is bit 15 of a 12-bit immediate: it is never set.
no_sign : (imm : ℕ) → imm < 2 ^ 12 → extend (bit_and imm 0x8000 >>> 15) (shift_const 16) imm ≡ imm
unfolding extend
no_sign imm h = ground (arith, bit_and_shifted 15 1 imm, bit_and_mask 1 (imm / 2 ^ 15))

byte_offset :
    (imm : ℕ)
    → imm < 2 ^ 12
    → extend (bit_and imm 0x800 >>> 11) (shift_const 12) imm
      ≡ (if ltb imm (2 ^ 11) then imm else imm + 2 ^ 32 - 2 ^ 20)
unfolding extend shift_const
byte_offset imm h = ground (
  arith,
  bit_and_shifted 11 1 imm,
  bit_and_mask 1 (imm / 2 ^ 11),
  bit_or_fields_low 20 (2 ^ 12 - 1) imm (omega arith),
)

pub execute_s-store :
    (op : StoreOp) (src base imm : ℕ) (s : Simulator)
    → imm < 2 ^ 12
    → execute_s (store_funct op) src base imm s
      ≡ finish_store (store_at op (reg s base) imm) (store_value op (reg s src)) s
unfolding execute_s
execute_s-store sb src base imm s hi = rw (byte_offset imm hi, bit_and_mask 8 (reg s src))
execute_s-store sh src base imm s hi = rw (no_sign imm hi, bit_and_mask 16 (reg s src))
execute_s-store StoreOp.sw src base imm s hi =
    rw (no_sign imm hi, align_lem (u32 (reg s base + imm)) (omega arith))

pub execute_b-branch :
    (op : BranchOp) (rs1 rs2 imm : ℕ) (s : Simulator)
    → reg s rs1 < 2 ^ 32
    → reg s rs2 < 2 ^ 32
    → imm < 2 ^ 13
    → execute_b (branch_funct op) rs1 rs2 imm s ≡ (
        if taken op (reg s rs1) (reg s rs2)
        then set_pc (u32 (s.current.pc + sext 13 imm)) s
        else next_pc s)
unfolding execute_b Transfer.branch
execute_b-branch beq rs1 rs2 imm s h1 h2 hi = rw (extend_13 imm hi)
execute_b-branch bne rs1 rs2 imm s h1 h2 hi = rw (extend_13 imm hi)
execute_b-branch blt rs1 rs2 imm s h1 h2 hi =
    rw (extend_13 imm hi, slt_lem (reg s rs1) (reg s rs2) h1 h2)
execute_b-branch bltu rs1 rs2 imm s h1 h2 hi = rw (extend_13 imm hi)
execute_b-branch bge rs1 rs2 imm s h1 h2 hi =
    rw (extend_13 imm hi, slt_lem (reg s rs1) (reg s rs2) h1 h2)
execute_b-branch bgeu rs1 rs2 imm s h1 h2 hi = rw (extend_13 imm hi)

pub execute_j-jal :
    (rd imm : ℕ) (s : Simulator)
    → imm < 2 ^ 21
    → execute_j rd imm s
      ≡ set_pc (u32 (s.current.pc + sext 21 imm)) (record s {
        next = record { pc = s.next.pc; regs = write_reg rd (u32 (s.current.pc + 4)) s.next.regs };
      })
unfolding execute_j
execute_j-jal rd imm s hi = rw (extend_21 imm hi) (ground arith)

update_zero : (regs : ℕ → ℕ) → regs 0 ≡ 0 → update regs 0 0 ≡ regs
update_zero regs h = fun_ext λ i. elim (Bool-cases (0 == i)) [
  | inl at ↦ let here : 0 ≡ i = (==_iff 0 i).0 at in rw (← here) (sym h)
  | inr off ↦ rw off
]

pub execute_u-lui :
    (rd imm : ℕ) (s : Simulator)
    → s.next.regs 0 ≡ 0
    → imm < 2 ^ 20
    → execute_u Opcode.lui rd imm s ≡ written rd (imm * 2 ^ 12) s
unfolding execute_u
execute_u-lui rd imm s zero hi = ground (arith, update_zero s.next.regs zero)

pub execute_u-auipc :
    (rd imm : ℕ) (s : Simulator)
    → s.next.regs 0 ≡ 0
    → imm < 2 ^ 20
    → execute_u Opcode.auipc rd imm s ≡ written rd (u32 (s.current.pc + imm * 2 ^ 12)) s
unfolding execute_u
execute_u-auipc rd imm s zero hi = ground (arith, update_zero s.next.regs zero)
