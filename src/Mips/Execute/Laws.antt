-- ===== src/Mips/Execute/Laws.antt =====
-- What single instructions compute.
use simple_cpu.Base.{
  ℕ, ◌+◌, ◌-◌, ◌*◌, ◌/◌, ◌%◌, ◌^◌, ◌<◌, ◌≡◌, refl, arith, Bool, true, false, ◌||◌, ◌==◌,
  if◌then◌else◌, u32, ◌<<<◌, ◌>>>◌, bit_and, bit_and_mask, bit_and_shifted, bit_or_fields,
  bit_or_fields_low,
}
use simple_cpu.Extend.{shift_const, extend}
use simple_cpu.Extend.Laws.{sext}
use simple_cpu.Mips.Machine.{Simulator, set_pc}
use simple_cpu.Mips.Execute.Register.{sra_value}
use simple_cpu.Mips.Execute.Special.{multiply}
use simple_cpu.Mips.Execute.Branch.{branch, link}
use simple_cpu.Mips.Execute.Jump.{execute_j}

branch_offset :
    (imm : ℕ)
    → imm < 2 ^ 16
    → extend (bit_and imm 0x8000 >>> 15) (shift_const 14) (imm <<< 2) ≡ sext 18 (4 * imm)
unfolding extend shift_const
branch_offset imm h = ground (
  arith,
  bit_and_shifted 15 1 imm,
  bit_and_mask 1 (imm / 2 ^ 15),
  bit_or_fields_low 18 (2 ^ 14 - 1) (imm * 4) (omega arith),
)

-- A branch that is taken adds four times its 16-bit immediate, as a signed number of 18 bits, to
-- the address of the next instruction, modulo 2 ^ 32; one that is not taken goes to the next
-- instruction. Both leave all else alone.
pub branch_lem :
    (taken : Bool) (imm : ℕ) (s : Simulator)
    → imm < 2 ^ 16
    → branch taken imm s
      ≡ set_pc
          (if taken
            then (s.current.pc + 4 + sext 18 (4 * imm)) % 2 ^ 32
            else (s.current.pc + 4) % 2 ^ 32)
          s
unfolding branch
branch_lem true imm s h = rw (branch_offset imm h) refl
branch_lem false imm s h = refl

-- A jump to a target of 26 bits keeps the top four bits of the address of the next instruction,
-- which must not wrap around, and has the target below them, above two zeros. `JAL`, but not `J`,
-- leaves that address in register 31 and sets `wr_link_reg`.
pub execute_j_lem :
    (opcode target : ℕ) (s : Simulator)
    → (opcode == 2 || opcode == 3) ≡ true
    → target < 2 ^ 26
    → s.current.pc + 4 < 2 ^ 32
    → ((execute_j opcode target s).next.pc ≡ (s.current.pc + 4) / 2 ^ 28 * 2 ^ 28 + 4 * target)
      × ((execute_j opcode target s).next.regs 31
          ≡ (if opcode == 3 then s.current.pc + 4 else s.next.regs 31))
      × ((execute_j opcode target s).wr_link_reg ≡ (opcode == 3 || s.wr_link_reg))
unfolding execute_j link
execute_j_lem opcode target s jump h g = ground (
  arith,
  bit_and_shifted 28 0xf (s.current.pc + 4),
  bit_and_mask 4 ((s.current.pc + 4) / 2 ^ 28),
  bit_or_fields 28 ((s.current.pc + 4) / 2 ^ 28) (4 * target) (omega arith),
)

-- `MULT` and `MULTU` cut the product to 32 bits before they split it: `LO` gets its low word, and
-- `HI` is always 0.
multiply-hi_lo :
    (x y : ℕ) (s : Simulator)
    → ((multiply x y s).next.hi ≡ 0) × ((multiply x y s).next.lo ≡ x * y % 2 ^ 32)
unfolding multiply
multiply-hi_lo x y s =
    let word = u32 (x * y) in
    (omega (arith, bit_and_mask 32 (word / 2 ^ 32)), omega (arith, bit_and_mask 32 word))

-- `SRA` and `SRAV` shift zeros in, whatever the operands: the result is the quotient by the power
-- of two.
pub sra_value-logical : (x y n : ℕ) → sra_value x y n ≡ y / 2 ^ n
unfolding sra_value
sra_value-logical x y n = ground (arith, bit_and_shifted 28 1 x, bit_and_mask 1 (x / 2 ^ 28))
