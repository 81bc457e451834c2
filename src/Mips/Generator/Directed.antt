-- ===== src/Mips/Generator/Directed.antt =====
-- The functions of mips/hex_gen/src/hex_gen_instr_api.c, which make one given instruction. All of one
-- type have the same body but for the constant: this is the body.
pub mod RType
pub mod IType
use simple_cpu.Base.{ℕ, ◌+◌, Option, none, some, u32, slt, if◌then◌else◌}
use simple_cpu.Driver.{Outcome, returned, exited, fault, out_of_fuel, ◌>>=◌}
use simple_cpu.Mips.Opcode
use simple_cpu.Mips.Generator.State.{Generator}
use simple_cpu.Mips.Generator.Emit.{make_room}
use simple_cpu.Mips.Generator.Random.{RFields, IFields, gen_r_instr, gen_i_instr}

abbrev pub max_16_bit_imm : ℕ
max_16_bit_imm = 0xffff

-- The arm for an immediate that is too large.
abbrev pub rejected : Generator → Outcome Generator
rejected g = returned (record g { err_count = u32 (g.err_count + 1) })

-- The end of an I-type function.
abbrev pub place_i : ℕ → ℕ → ℕ → ℕ → Generator → Outcome Generator
place_i opcode rt rs imm g = do
  g1 ← make_room g
  gen_i_instr (record { opcode = opcode; rt = rt; rs = rs; imm = imm }) g1

-- `gen_i_type_ORI (reg, R0, val, 0)`. The comparison with the limit is one of `int`.
unfoldable pub set_reg_val : ℕ → ℕ → Generator → Outcome Generator
set_reg_val reg val g =
    if slt max_16_bit_imm val then rejected g else place_i Opcode.ori reg 0 val g

-- The values are those that `set_rval` asks to put into the registers first.
unfoldable pub gen_i_type : ℕ → ℕ → ℕ → ℕ → Option ℕ → Generator → Outcome Generator
gen_i_type opcode rt rs imm none g =
    if slt max_16_bit_imm imm then rejected g else place_i opcode rt rs imm g
gen_i_type opcode rt rs imm (some rs_val) g =
    if slt max_16_bit_imm imm
    then rejected g
    else (do g1 ← set_reg_val rs rs_val g; place_i opcode rt rs imm g1)

abbrev pub place_r : ℕ → ℕ → ℕ → ℕ → ℕ → Generator → Outcome Generator
place_r funct rd rs rt shamt g = do
  g1 ← make_room g
  gen_r_instr (record { funct = funct; rd = rd; rs = rs; rt = rt; shamt = shamt }) g1

unfoldable pub gen_r_type : ℕ → ℕ → ℕ → ℕ → ℕ → Option (ℕ × ℕ) → Generator → Outcome Generator
gen_r_type funct rd rs rt shamt none g = place_r funct rd rs rt shamt g
gen_r_type funct rd rs rt shamt (some (rs_val, rt_val)) g = do
  g1 ← set_reg_val rs rs_val g
  g2 ← set_reg_val rt rt_val g1
  place_r funct rd rs rt shamt g2
