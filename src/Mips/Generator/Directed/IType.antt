-- ===== src/Mips/Generator/Directed/IType.antt =====
-- The functions of mips/hex_gen/src/hex_gen_instr_api.c for instructions of I type: target register,
-- source, immediate, and the value to put into the source first.
use simple_cpu.Base.{ℕ, Option}
use simple_cpu.Driver.{Outcome}
use simple_cpu.Mips.Opcode
use simple_cpu.Mips.Generator.State.{Generator}
use simple_cpu.Mips.Generator.Directed.{gen_i_type}

unfoldable pub gen_i_type_addi : ℕ → ℕ → ℕ → Option ℕ → Generator → Outcome Generator
gen_i_type_addi = gen_i_type Opcode.addi

unfoldable pub gen_i_type_addiu : ℕ → ℕ → ℕ → Option ℕ → Generator → Outcome Generator
gen_i_type_addiu = gen_i_type Opcode.addiu

unfoldable pub gen_i_type_andi : ℕ → ℕ → ℕ → Option ℕ → Generator → Outcome Generator
gen_i_type_andi = gen_i_type Opcode.andi

unfoldable pub gen_i_type_beq : ℕ → ℕ → ℕ → Option ℕ → Generator → Outcome Generator
gen_i_type_beq = gen_i_type Opcode.beq

unfoldable pub gen_i_type_bgtz : ℕ → ℕ → ℕ → Option ℕ → Generator → Outcome Generator
gen_i_type_bgtz = gen_i_type Opcode.bgtz

unfoldable pub gen_i_type_blez : ℕ → ℕ → ℕ → Option ℕ → Generator → Outcome Generator
gen_i_type_blez = gen_i_type Opcode.blez

unfoldable pub gen_i_type_bne : ℕ → ℕ → ℕ → Option ℕ → Generator → Outcome Generator
gen_i_type_bne = gen_i_type Opcode.bne

unfoldable pub gen_i_type_bvar : ℕ → ℕ → ℕ → Option ℕ → Generator → Outcome Generator
gen_i_type_bvar = gen_i_type Opcode.bvar

unfoldable pub gen_i_type_bltz : ℕ → ℕ → ℕ → Option ℕ → Generator → Outcome Generator
gen_i_type_bltz = gen_i_type Opcode.bltz

unfoldable pub gen_i_type_bgez : ℕ → ℕ → ℕ → Option ℕ → Generator → Outcome Generator
gen_i_type_bgez = gen_i_type Opcode.bgez

unfoldable pub gen_i_type_bltzal : ℕ → ℕ → ℕ → Option ℕ → Generator → Outcome Generator
gen_i_type_bltzal = gen_i_type Opcode.bltzal

unfoldable pub gen_i_type_bgezal : ℕ → ℕ → ℕ → Option ℕ → Generator → Outcome Generator
gen_i_type_bgezal = gen_i_type Opcode.bgezal

unfoldable pub gen_i_type_lb : ℕ → ℕ → ℕ → Option ℕ → Generator → Outcome Generator
gen_i_type_lb = gen_i_type Opcode.lb

unfoldable pub gen_i_type_lbu : ℕ → ℕ → ℕ → Option ℕ → Generator → Outcome Generator
gen_i_type_lbu = gen_i_type Opcode.lbu

unfoldable pub gen_i_type_lh : ℕ → ℕ → ℕ → Option ℕ → Generator → Outcome Generator
gen_i_type_lh = gen_i_type Opcode.lh

unfoldable pub gen_i_type_lhu : ℕ → ℕ → ℕ → Option ℕ → Generator → Outcome Generator
gen_i_type_lhu = gen_i_type Opcode.lhu

unfoldable pub gen_i_type_lui : ℕ → ℕ → ℕ → Option ℕ → Generator → Outcome Generator
gen_i_type_lui = gen_i_type Opcode.lui

unfoldable pub gen_i_type_lw : ℕ → ℕ → ℕ → Option ℕ → Generator → Outcome Generator
gen_i_type_lw = gen_i_type Opcode.lw

unfoldable pub gen_i_type_ori : ℕ → ℕ → ℕ → Option ℕ → Generator → Outcome Generator
gen_i_type_ori = gen_i_type Opcode.ori

unfoldable pub gen_i_type_sb : ℕ → ℕ → ℕ → Option ℕ → Generator → Outcome Generator
gen_i_type_sb = gen_i_type Opcode.sb

unfoldable pub gen_i_type_sh : ℕ → ℕ → ℕ → Option ℕ → Generator → Outcome Generator
gen_i_type_sh = gen_i_type Opcode.sh

unfoldable pub gen_i_type_sw : ℕ → ℕ → ℕ → Option ℕ → Generator → Outcome Generator
gen_i_type_sw = gen_i_type Opcode.sw

unfoldable pub gen_i_type_slti : ℕ → ℕ → ℕ → Option ℕ → Generator → Outcome Generator
gen_i_type_slti = gen_i_type Opcode.slti

unfoldable pub gen_i_type_sltiu : ℕ → ℕ → ℕ → Option ℕ → Generator → Outcome Generator
gen_i_type_sltiu = gen_i_type Opcode.sltiu

unfoldable pub gen_i_type_xori : ℕ → ℕ → ℕ → Option ℕ → Generator → Outcome Generator
gen_i_type_xori = gen_i_type Opcode.xori
