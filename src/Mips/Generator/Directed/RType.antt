-- ===== src/Mips/Generator/Directed/RType.antt =====
-- The functions of mips/hex_gen/src/hex_gen_instr_api.c for instructions of R type: destination,
-- sources, the shift amount where there is one, and the values to put into the sources first.
use simple_cpu.Base.{ℕ, Option, none}
use simple_cpu.Driver.{Outcome}
use simple_cpu.Mips.Opcode
use simple_cpu.Mips.Generator.State.{Generator}
use simple_cpu.Mips.Generator.Directed.{gen_r_type}

unfoldable pub gen_r_type_add : ℕ → ℕ → ℕ → Option (ℕ × ℕ) → Generator → Outcome Generator
gen_r_type_add rd rs rt = gen_r_type Opcode.add rd rs rt 0

unfoldable pub gen_r_type_addu : ℕ → ℕ → ℕ → Option (ℕ × ℕ) → Generator → Outcome Generator
gen_r_type_addu rd rs rt = gen_r_type Opcode.addu rd rs rt 0

unfoldable pub gen_r_type_and : ℕ → ℕ → ℕ → Option (ℕ × ℕ) → Generator → Outcome Generator
gen_r_type_and rd rs rt = gen_r_type Opcode.and rd rs rt 0

unfoldable pub gen_r_type_div : ℕ → ℕ → ℕ → Option (ℕ × ℕ) → Generator → Outcome Generator
gen_r_type_div rd rs rt = gen_r_type Opcode.div rd rs rt 0

unfoldable pub gen_r_type_divu : ℕ → ℕ → ℕ → Option (ℕ × ℕ) → Generator → Outcome Generator
gen_r_type_divu rd rs rt = gen_r_type Opcode.divu rd rs rt 0

unfoldable pub gen_r_type_jalr : ℕ → ℕ → ℕ → Option (ℕ × ℕ) → Generator → Outcome Generator
gen_r_type_jalr rd rs rt = gen_r_type Opcode.jalr rd rs rt 0

unfoldable pub gen_r_type_jr : ℕ → ℕ → ℕ → Option (ℕ × ℕ) → Generator → Outcome Generator
gen_r_type_jr rd rs rt = gen_r_type Opcode.jr rd rs rt 0

unfoldable pub gen_r_type_mfhi : ℕ → ℕ → ℕ → Option (ℕ × ℕ) → Generator → Outcome Generator
gen_r_type_mfhi rd rs rt = gen_r_type Opcode.mfhi rd rs rt 0

unfoldable pub gen_r_type_mflo : ℕ → ℕ → ℕ → Option (ℕ × ℕ) → Generator → Outcome Generator
gen_r_type_mflo rd rs rt = gen_r_type Opcode.mflo rd rs rt 0

unfoldable pub gen_r_type_mthi : ℕ → ℕ → ℕ → Option (ℕ × ℕ) → Generator → Outcome Generator
gen_r_type_mthi rd rs rt = gen_r_type Opcode.mthi rd rs rt 0

unfoldable pub gen_r_type_mtlo : ℕ → ℕ → ℕ → Option (ℕ × ℕ) → Generator → Outcome Generator
gen_r_type_mtlo rd rs rt = gen_r_type Opcode.mtlo rd rs rt 0

unfoldable pub gen_r_type_mult : ℕ → ℕ → ℕ → Option (ℕ × ℕ) → Generator → Outcome Generator
gen_r_type_mult rd rs rt = gen_r_type Opcode.mult rd rs rt 0

unfoldable pub gen_r_type_multu : ℕ → ℕ → ℕ → Option (ℕ × ℕ) → Generator → Outcome Generator
gen_r_type_multu rd rs rt = gen_r_type Opcode.multu rd rs rt 0

unfoldable pub gen_r_type_nor : ℕ → ℕ → ℕ → Option (ℕ × ℕ) → Generator → Outcome Generator
gen_r_type_nor rd rs rt = gen_r_type Opcode.nor rd rs rt 0

unfoldable pub gen_r_type_or : ℕ → ℕ → ℕ → Option (ℕ × ℕ) → Generator → Outcome Generator
gen_r_type_or rd rs rt = gen_r_type Opcode.or rd rs rt 0

unfoldable pub gen_r_type_sll : ℕ → ℕ → ℕ → ℕ → Option (ℕ × ℕ) → Generator → Outcome Generator
gen_r_type_sll = gen_r_type Opcode.sll

unfoldable pub gen_r_type_sllv : ℕ → ℕ → ℕ → ℕ → Option (ℕ × ℕ) → Generator → Outcome Generator
gen_r_type_sllv = gen_r_type Opcode.sllv

unfoldable pub gen_r_type_slt : ℕ → ℕ → ℕ → Option (ℕ × ℕ) → Generator → Outcome Generator
gen_r_type_slt rd rs rt = gen_r_type Opcode.slt rd rs rt 0

unfoldable pub gen_r_type_sltu : ℕ → ℕ → ℕ → Option (ℕ × ℕ) → Generator → Outcome Generator
gen_r_type_sltu rd rs rt = gen_r_type Opcode.sltu rd rs rt 0

unfoldable pub gen_r_type_sra : ℕ → ℕ → ℕ → ℕ → Option (ℕ × ℕ) → Generator → Outcome Generator
gen_r_type_sra = gen_r_type Opcode.sra

unfoldable pub gen_r_type_srav : ℕ → ℕ → ℕ → ℕ → Option (ℕ × ℕ) → Generator → Outcome Generator
gen_r_type_srav = gen_r_type Opcode.srav

unfoldable pub gen_r_type_srl : ℕ → ℕ → ℕ → ℕ → Option (ℕ × ℕ) → Generator → Outcome Generator
gen_r_type_srl = gen_r_type Opcode.srl

unfoldable pub gen_r_type_srlv : ℕ → ℕ → ℕ → ℕ → Option (ℕ × ℕ) → Generator → Outcome Generator
gen_r_type_srlv = gen_r_type Opcode.srlv

unfoldable pub gen_r_type_sub : ℕ → ℕ → ℕ → Option (ℕ × ℕ) → Generator → Outcome Generator
gen_r_type_sub rd rs rt = gen_r_type Opcode.sub rd rs rt 0

unfoldable pub gen_r_type_subu : ℕ → ℕ → ℕ → Option (ℕ × ℕ) → Generator → Outcome Generator
gen_r_type_subu rd rs rt = gen_r_type Opcode.subu rd rs rt 0

unfoldable pub gen_r_type_syscall : Generator → Outcome Generator
gen_r_type_syscall = gen_r_type Opcode.syscall 0 0 0 0 none

unfoldable pub gen_r_type_xor : ℕ → ℕ → ℕ → Option (ℕ × ℕ) → Generator → Outcome Generator
gen_r_type_xor rd rs rt = gen_r_type Opcode.xor rd rs rt 0
