-- ===== src/Riscv/Generator/Fields.antt =====
-- The fields of an instruction that the generator makes, and the checks on them, in
-- risc-v/hex_gen/src/hex_gen.c.
use simple_cpu.Base.{
  ℕ, ◌+◌, ◌-◌, ◌^◌, Bool, ◌||◌, List, [], ◌∷◌, ◌<<<◌, ◌>>>◌, ltb, ◌==◌, update, if◌then◌else◌,
  bit_and, bit_or,
}
use simple_cpu.HexGen.{imem_size}
use simple_cpu.Riscv.Opcode
use simple_cpu.Riscv.Generator.State.{Generator}
use simple_cpu.Riscv.Generator.Check.{
  check_ls_addr, check_brn_addr, check_j_addr, decode_brn_result,
}

pub record RFields : Type 0 where
  pub funct3 : ℕ
  pub rd : ℕ
  pub rs1 : ℕ
  pub rs2 : ℕ
  pub funct7 : ℕ

pub record IFields : Type 0 where
  pub funct3 : ℕ
  pub opcode : ℕ
  pub rd : ℕ
  pub rs1 : ℕ
  pub imm : ℕ

-- Of S- and B-type words.
pub record SFields : Type 0 where
  pub funct3 : ℕ
  pub rs1 : ℕ
  pub rs2 : ℕ
  pub imm : ℕ

abbrev pub funct_val_r_type : List ℕ
funct_val_r_type =
    Opcode.sll ∷ Opcode.srl ∷ Opcode.sra ∷ Opcode.add ∷ Opcode.sub ∷ Opcode.and ∷ Opcode.or
    ∷ Opcode.xor ∷ Opcode.slt ∷ Opcode.sltu ∷ []

abbrev pub opcode_val_i_type : List ℕ
opcode_val_i_type =
    Opcode.addi ∷ Opcode.slti ∷ Opcode.sltiu ∷ Opcode.andi ∷ Opcode.ori ∷ Opcode.xori ∷ Opcode.jalr
    ∷ Opcode.lw ∷ []

abbrev pub opcode_val_s_type : List ℕ
opcode_val_s_type = Opcode.sw ∷ []

abbrev pub opcode_val_b_type : List ℕ
opcode_val_b_type =
    Opcode.beq ∷ Opcode.bne ∷ Opcode.blt ∷ Opcode.bltu ∷ Opcode.bge ∷ Opcode.bgeu ∷ []

abbrev pub opcode_val_u_type : List ℕ
opcode_val_u_type = Opcode.lui ∷ Opcode.auipc ∷ []

-- The labels that a choice goes back to: `RS1_I` or `RS2_S`, and `IMM_I`, `IMM_S` or `IMM_B`.
pub data Label : Type 0 where
  rs_label imm_label : Label

-- What the checks lead to: the instruction is made, or chosen again; an index past an array.
pub data Checked : Type 0 where
  passed : Generator → Checked
  goto : Label → Checked
  past_end : Checked

-- The check of an address that is loaded from or stored to. With `vopt` a bad one is only reported.
unfoldable pub check_ls : Bool → ℕ → ℕ → Generator → Checked
check_ls vopt rs imm g =
    if ltb rs 32
    then (let addr = check_ls_addr rs imm g in
        if addr == 2
        then (if vopt then passed g else goto rs_label)
        else if addr == 0
        then (if vopt then passed g else goto imm_label)
        else if ltb (g.instr_gen + 1) imem_size
        then passed (record g { ls_addr = update g.ls_addr (g.instr_gen + 1) addr })
        else past_end)
    else past_end

unfoldable pub is_load : ℕ → Bool
is_load funct =
    (funct == Opcode.lw || funct == Opcode.lb)
    || (funct == Opcode.lh || funct == Opcode.lbu)
    || funct == Opcode.lhu

-- `((opcode>>4 & 0x1) << 4) | funct3`
abbrev pub funct_of : IFields → ℕ
funct_of f = bit_or (bit_and (f.opcode >>> 4) 0x1 <<< 4) f.funct3

-- `JALR` goes back to the choice of registers even where the fields are given.
unfoldable pub check_i : Bool → IFields → Generator → Checked
check_i vopt f g =
    if is_load (funct_of f)
    then check_ls vopt f.rs1 f.imm g
    else if funct_of f == Opcode.jalr
    then (if ltb f.rs1 32
        then (if check_j_addr f.imm Opcode.jalr f.rs1 g == 0 then goto rs_label else passed g)
        else past_end)
    else passed g

-- The target counts only if the branch is taken.
unfoldable pub check_b : Bool → SFields → Generator → Checked
check_b vopt f g =
    if ltb f.rs1 32
    then (if ltb f.rs2 32
        then (if decode_brn_result f.rs1 f.rs2 f.funct3 g == 0
            then passed g
            else (let addr = check_brn_addr f.rs1 f.imm g in
                if addr == 2 ^ 32 - 1
                then (if vopt then passed g else goto imm_label)
                else if ltb (g.instr_gen + 1) imem_size
                then passed (record g { br_addr = update g.br_addr (g.instr_gen + 1) addr })
                else past_end))
        else past_end)
    else past_end
