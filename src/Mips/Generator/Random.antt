-- ===== src/Mips/Generator/Random.antt =====
-- `gen_r_instr`, `gen_i_instr` and `gen_j_instr` of mips/hex_gen/src/hex_gen.c. The fields are those
-- that the caller gives, or random ones; `rand` is the sequence of the numbers that the library's
-- function gives.
use simple_cpu.Base.{
  ℕ, zero, suc, ◌+◌, ◌-◌, ◌%◌, ◌^◌, Bool, true, false, not, ◌||◌, List, [], ◌∷◌, u32, ◌<<<◌, ltb,
  ◌==◌, update, if◌then◌else◌, bit_and, bit_or, get_or,
}
use simple_cpu.Driver.{Outcome, fault, out_of_fuel}
use simple_cpu.Mips.Opcode
use simple_cpu.Mips.Encode.{encode_r, encode_i, encode_j}
use simple_cpu.Mips.Generator.State.{Generator}
use simple_cpu.HexGen.{imem_size}
use simple_cpu.Mips.Generator.Check.{check_ls_addr, check_brn_addr, check_j_addr}
use simple_cpu.Mips.Generator.Emit.{emit}

pub record RFields : Type 0 where
  pub funct : ℕ
  pub rd : ℕ
  pub rs : ℕ
  pub rt : ℕ
  pub shamt : ℕ

pub record IFields : Type 0 where
  pub opcode : ℕ
  pub rt : ℕ
  pub rs : ℕ
  pub imm : ℕ

abbrev pub funct_val_r_type : List ℕ
funct_val_r_type = Opcode.add ∷ Opcode.and ∷ Opcode.or ∷ Opcode.slt ∷ Opcode.sub ∷ []

abbrev pub opcode_val_i_type : List ℕ
opcode_val_i_type =
    Opcode.addi ∷ Opcode.andi ∷ Opcode.beq ∷ Opcode.bne ∷ Opcode.lw ∷ Opcode.ori ∷ Opcode.sw
    ∷ Opcode.slti ∷ []

-- The labels `RS` and `IMM` that a random choice goes back to.
pub data Label : Type 0 where
  rs_label imm_label : Label

-- What the checks lead to: the instruction is made, or chosen again; an index past an array.
pub data Checked : Type 0 where
  passed : IFields → Generator → Checked
  goto : Label → IFields → Checked
  past_end : Checked

-- The four branches that share the opcode `BVAR`.
unfoldable pub retarget : IFields → IFields
retarget f =
    if f.opcode == Opcode.bgez
      || f.opcode == Opcode.bgezal
      || f.opcode == Opcode.bltz
      || f.opcode == Opcode.bltzal
    then record f { rt = f.opcode; opcode = 0x1 }
    else f

-- The check of `LW` and `SW`. With `vopt` a bad address is only reported.
unfoldable pub check_ls : Bool → IFields → Generator → Checked
check_ls vopt f g =
    if f.opcode == Opcode.lw || f.opcode == Opcode.sw
    then (if ltb f.rs 32
        then (let addr = check_ls_addr f.rs f.imm g in
            if addr == 2
            then (if vopt then passed f g else goto rs_label f)
            else if addr == 0
            then (if vopt then passed f g else goto imm_label f)
            else if ltb (g.instr_gen + 1) imem_size
            then passed f (record g { ls_addr = update g.ls_addr (g.instr_gen + 1) addr })
            else past_end)
        else past_end)
    else passed f g

unfoldable pub is_branch : ℕ → Bool
is_branch opcode =
    opcode == Opcode.bvar
    || opcode == Opcode.beq
    || opcode == Opcode.bgtz
    || opcode == Opcode.blez
    || opcode == Opcode.bne

-- The check of the branches.
unfoldable pub check_brn : Bool → IFields → Generator → Checked
check_brn vopt f g =
    if is_branch f.opcode
    then (let addr = check_brn_addr f.imm g in
        if addr == 2 ^ 32 - 1
        then (if vopt then passed f g else goto imm_label f)
        else if ltb (g.instr_gen + 1) imem_size
        then passed f (record g { br_addr = update g.br_addr (g.instr_gen + 1) addr })
        else past_end)
    else passed f g

unfoldable pub check_i : Bool → IFields → Generator → Checked
check_i vopt f g = elim (check_ls vopt (retarget f) g) [
  | passed f1 g1 ↦ check_brn vopt f1 g1
  | goto l f1 ↦ goto l f1
  | past_end ↦ past_end
]

unfoldable pub emit_i : IFields → Generator → Outcome Generator
emit_i f g = emit (encode_i f.opcode f.rs f.rt f.imm) g

-- Fields that are given are used whatever the checks say.
unfoldable pub gen_i_instr : IFields → Generator → Outcome Generator
gen_i_instr f g = elim (check_i true f g) [
  | passed f1 g1 ↦ emit_i f1 g1
  | goto l f1 ↦ emit_i f1 g
  | past_end ↦ fault
]

unfoldable pub gen_r_instr : RFields → Generator → Outcome Generator
gen_r_instr f g = emit (encode_r f.rs f.rt f.rd f.shamt f.funct) g

module _ (rand : ℕ → ℕ) where
  unfoldable pub random_r_instr : Generator → Outcome Generator
  random_r_instr g =
      let n = g.drawn in
      let fields : RFields = record {
        funct = get_or funct_val_r_type (rand n % 5) 0;
        rs = rand (n + 1) % 32;
        rt = rand (n + 2) % 32;
        rd = rand (n + 3) % 32;
        shamt = rand (n + 4) % 32;
      } in
      gen_r_instr fields (record g { drawn = n + 5 })

  -- The statements from a label on.
  unfoldable pub redraw : Label → IFields → Generator → IFields × Generator
  redraw rs_label f g =
      let n = g.drawn in
      (record f { rs = rand n % 32; imm = rand (n + 1) % 0xffff }, record g { drawn = n + 2 })
  redraw imm_label f g =
      let n = g.drawn in (record f { imm = rand n % 0xffff }, record g { drawn = n + 1 })

  -- The choices from a label on; the fuel bounds how often it goes back.
  unfoldable pub choose_i : ℕ → Label → IFields → Generator → Outcome Generator
  choose_i zero l f g = out_of_fuel
  choose_i (suc fuel) l f g =
      let (f1, g1) = redraw l f g in
      elim (check_i false f1 g1) [
        | passed f2 g2 ↦ emit_i f2 g2
        | goto l2 f2 ↦ choose_i fuel l2 f2 g1
        | past_end ↦ fault
      ]

  unfoldable pub random_i_instr : ℕ → Generator → Outcome Generator
  random_i_instr fuel g =
      let n = g.drawn in
      let opcode = get_or opcode_val_i_type (rand n % 8) 0 in
      let fields : IFields = record { opcode = opcode; rt = rand (n + 1) % 32; rs = 0; imm = 0 } in
      choose_i fuel rs_label fields (record g { drawn = n + 2 })

  -- The statements from the label `TARGET` on.
  unfoldable pub choose_j : ℕ → ℕ → Generator → Outcome Generator
  choose_j zero opcode g = out_of_fuel
  choose_j (suc fuel) opcode g =
      let target = rand g.drawn % 0x3ffffff in
      let g1 = record g { drawn = g.drawn + 1 } in
      let addr = bit_or (bit_and (u32 (g.sim.current.pc + 4)) 0xf0000000) (target <<< 2) in
      let again = choose_j fuel opcode g1 in
      if check_j_addr addr g == 0
      then again
      else if not (g.pc addr == 0)
      then again
      else emit (encode_j opcode target) g1

  -- `opcode_val_j_type` has one entry, `J`; the index 1 reads past it.
  unfoldable pub gen_j_instr : ℕ → Generator → Outcome Generator
  gen_j_instr fuel g =
      let n = g.drawn in
      if rand n % 2 == 0 then choose_j fuel Opcode.j (record g { drawn = n + 1 }) else fault
