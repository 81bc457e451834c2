-- ===== src/Riscv/Generator/Choose.antt =====
-- `gen_r_instr` to `gen_j_instr` of risc-v/hex_gen/src/hex_gen.c. `rand` is the sequence of the numbers
-- that the library's function gives; the fuel bounds how often a choice is made again.
use simple_cpu.Base.{
  ℕ, zero, suc, ◌+◌, ◌%◌, Bool, true, false, u32, ◌<<<◌, ◌>>>◌, ◌==◌, if◌then◌else◌, bit_and,
  bit_or, get_or,
}
use simple_cpu.Driver.{Outcome, fault, out_of_fuel}
use simple_cpu.Riscv.Encode.{encode_r, encode_i, encode_u}
use simple_cpu.Riscv.Generator.State.{Generator}
use simple_cpu.Riscv.Generator.Check.{check_j_addr}
use simple_cpu.Riscv.Generator.Emit.{emit}
use simple_cpu.Riscv.Generator.Fields.{
  RFields, IFields, SFields, Label, rs_label, imm_label, passed, goto, past_end, check_ls, check_i,
  check_b, funct_val_r_type, opcode_val_i_type, opcode_val_s_type, opcode_val_b_type,
  opcode_val_u_type,
}

unfoldable pub gen_r_instr : RFields → Generator → Outcome Generator
gen_r_instr f g = emit (encode_r f.funct7 f.rs2 f.rs1 f.funct3 f.rd) g

unfoldable pub gen_u_instr : ℕ → ℕ → ℕ → Generator → Outcome Generator
gen_u_instr opcode rd imm g = emit (encode_u imm rd opcode) g

unfoldable pub emit_i : IFields → Generator → Outcome Generator
emit_i f g = emit (encode_i f.imm f.rs1 f.funct3 f.rd f.opcode) g

-- The words of the types S, B and J, whose `opcode` is a variable.
unfoldable pub s_word : ℕ → SFields → ℕ
s_word opcode f = u32 (
    (f.imm >>> 5 <<< 25)
    + (f.rs2 <<< 20)
    + (f.rs1 <<< 15)
    + (f.funct3 <<< 12)
    + (bit_and f.imm 0x1f <<< 7)
    + opcode)

unfoldable pub b_word : ℕ → SFields → ℕ
b_word opcode f = u32 (
    (f.imm >>> 12 <<< 31)
    + (bit_and (f.imm >>> 5) 0x3f <<< 25)
    + (f.rs2 <<< 20)
    + (f.rs1 <<< 15)
    + (f.funct3 <<< 12)
    + (bit_and (f.imm >>> 1) 0xf <<< 8)
    + (bit_and (f.imm >>> 11) 0x1 <<< 7)
    + opcode)

unfoldable pub j_word : ℕ → ℕ → ℕ → ℕ
j_word opcode imm rd = u32 (
    (bit_and (imm >>> 20) 0x1 <<< 31)
    + (bit_and (imm >>> 1) 0x3ff <<< 21)
    + (bit_and (imm >>> 11) 0x1 <<< 20)
    + (bit_and (imm >>> 12) 0xff <<< 12)
    + (rd <<< 7)
    + opcode)

module _ (rand : ℕ → ℕ) where
  unfoldable pub random_r_instr : Generator → Outcome Generator
  random_r_instr g =
      let n = g.drawn in
      let funct = get_or funct_val_r_type (rand n % 10) 0 in
      let fields : RFields = record {
        funct3 = bit_and funct 0x7;
        funct7 = bit_or 0x0 (bit_and (funct >>> 3) 0x1 <<< 5);
        rs1 = rand (n + 1) % 32;
        rs2 = rand (n + 2) % 32;
        rd = rand (n + 3) % 32;
      } in
      gen_r_instr fields (record g { drawn = n + 4 })

  unfoldable pub random_u_instr : Generator → Outcome Generator
  random_u_instr g =
      let n = g.drawn in
      gen_u_instr (get_or opcode_val_u_type (rand n % 2) 0) (rand (n + 1) % 32)
        (rand (n + 2) % 0xfffff) (record g { drawn = n + 3 })

  -- The statements from `RS1_I` or `IMM_I` to the checks.
  unfoldable pub redraw_i : Label → IFields → Generator → IFields × Generator
  redraw_i rs_label f g =
      let n = g.drawn in
      (record f { rs1 = rand n % 32; imm = rand (n + 1) % 0xfff }, record g { drawn = n + 2 })
  redraw_i imm_label f g =
      let n = g.drawn in (record f { imm = rand n % 0xfff }, record g { drawn = n + 1 })

  unfoldable pub gen_i_instr : ℕ → Bool → IFields → Generator → Outcome Generator
  gen_i_instr zero vopt f g = out_of_fuel
  gen_i_instr (suc fuel) vopt f g = elim (check_i vopt f g) [
    | passed g1 ↦ emit_i f g1
    | goto l ↦ let (f1, g1) = redraw_i l f g in gen_i_instr fuel vopt f1 g1
    | past_end ↦ fault
  ]

  unfoldable pub random_i_instr : ℕ → Generator → Outcome Generator
  random_i_instr fuel g =
      let n = g.drawn in
      let val = get_or opcode_val_i_type (rand n % 8) 0 in
      let fields : IFields = record {
        opcode = bit_or (bit_and (val >>> 4) 0x1 <<< 4) 0x3;
        funct3 = bit_and val 0x7;
        rd = rand (n + 1) % 32;
        rs1 = 0;
        imm = 0;
      } in
      let (f, g1) = redraw_i rs_label fields (record g { drawn = n + 2 }) in
      gen_i_instr fuel false f g1

  -- The statements from `RS2_S` or `IMM_S` to the check.
  unfoldable pub redraw_s : Label → SFields → Generator → SFields × Generator
  redraw_s rs_label f g =
      let n = g.drawn in (record f { rs2 = rand n % 32 }, record g { drawn = n + 1 })
  redraw_s imm_label f g =
      let n = g.drawn in (record f { imm = rand n % 0xfff }, record g { drawn = n + 1 })

  -- `vopt`, `opcode`, and the fields: from `OUT_S` on.
  unfoldable pub gen_s_instr : ℕ → Bool → ℕ → SFields → Generator → Outcome Generator
  gen_s_instr zero vopt opcode f g = out_of_fuel
  gen_s_instr (suc fuel) vopt opcode f g = elim (check_ls vopt f.rs2 f.imm g) [
    | passed g1 ↦ emit (s_word opcode f) g1
    | goto l ↦ let (f1, g1) = redraw_s l f g in gen_s_instr fuel vopt opcode f1 g1
    | past_end ↦ fault
  ]

  unfoldable pub random_s_instr : ℕ → Generator → Outcome Generator
  random_s_instr fuel g =
      let n = g.drawn in
      let fields : SFields = record {
        funct3 = get_or opcode_val_s_type (rand n % 1) 0;
        rs1 = rand (n + 1) % 32;
        rs2 = rand (n + 2) % 32;
        imm = rand (n + 3) % 0xfff;
      } in
      gen_s_instr fuel false 0x23 fields (record g { drawn = n + 4 })

  -- The statements from `IMM_B` to the check.
  unfoldable pub redraw_b : SFields → Generator → SFields × Generator
  redraw_b f g =
      let n = g.drawn in (record f { imm = rand n % 0xfff <<< 2 }, record g { drawn = n + 1 })

  unfoldable pub gen_b_instr : ℕ → Bool → ℕ → SFields → Generator → Outcome Generator
  gen_b_instr zero vopt opcode f g = out_of_fuel
  gen_b_instr (suc fuel) vopt opcode f g = elim (check_b vopt f g) [
    | passed g1 ↦ emit (b_word opcode f) g1
    | goto l ↦ let (f1, g1) = redraw_b f g in gen_b_instr fuel vopt opcode f1 g1
    | past_end ↦ fault
  ]

  unfoldable pub random_b_instr : ℕ → Generator → Outcome Generator
  random_b_instr fuel g =
      let n = g.drawn in
      let fields : SFields = record {
        funct3 = get_or opcode_val_b_type (rand n % 6) 0;
        rs1 = rand (n + 1) % 32;
        rs2 = rand (n + 2) % 32;
        imm = 0;
      } in
      let (f, g1) = redraw_b fields (record g { drawn = n + 3 }) in gen_b_instr fuel false 0x63 f g1

  -- The statements from `IMM_J` on.
  unfoldable pub choose_j : ℕ → ℕ → ℕ → Generator → Outcome Generator
  choose_j zero opcode rd g = out_of_fuel
  choose_j (suc fuel) opcode rd g =
      let imm = (rand g.drawn % 0x100000 + 1) <<< 2 in
      let g1 = record g { drawn = g.drawn + 1 } in
      let again = choose_j fuel opcode rd g1 in
      if check_j_addr imm 0 0 g1 == 0 then again else emit (j_word opcode imm rd) g1

  -- The first number is drawn for the index of the name that is printed.
  unfoldable pub random_j_instr : ℕ → Generator → Outcome Generator
  random_j_instr fuel g =
      let n = g.drawn in choose_j fuel 0x6f (rand (n + 1) % 32) (record g { drawn = n + 2 })

  -- An immediate that is given but does not pass is drawn instead.
  unfoldable pub given_j_instr : ℕ → ℕ → ℕ → ℕ → Generator → Outcome Generator
  given_j_instr fuel opcode rd imm g =
      let g1 = record g { drawn = g.drawn + 1 } in
      if check_j_addr imm 0 0 g1 == 0
      then choose_j fuel opcode rd g1
      else emit (j_word opcode imm rd) g1

  -- `gen_s_instr` and `gen_b_instr` of given fields put into the word what the variable `opcode`,
  -- which they do not set, happens to hold.
  unfoldable pub given_s_instr : ℕ → ℕ → SFields → Generator → Outcome Generator
  given_s_instr fuel unset f g = gen_s_instr fuel true unset f g

  unfoldable pub given_b_instr : ℕ → ℕ → SFields → Generator → Outcome Generator
  given_b_instr fuel unset f g = gen_b_instr fuel true unset f g
