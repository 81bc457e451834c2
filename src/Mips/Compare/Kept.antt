-- ===== src/Mips/Compare/Kept.antt =====
-- When the checks accept: the registers, then the fields of the word.
use simple_cpu.Base.{
  ℕ, ◌^◌, ◌≡◌, ◌-◌, ◌&&◌, ◌||◌, arith, true, false, some, ◌>>>◌, ◌==◌, if◌then◌else◌, bit_and,
  update, write_reg, sym, ap, Bool-cases, inl, inr,
}
use mathlib.Core.Option.{some-injective}
use simple_cpu.Memory.{Store}
use simple_cpu.Mips.Machine.{CpuState, Simulator}
use simple_cpu.Mips.Encode.{encode_r, encode_i}
use simple_cpu.Mips.Isa.{SignOp, div, divu, sign_links, step}
use simple_cpu.Mips.Isa.Code.{sign_rt}
use simple_cpu.Mips.Fields.{r_fields, i_fields}
use simple_cpu.Mips.Fields.Formats.{r_format, i_format, InRange}
use simple_cpu.Mips.Compare.{matched, compare_r, compare_i, compare_j}

-- A value of a register before the instruction, `before`, is as good as the one that the check
-- expects, unless the register is the destination.
abbrev pub IsKept : ℕ → (ℕ → ℕ) → ℕ → ℕ → Type 0
IsKept rd after r before = after r ≡ (if r == rd then after rd else before)

pub IsKept-write :
    (rd r v : ℕ) (regs after : ℕ → ℕ) → after ≡ write_reg rd v regs → IsKept rd after r (regs r)
IsKept-write rd r v regs after e = rw e (ground arith)

pub IsKept-same : (rd r : ℕ) (regs after : ℕ → ℕ) → after ≡ regs → IsKept rd after r (regs r)
IsKept-same rd r regs after e = rw e (ground arith)

pub IsKept-update :
    (rd r i v : ℕ) (regs after : ℕ → ℕ)
    → after ≡ update regs i v
    → (i == r) ≡ false
    → IsKept rd after r (regs r)
IsKept-update rd r i v regs after e other = rw e (ground arith)

pub IsKept-link :
    (op : SignOp) (r : ℕ) (regs after : ℕ → ℕ) (v : ℕ)
    → after ≡ (if sign_links op then update regs 31 v else regs)
    → IsKept (if sign_links op then 31 else sign_rt op) after r (regs r)
IsKept-link op r regs after v e = elim (Bool-cases (sign_links op)) [
  | inl links ↦ rw links (let same = rw links at e in rw same (ground arith))
  | inr plain ↦ rw plain (IsKept-same (sign_rt op) r regs after (rw plain at e))
]

module _ (t : Simulator) where
  -- The register field of the last word that starts at a bit.
  abbrev Field : ℕ → ℕ → Type 0
  Field at r = bit_and (t.instr_opcode >>> at) 0x1f ≡ r

  pub accept_r :
      (rd rs rt rs_field v1 v2 : ℕ)
      → Field 11 rd
      → Field 21 rs_field
      → Field 16 rt
      → rs ≡ (if t.rt_as_src then rt else rs_field)
      → t.wr_link_reg ≡ false
      → IsKept rd t.current.regs rs v1
      → IsKept rd t.current.regs rt v2
      → compare_r t.prev_pc t.instr_opcode rd rs rt (t.current.regs rd) v1 v2 t ≡ matched t
  unfolding compare_r
  accept_r rd rs rt rs_field v1 v2 fd fs ft source unlinked k1 k2 = ground arith

  pub accept_i :
      (rs rt rt_field v : ℕ)
      → Field 21 rs
      → Field 16 rt_field
      → rt ≡ (if t.wr_link_reg then 31 else rt_field)
      → IsKept rt t.current.regs rs v
      → compare_i t.prev_pc t.instr_opcode rs rt v (t.current.regs rt) t ≡ matched t
  unfolding compare_i
  accept_i rs rt rt_field v fs ft target k = ground arith

  pub skip_j :
      (rt v : ℕ) → t.wr_link_reg ≡ false → compare_j t.prev_pc t.instr_opcode rt v t ≡ matched t
  unfolding compare_j
  skip_j rt v unlinked = ground arith

  pub accept_j :
      t.wr_link_reg ≡ true → compare_j t.prev_pc t.instr_opcode 31 (t.current.regs 31) t ≡ matched t
  unfolding compare_j
  accept_j linked = ground arith

-- What an instruction leaves in the registers.
pub regs_after : {x b : CpuState × Store} → some x ≡ some b → b.0.regs ≡ x.0.regs
regs_after {x} {b} did = ap (λ (y : CpuState × Store). y.0.regs) (sym (some-injective x b did))

-- Division leaves the registers alone.
pub div_regs :
    (rd rs rt : ℕ) (c : CpuState) (m : Store) (b : CpuState × Store)
    → step (div rd rs rt) c m ≡ some b
    → b.0.regs ≡ c.regs
div_regs rd rs rt c m b did =
    elim (Bool-cases (c.regs rt == 0 || c.regs rs == 2 ^ 31 && c.regs rt == 2 ^ 32 - 1)) [
      | inl undefined ↦ absurd (let e = rw undefined at did in cc e)
      | inr fine ↦ regs_after (rw fine at did)
    ]

pub divu_regs :
    (rd rs rt : ℕ) (c : CpuState) (m : Store) (b : CpuState × Store)
    → step (divu rd rs rt) c m ≡ some b
    → b.0.regs ≡ c.regs
divu_regs rd rs rt c m b did = elim (Bool-cases (c.regs rt == 0)) [
  | inl undefined ↦ absurd (let e = rw undefined at did in cc e)
  | inr fine ↦ regs_after (rw fine at did)
]

pub r_accepted :
    (rs rt rd n funct r v1 v2 : ℕ) (t : Simulator)
    → InRange (r_format rs rt rd n funct)
    → t.instr_opcode ≡ encode_r rs rt rd n funct
    → r ≡ (if t.rt_as_src then rt else rs)
    → t.wr_link_reg ≡ false
    → IsKept rd t.current.regs r v1
    → IsKept rd t.current.regs rt v2
    → compare_r t.prev_pc t.instr_opcode rd r rt (t.current.regs rd) v1 v2 t ≡ matched t
r_accepted rs rt rd n funct r v1 v2 t (hs, ht, hd, hn, hf) e source unlinked k1 k2 =
    let (es, et, ed, _, _, _) = r_fields rs rt rd n funct hs ht hd hn hf in
    accept_r t rd r rt rs v1 v2 (rw e ed) (rw e es) (rw e et) source unlinked k1 k2

pub i_accepted :
    (opcode rs rt_field imm rt v : ℕ) (t : Simulator)
    → InRange (i_format opcode rs rt_field imm)
    → t.instr_opcode ≡ encode_i opcode rs rt_field imm
    → rt ≡ (if t.wr_link_reg then 31 else rt_field)
    → IsKept rt t.current.regs rs v
    → compare_i t.prev_pc t.instr_opcode rs rt v (t.current.regs rt) t ≡ matched t
i_accepted opcode rs rt_field imm rt v t (_, _, _, ho, hs, ht, hi) e target k =
    let (_, es, et, _, _) = i_fields opcode rs rt_field imm ho hs ht hi in
    accept_i t rs rt rt_field v (rw e es) (rw e et) target k
