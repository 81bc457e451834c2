-- ===== src/Riscv/Generator/Choices.antt =====
-- The choices of fields of risc-v/hex_gen/src/hex_gen.c: each ends with one instruction more.
use simple_cpu.Base.{ℕ, zero, suc, ◌+◌, ◌%◌, ◌≡◌, ◌⊎◌, refl, arith, Bool, false, ◌<<<◌, inl, inr}
use simple_cpu.Driver.{returned}
use simple_cpu.Riscv.State.{IsReady}
use simple_cpu.Riscv.Generator.State.{Generator}
use simple_cpu.Riscv.Generator.Emit.{emit}
use simple_cpu.Riscv.Generator.Fields.{
  IFields, SFields, Label, rs_label, imm_label, Checked, passed, goto, past_end, check_ls, check_i,
  check_b,
}
use simple_cpu.Riscv.Generator.Choose.{
  gen_r_instr, gen_u_instr, emit_i, j_word, random_r_instr, random_u_instr, redraw_i, gen_i_instr,
  random_i_instr, redraw_s, gen_s_instr, random_s_instr, redraw_b, gen_b_instr, random_b_instr,
  choose_j, random_j_instr,
}
use simple_cpu.Riscv.Generator.Advance.{Advances, emit-Advances}

Checked-cases :
    (c : Checked)
    → ((g : Generator) × (c ≡ passed g)) ⊎ (((l : Label) × (c ≡ goto l)) ⊎ (c ≡ past_end))
Checked-cases (passed g) = inl (g, refl)
Checked-cases (goto l) = inr (inl (l, refl))
Checked-cases past_end = inr (inr refl)

-- The checks change the tables of addresses at most.
abbrev IsSame : Generator → Generator → Type 0
IsSame g g' = (g'.sim ≡ g.sim) × (g'.instr_gen ≡ g.instr_gen)

check_ls-IsSame :
    (vopt : Bool) (rs imm : ℕ) (g g' : Generator) → check_ls vopt rs imm g ≡ passed g' → IsSame g g'
unfolding check_ls
check_ls-IsSame vopt rs imm g g' e = ground arith

check_i-IsSame :
    (vopt : Bool) (f : IFields) (g g' : Generator) → check_i vopt f g ≡ passed g' → IsSame g g'
unfolding check_i
check_i-IsSame vopt f g g' e = ground (arith, check_ls-IsSame vopt f.rs1 f.imm g g')

check_b-IsSame :
    (vopt : Bool) (f : SFields) (g g' : Generator) → check_b vopt f g ≡ passed g' → IsSame g g'
unfolding check_b
check_b-IsSame vopt f g g' e = ground arith

emitted :
    (w : ℕ) (g g1 g' : Generator)
    → IsReady g.sim
    → IsSame g g1
    → emit w g1 ≡ returned g'
    → Advances 1 g g'
emitted w g g1 g' r (es, en) e =
    let (ready, n) = emit-Advances w g1 g' (rw es r) e in (ready, omega (arith, n, en))

from_same : (g g1 g' : Generator) → IsSame g g1 → Advances 1 g1 g' → Advances 1 g g'
from_same g g1 g' (_, en) (ready, n) = (ready, omega (arith, n, en))

module _ (rand : ℕ → ℕ) where
  redraw_i-IsSame : (l : Label) (f : IFields) (g : Generator) → IsSame g (redraw_i rand l f g).1
  unfolding redraw_i
  redraw_i-IsSame rs_label f g = (refl, refl)
  redraw_i-IsSame imm_label f g = (refl, refl)

  redraw_s-IsSame : (l : Label) (f : SFields) (g : Generator) → IsSame g (redraw_s rand l f g).1
  unfolding redraw_s
  redraw_s-IsSame rs_label f g = (refl, refl)
  redraw_s-IsSame imm_label f g = (refl, refl)

  gen_i_instr-Advances :
      (fuel : ℕ) (vopt : Bool) (f : IFields) (g g' : Generator)
      → IsReady g.sim
      → gen_i_instr rand fuel vopt f g ≡ returned g'
      → Advances 1 g g'
  unfolding gen_i_instr emit_i
  gen_i_instr-Advances zero vopt f g g' r e = absurd (cc e)
  gen_i_instr-Advances (suc fuel) vopt f g g' r e = elim (Checked-cases (check_i vopt f g)) [
    | inl (g1, c) ↦ emitted _ g g1 g' r (check_i-IsSame vopt f g g1 c) (rw (c, gen_i_instr) at e)
    | inr (inl (l, c)) ↦
        let (f1, g1) = redraw_i rand l f g in
        let same = redraw_i-IsSame l f g in
        from_same g g1 g' same
          (gen_i_instr-Advances fuel vopt f1 g1 g' (rw same.0 r) (rw (c, gen_i_instr) at e))
    | inr (inr c) ↦ absurd (let h = rw (c, gen_i_instr) at e in cc h)
  ]

  gen_s_instr-Advances :
      (fuel : ℕ) (vopt : Bool) (opcode : ℕ) (f : SFields) (g g' : Generator)
      → IsReady g.sim
      → gen_s_instr rand fuel vopt opcode f g ≡ returned g'
      → Advances 1 g g'
  unfolding gen_s_instr
  gen_s_instr-Advances zero vopt opcode f g g' r e = absurd (cc e)
  gen_s_instr-Advances (suc fuel) vopt opcode f g g' r e =
      elim (Checked-cases (check_ls vopt f.rs2 f.imm g)) [
        | inl (g1, c) ↦
            emitted _ g g1 g' r (check_ls-IsSame vopt f.rs2 f.imm g g1 c) (rw (c, gen_s_instr) at e)
        | inr (inl (l, c)) ↦
            let (f1, g1) = redraw_s rand l f g in
            let same = redraw_s-IsSame l f g in
            from_same g g1 g' same (
              gen_s_instr-Advances fuel vopt opcode f1 g1 g' (rw same.0 r)
                (rw (c, gen_s_instr) at e))
        | inr (inr c) ↦ absurd (let h = rw (c, gen_s_instr) at e in cc h)
      ]

  gen_b_instr-Advances :
      (fuel : ℕ) (vopt : Bool) (opcode : ℕ) (f : SFields) (g g' : Generator)
      → IsReady g.sim
      → gen_b_instr rand fuel vopt opcode f g ≡ returned g'
      → Advances 1 g g'
  unfolding gen_b_instr redraw_b
  gen_b_instr-Advances zero vopt opcode f g g' r e = absurd (cc e)
  gen_b_instr-Advances (suc fuel) vopt opcode f g g' r e = elim (Checked-cases (check_b vopt f g)) [
    | inl (g1, c) ↦ emitted _ g g1 g' r (check_b-IsSame vopt f g g1 c) (rw (c, gen_b_instr) at e)
    | inr (inl (l, c)) ↦
        let (f1, g1) = redraw_b rand f g in
        let same : IsSame g g1 = (refl, refl) in
        from_same g g1 g' same
          (gen_b_instr-Advances fuel vopt opcode f1 g1 g' (rw same.0 r) (rw (c, gen_b_instr) at e))
    | inr (inr c) ↦ absurd (let h = rw (c, gen_b_instr) at e in cc h)
  ]

  choose_j-Advances :
      (fuel opcode rd : ℕ) (g g' : Generator)
      → IsReady g.sim
      → choose_j rand fuel opcode rd g ≡ returned g'
      → Advances 1 g g'
  unfolding choose_j
  choose_j-Advances zero opcode rd g g' r e = absurd (cc e)
  choose_j-Advances (suc fuel) opcode rd g g' r e =
      let imm = (rand g.drawn % 0x100000 + 1) <<< 2 in
      let g1 = record g { drawn = g.drawn + 1 } in
      let again = choose_j-Advances fuel opcode rd g1 g' r in
      let made = emit-Advances (j_word opcode imm rd) g1 g' r in ground (arith, again, made)

  pub random_r_instr-Advances :
      (g g' : Generator) → IsReady g.sim → random_r_instr rand g ≡ returned g' → Advances 1 g g'
  unfolding random_r_instr gen_r_instr
  random_r_instr-Advances g g' r e = emit-Advances _ (record g { drawn = g.drawn + 4 }) g' r e

  pub random_u_instr-Advances :
      (g g' : Generator) → IsReady g.sim → random_u_instr rand g ≡ returned g' → Advances 1 g g'
  unfolding random_u_instr gen_u_instr
  random_u_instr-Advances g g' r e = emit-Advances _ (record g { drawn = g.drawn + 3 }) g' r e

  pub random_i_instr-Advances :
      (fuel : ℕ) (g g' : Generator)
      → IsReady g.sim
      → random_i_instr rand fuel g ≡ returned g'
      → Advances 1 g g'
  unfolding random_i_instr redraw_i
  random_i_instr-Advances fuel g g' r e =
      gen_i_instr-Advances fuel false _ (record g { drawn = g.drawn + 2 + 2 }) g' r e

  pub random_s_instr-Advances :
      (fuel : ℕ) (g g' : Generator)
      → IsReady g.sim
      → random_s_instr rand fuel g ≡ returned g'
      → Advances 1 g g'
  unfolding random_s_instr
  random_s_instr-Advances fuel g g' r e =
      gen_s_instr-Advances fuel false 0x23 _ (record g { drawn = g.drawn + 4 }) g' r e

  pub random_b_instr-Advances :
      (fuel : ℕ) (g g' : Generator)
      → IsReady g.sim
      → random_b_instr rand fuel g ≡ returned g'
      → Advances 1 g g'
  unfolding random_b_instr redraw_b
  random_b_instr-Advances fuel g g' r e =
      gen_b_instr-Advances fuel false 0x63 _ (record g { drawn = g.drawn + 3 + 1 }) g' r e

  pub random_j_instr-Advances :
      (fuel : ℕ) (g g' : Generator)
      → IsReady g.sim
      → random_j_instr rand fuel g ≡ returned g'
      → Advances 1 g g'
  unfolding random_j_instr
  random_j_instr-Advances fuel g g' r e =
      choose_j-Advances fuel 0x6f _ (record g { drawn = g.drawn + 2 }) g' r e
