-- ===== src/Mips/Generator/Choices.antt =====
-- The random instructions of mips/hex_gen/src/hex_gen.c keep the arrays in step with the memory.
pub mod Checks
use simple_cpu.Base.{
  ℕ, zero, suc, ◌+◌, ◌-◌, ◌*◌, ◌/◌, ◌%◌, ◌^◌, ◌≤◌, ◌<◌, ◌≡◌, ◌≢◌, ◌⊎◌, refl, arith, Bool, true,
  false, not, ◌&&◌, ◌||◌, Option, some, none, ◌==◌, if◌then◌else◌, u32, ltb, sym, ap, ◌∙◌, update,
  Bool-cases, ==_iff, inl, inr, bit_and, bit_or, ◌<<<◌, ◌>>>◌, List, [], ◌∷◌, get_or,
}
use simple_cpu.HexGen.{imem_size}
use simple_cpu.Extend.{shift_const, extend}
use simple_cpu.Driver.{Outcome, returned, exited, fault, out_of_fuel}
use simple_cpu.Mips.Opcode
use simple_cpu.Mips.Machine.{reg}
use simple_cpu.Mips.Encode.{encode_r, encode_i, encode_j}
use simple_cpu.Mips.Run.Effect.{is_plain, is_quiet, access_address}
use simple_cpu.Mips.Generator.State.{Generator}
use simple_cpu.Mips.Generator.Emit.{emit}
use simple_cpu.Mips.Generator.Check.{
  check_ls_addr, mem_data_start, mem_data_size, check_brn_addr, check_j_addr,
}
use simple_cpu.Mips.Generator.Random.{
  RFields, IFields, funct_val_r_type, opcode_val_i_type, Label, rs_label, imm_label, Checked,
  passed, goto, past_end, retarget, check_ls, is_branch, check_brn, check_i, emit_i, gen_r_instr,
  random_r_instr, redraw, choose_i, random_i_instr, choose_j, gen_j_instr,
}
use simple_cpu.Mips.Generator.Tame.{
  IsTame, encode_r-IsTame, encode_i-IsTame, encode_sw-IsTame, encode_j-IsTame,
}
use simple_cpu.Mips.Generator.Recorded.{IsPlaced, IsRecorded}
use simple_cpu.Mips.Generator.Invariant.{Advances, emit-Advances}
use simple_cpu.Mips.Generator.Choices.Checks.{
  funct_val_r_type-is_plain, encode_r-lt, encode_j-lt, opcode_val_i_type-is_drawn, retarget-drawn,
  goto-same, Checked-cases, check_i-passed, emit_i-Advances, InRange, is_drawn,
}

module _ (rand : ℕ → ℕ) where
  redraw-InRange :
      (l : Label) (f : IFields) (g : Generator)
      → InRange f
      → InRange (redraw rand l f g).0
        × ((redraw rand l f g).1 ≡ record g { drawn = (redraw rand l f g).1.drawn })
  unfolding redraw
  redraw-InRange rs_label f g (drawn, hs, ht, hi) = ((drawn, omega arith, ht, omega arith), refl)
  redraw-InRange imm_label f g (drawn, hs, ht, hi) = ((drawn, hs, ht, omega arith), refl)

  choose_i-Advances :
      (fuel : ℕ) (l : Label) (f : IFields) (g g' : Generator)
      → InRange f
      → IsRecorded g
      → choose_i rand fuel l f g ≡ returned g'
      → Advances 1 g g'
  unfolding choose_i
  choose_i-Advances zero l f g g' range inv e = absurd (cc e)
  choose_i-Advances (suc fuel) l f g g' range inv e =
      let f1 = (redraw rand l f g).0 in
      let g1 = (redraw rand l f g).1 in
      let (range1, eg) = redraw-InRange l f g range in
      let inv1 : IsRecorded g1 = rw eg inv in
      let same_gen : g1.instr_gen ≡ g.instr_gen = ap (λ (h : Generator). h.instr_gen) eg in
      let same = retarget-drawn f1 range1.0 in
      elim (Checked-cases (check_i false f1 g1)) [
        | inl (f2, g2, c) ↦
            let h = rw (c, choose_i) at e in
            let ((ef, eg2), far) = check_i-passed f1 f2 g1 g2 same c in
            let (inv', n) =
              emit_i-Advances f2 g2 g' (rw ef range1) (rw (ef, eg2) far) (rw eg2 inv1) h in
            let kept : g2.instr_gen ≡ g1.instr_gen = ap (λ (k : Generator). k.instr_gen) eg2 in
            (inv', omega (arith, n, kept, same_gen))
        | inr (inl (l2, f2, c)) ↦
            let h = rw (c, choose_i) at e in
            let ef = goto-same f1 f2 l2 g1 c same in
            let (inv', n) = choose_i-Advances fuel l2 f2 g1 g' (rw ef range1) inv1 h in
            (inv', omega (arith, n, same_gen))
        | inr (inr c) ↦ absurd (let h = rw (c, choose_i) at e in cc h)
      ]

  pub random_i_instr-Advances :
      (fuel : ℕ) (g g' : Generator)
      → IsRecorded g
      → random_i_instr rand fuel g ≡ returned g'
      → Advances 1 g g'
  unfolding random_i_instr
  random_i_instr-Advances fuel g g' inv e =
      let n = g.drawn in
      choose_i-Advances fuel rs_label _ (record g { drawn = n + 2 }) g'
        (
          opcode_val_i_type-is_drawn (rand n % 8) (omega arith),
          omega arith,
          omega arith,
          omega arith,
        )
        inv e

  pub random_r_instr-Advances :
      (g g' : Generator) → IsRecorded g → random_r_instr rand g ≡ returned g' → Advances 1 g g'
  unfolding random_r_instr gen_r_instr
  random_r_instr-Advances g g' inv e =
      let n = g.drawn in
      let funct = get_or funct_val_r_type (rand n % 5) 0 in
      let rs = rand (n + 1) % 32 in
      let rt = rand (n + 2) % 32 in
      let rd = rand (n + 3) % 32 in
      let shamt = rand (n + 4) % 32 in
      emit-Advances (encode_r rs rt rd shamt funct) (record g { drawn = n + 5 }) g'
        (encode_r-lt rs rt rd shamt funct)
        (λ _.
          encode_r-IsTame g.sim.current inv.0.2 rs rt rd shamt funct (omega arith) (omega arith)
            (omega arith) (omega arith) (funct_val_r_type-is_plain (rand n % 5) (omega arith)))
        inv e

  choose_j-Advances :
      (fuel : ℕ) (g g' : Generator)
      → IsRecorded g
      → choose_j rand fuel Opcode.j g ≡ returned g'
      → Advances 1 g g'
  unfolding choose_j
  choose_j-Advances zero g g' inv e = absurd (cc e)
  choose_j-Advances (suc fuel) g g' inv e =
      let target = rand g.drawn % 0x3ffffff in
      let g1 = record g { drawn = g.drawn + 1 } in
      let again = choose_j-Advances fuel g1 g' inv in
      let word = encode_j Opcode.j target in
      let made : emit word g1 ≡ returned g' → Advances 1 g g' =
        emit-Advances word g1 g' (encode_j-lt Opcode.j target)
          (λ low. encode_j-IsTame g.sim.current inv.0.2 target (omega arith) (omega (arith, low)))
          inv in
      ground (arith, again, made)

  pub gen_j_instr-Advances :
      (fuel : ℕ) (g g' : Generator)
      → IsRecorded g
      → gen_j_instr rand fuel g ≡ returned g'
      → Advances 1 g g'
  unfolding gen_j_instr
  gen_j_instr-Advances fuel g g' inv e =
      let made = choose_j-Advances fuel (record g { drawn = g.drawn + 1 }) g' inv in
      ground (arith, made)
