-- ===== src/Mips/Generator/Api/Laws.antt =====
-- What `find_reg` and `get_reg` of mips/hex_gen/src/hex_gen_api.c find.
use simple_cpu.Base.{
  ℕ, zero, suc, ◌+◌, ◌≤◌, ◌<◌, ◌≡◌, ◌↔◌, arith, true, ◌==◌, if◌then◌else◌, Bool-cases, inl, inr,
  ==_iff, ap, ◌∙◌,
}
use simple_cpu.Mips.Generator.State.{Generator}
use simple_cpu.Mips.Generator.Api.{find_from, find_reg, get_from, get_reg}

find_from-get_from :
    (left i : ℕ) (regs : ℕ → ℕ) (v : ℕ)
    → find_from left i regs v ≡ true
    → (get_from left i regs v < i + left) × (regs (get_from left i regs v) ≡ v)
unfolding find_from get_from
find_from-get_from zero i regs v e = absurd (cc e)
find_from-get_from (suc left) i regs v e = elim (Bool-cases (regs i == v)) [
  | inl here ↦ rw here (omega arith, (==_iff (regs i) v).0 here)
  | inr apart ↦
      let (low, found) = find_from-get_from left (suc i) regs v (rw (apart, if◌then◌else◌) at e) in
      rw apart (omega (arith, low), found)
]

find_from_complete :
    (left i j : ℕ) (regs : ℕ → ℕ) (v : ℕ)
    → i ≤ j
    → j < i + left
    → regs j ≡ v
    → find_from left i regs v ≡ true
unfolding find_from
find_from_complete zero i j regs v low high at = absurd (omega arith)
find_from_complete (suc left) i j regs v low high at = elim (Bool-cases (i == j)) [
  | inl same ↦
      let e : i ≡ j = (==_iff i j).0 same in
      let here : regs i ≡ v = ap regs e ∙ at in ground (arith, here)
  | inr apart ↦
      let rest =
        find_from_complete left (suc i) j regs v (ground (arith, apart)) (omega arith) at in
      ground (arith, rest)
]

-- `find_reg` says that a register holds the value exactly when `get_reg` gives the number of a
-- register, below 32, that holds it.
pub find_reg_iff :
    (v : ℕ) (g : Generator)
    → (find_reg v g ≡ true) ↔ ((get_reg v g < 32) × (g.sim.current.regs (get_reg v g) ≡ v))
unfolding find_reg get_reg
find_reg_iff v g = (
  find_from-get_from 32 0 g.sim.current.regs v,
  λ (h : (get_reg v g < 32) × (g.sim.current.regs (get_reg v g) ≡ v)).
      find_from_complete 32 0 (get_reg v g) g.sim.current.regs v (omega arith) h.0 h.1,
)
