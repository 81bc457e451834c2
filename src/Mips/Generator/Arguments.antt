-- ===== src/Mips/Generator/Arguments.antt =====
-- `main` of mips/hex_gen/src/hex_gen.c: the reading of its arguments.
use Prim.Native.String.{String}
use text.Mathlib.Text.{◌==◌}
use simple_cpu.Base.{
  ℕ, Bool, true, false, not, ◌||◌, Option, none, some, ◌>>=◌, List, [], ◌∷◌, if◌then◌else◌, ◌≡◌,
  refl, arith, ap, ◌∙◌, inl, inr,
}
use simple_cpu.HexGen.Arguments.{next_value, value_of, or_default, or_step, is_it}
use simple_cpu.Driver.{Outcome, fault}
use simple_cpu.Mips.Generator.State.{Generator}
use simple_cpu.Mips.Generator.Mix.{generate}

-- `num_r`, `num_i` and `num_j`, bit patterns of an `int`.
pub record Numbers : Type 0 where
  pub r : ℕ
  pub i : ℕ
  pub j : ℕ

abbrev pub no_counts : Numbers
no_counts = record { r = 0; i = 0; j = 0 }

module _ (atoi : String → ℕ) where
  -- One round of the loop; the value of a flag is what follows it.
  unfoldable pub assign : String → List String → Numbers → Option Numbers
  assign a rest n =
      let value = next_value atoi rest in
      if a == "-r"
      then (do v ← value; some (record n { r = v }))
      else if a == "-i"
      then (do v ← value; some (record n { i = v }))
      else if a == "-j"
      then (do v ← value; some (record n { j = v }))
      else some n

  -- The loop over `argv`.
  unfoldable pub parse : List String → Numbers → Option Numbers
  parse [] n = some n
  parse (a ∷ rest) n = do n1 ← assign a rest n; parse rest n1

  -- Up to the printing of the files. `none` is a flag without a value.
  unfoldable pub main : (ℕ → ℕ) → ℕ → List String → Generator → Outcome Generator
  main rand fuel argv g = elim (parse argv no_counts) [
    | none ↦ fault
    | some n ↦ generate rand n.r n.i n.j fuel g
  ]

  abbrev is_flag : String → Bool
  is_flag a = a == "-r" || a == "-i" || a == "-j"

  -- The last argument is no flag: each has a value.
  abbrev pub is_complete : List String → Bool
  is_complete [] = true
  is_complete (a ∷ []) = not (is_flag a)
  is_complete (a ∷ b ∷ rest) = is_complete (b ∷ rest)

  -- The numbers after the last occurrence of each flag, or what was there before.
  abbrev pub counts_of : List String → Numbers → Numbers
  counts_of args n = record {
    r = or_default (value_of atoi "-r" args) n.r;
    i = or_default (value_of atoi "-i" args) n.i;
    j = or_default (value_of atoi "-j" args) n.j;
  }

  abbrev given : String → ℕ → Numbers → Numbers
  given a v n = record {
    r = if a == "-r" then v else n.r;
    i = if a == "-i" then v else n.i;
    j = if a == "-j" then v else n.j;
  }

  assign_lem :
      (a b : String) (rest : List String) (n : Numbers)
      → assign a (b ∷ rest) n ≡ some (given a (atoi b) n)
  unfolding assign next_value
  assign_lem a b rest n = elim (is_it a "-r") [
    | inl here ↦ rw here refl
    | inr no_r ↦ elim (is_it a "-i") [
      | inl here ↦ rw here refl
      | inr no_i ↦ elim (is_it a "-j") [
        | inl here ↦ rw here refl
        | inr no_j ↦ rw (no_r, no_i, no_j) refl
      ]
    ]
  ]

  single :
      (a : String) (n : Numbers) → is_flag a ≡ false → assign a [] n ≡ some (counts_of (a ∷ []) n)
  unfolding assign next_value
  single a n other = ground (arith, other)

  steps :
      (a b : String) (rest : List String) (n : Numbers)
      → counts_of (b ∷ rest) (given a (atoi b) n) ≡ counts_of (a ∷ b ∷ rest) n
  unfolding next_value
  steps a b rest n = λ i. record {
    r = or_step (value_of atoi "-r" (b ∷ rest)) (a == "-r") (atoi b) n.r i;
    i = or_step (value_of atoi "-i" (b ∷ rest)) (a == "-i") (atoi b) n.i i;
    j = or_step (value_of atoi "-j" (b ∷ rest)) (a == "-j") (atoi b) n.j i;
  }

  -- Where each flag has a value, every count is the number after the last occurrence of its flag.
  pub parse_lem :
      (args : List String) (n : Numbers)
      → is_complete args ≡ true
      → parse args n ≡ some (counts_of args n)
  unfolding parse next_value
  parse_lem [] n h = refl
  parse_lem (a ∷ []) n h = rw (single a n (ground (arith, h))) refl
  parse_lem (a ∷ b ∷ rest) n h =
      let rec = parse_lem (b ∷ rest) (given a (atoi b) n) h in
      rw (assign_lem a b rest n) (rec ∙ ap some (steps a b rest n))
