-- ===== src/Riscv/Generator/Arguments.antt =====
-- `main` of risc-v/hex_gen/src/hex_gen.c: the reading of its arguments.
use Prim.Native.String.{String}
use text.Mathlib.Text.{◌==◌}
use simple_cpu.Base.{
  positive_part, ℕ, Bool, true, false, not, ◌||◌, Option, none, some, ◌>>=◌, List, [], ◌∷◌,
  if◌then◌else◌, ◌≡◌, refl, arith, ap, ◌∙◌, inl, inr,
}
use simple_cpu.HexGen.Arguments.{next_value, value_of, or_default, or_step, is_it}
use simple_cpu.Driver.{Outcome, returned, fault}
use simple_cpu.Riscv.Generator.State.{Generator}
use simple_cpu.Riscv.Generator.Mix.{Counts, generate}
use simple_cpu.Riscv.Generator.Program.{asked, generate-IsReady}
use simple_cpu.Riscv.State.{IsState, IsReady}
use simple_cpu.Memory.Laws.{IsBytes}

abbrev pub no_counts : Counts
no_counts = record { r = 0; i = 0; s = 0; b = 0; u = 0; j = 0 }

module _ (atoi : String → ℕ) where
  -- One round of the loop; the value of a flag is what follows it.
  unfoldable pub assign : String → List String → Counts → Option Counts
  assign a rest n =
      let value = next_value atoi rest in
      if a == "-r"
      then (do v ← value; some (record n { r = v }))
      else if a == "-i"
      then (do v ← value; some (record n { i = v }))
      else if a == "-s"
      then (do v ← value; some (record n { s = v }))
      else if a == "-b"
      then (do v ← value; some (record n { b = v }))
      else if a == "-u"
      then (do v ← value; some (record n { u = v }))
      else if a == "-j"
      then (do v ← value; some (record n { j = v }))
      else some n

  -- The loop over `argv`.
  unfoldable pub parse : List String → Counts → Option Counts
  parse [] n = some n
  parse (a ∷ rest) n = do n1 ← assign a rest n; parse rest n1

  -- Up to the printing of the files. `none` is a flag without a value.
  unfoldable pub main : (ℕ → ℕ) → ℕ → Bool → List String → Generator → Outcome Generator
  main rand fuel preloaded argv g = elim (parse argv no_counts) [
    | none ↦ fault
    | some n ↦ generate rand n fuel preloaded g
  ]

  abbrev is_flag : String → Bool
  is_flag a = a == "-r" || a == "-i" || a == "-s" || a == "-b" || a == "-u" || a == "-j"

  -- The last argument is no flag: each has a value.
  abbrev pub is_complete : List String → Bool
  is_complete [] = true
  is_complete (a ∷ []) = not (is_flag a)
  is_complete (a ∷ b ∷ rest) = is_complete (b ∷ rest)

  -- The numbers after the last occurrence of each flag, or what was there before.
  abbrev pub counts_of : List String → Counts → Counts
  counts_of args n = record {
    r = or_default (value_of atoi "-r" args) n.r;
    i = or_default (value_of atoi "-i" args) n.i;
    s = or_default (value_of atoi "-s" args) n.s;
    b = or_default (value_of atoi "-b" args) n.b;
    u = or_default (value_of atoi "-u" args) n.u;
    j = or_default (value_of atoi "-j" args) n.j;
  }

  abbrev given : String → ℕ → Counts → Counts
  given a v n = record {
    r = if a == "-r" then v else n.r;
    i = if a == "-i" then v else n.i;
    s = if a == "-s" then v else n.s;
    b = if a == "-b" then v else n.b;
    u = if a == "-u" then v else n.u;
    j = if a == "-j" then v else n.j;
  }

  assign_lem :
      (a b : String) (rest : List String) (n : Counts)
      → assign a (b ∷ rest) n ≡ some (given a (atoi b) n)
  unfolding assign next_value
  assign_lem a b rest n = elim (is_it a "-r") [
    | inl here ↦ rw here refl
    | inr no_r ↦ elim (is_it a "-i") [
      | inl here ↦ rw here refl
      | inr no_i ↦ elim (is_it a "-s") [
        | inl here ↦ rw here refl
        | inr no_s ↦ elim (is_it a "-b") [
          | inl here ↦ rw here refl
          | inr no_b ↦ elim (is_it a "-u") [
            | inl here ↦ rw here refl
            | inr no_u ↦ elim (is_it a "-j") [
              | inl here ↦ rw here refl
              | inr no_j ↦ rw (no_r, no_i, no_s, no_b, no_u, no_j) refl
            ]
          ]
        ]
      ]
    ]
  ]

  single :
      (a : String) (n : Counts) → is_flag a ≡ false → assign a [] n ≡ some (counts_of (a ∷ []) n)
  unfolding assign next_value
  single a n other = ground (arith, other)

  steps :
      (a b : String) (rest : List String) (n : Counts)
      → counts_of (b ∷ rest) (given a (atoi b) n) ≡ counts_of (a ∷ b ∷ rest) n
  unfolding next_value
  steps a b rest n = λ i. record {
    r = or_step (value_of atoi "-r" (b ∷ rest)) (a == "-r") (atoi b) n.r i;
    i = or_step (value_of atoi "-i" (b ∷ rest)) (a == "-i") (atoi b) n.i i;
    s = or_step (value_of atoi "-s" (b ∷ rest)) (a == "-s") (atoi b) n.s i;
    b = or_step (value_of atoi "-b" (b ∷ rest)) (a == "-b") (atoi b) n.b i;
    u = or_step (value_of atoi "-u" (b ∷ rest)) (a == "-u") (atoi b) n.u i;
    j = or_step (value_of atoi "-j" (b ∷ rest)) (a == "-j") (atoi b) n.j i;
  }

  -- Where each flag has a value, every count is the number after the last occurrence of its flag.
  pub parse_lem :
      (args : List String) (n : Counts)
      → is_complete args ≡ true
      → parse args n ≡ some (counts_of args n)
  unfolding parse next_value
  parse_lem [] n h = refl
  parse_lem (a ∷ []) n h = rw (single a n (ground (arith, h))) refl
  parse_lem (a ∷ b ∷ rest) n h =
      let rec = parse_lem (b ∷ rest) (given a (atoi b) n) h in
      rw (assign_lem a b rest n) (rec ∙ ap some (steps a b rest n))

  -- The whole of `main` of the RISC-V generator up to its files, from globals that hold words and
  -- bytes and a register 0 of 0, with arguments in which each flag has a value, whatever numbers
  -- `rand` gives: where it returns, it has counted as many instructions as the `int` values after
  -- the last occurrence of each of the six flags (0 for a flag that is missing) add up to as an
  -- `int`, or none where that sum is negative, and the simulator that it runs them on is ready
  -- (`IsReady`).
  pub main-IsReady :
      (rand : ℕ → ℕ) (fuel : ℕ) (preloaded : Bool) (argv : List String) (g g' : Generator)
      → is_complete argv ≡ true
      → IsState g.sim.current
      → IsBytes g.sim.mem
      → main rand fuel preloaded argv g ≡ returned g'
      → IsReady g'.sim × (g'.instr_gen ≡ positive_part (asked (counts_of argv no_counts)))
  unfolding main
  main-IsReady rand fuel preloaded argv g g' complete state bytes e =
      let h = rw (parse_lem argv no_counts complete, main) at e in
      generate-IsReady rand (counts_of argv no_counts) fuel preloaded g g' state bytes h
