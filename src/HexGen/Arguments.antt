-- ===== src/HexGen/Arguments.antt =====
-- The arguments of the two generators: `argv` up to its null pointer, as a list. `atoi` is the
-- library's function, whose `int` is given as its bit pattern; of a null pointer it is undefined.
use simple_cpu.Base.{
  ℕ, Bool, true, false, Option, none, some, List, [], ◌∷◌, if◌then◌else◌, ◌⊎◌, ◌≡◌, refl, inl, inr,
  Bool-cases,
}
use Prim.Native.String.{String}
use text.Mathlib.Text.{◌==◌}
use text.Mathlib.TextEquality.{eq_iff}

-- `x`, or else `y`.
abbrev pub or_else : Option ℕ → Option ℕ → Option ℕ
or_else (some x) y = some x
or_else none y = y

abbrev pub or_default : Option ℕ → ℕ → ℕ
or_default (some x) d = x
or_default none d = d

module _ (atoi : String → ℕ) where
  -- `atoi (argv[i+1])`
  unfoldable pub next_value : List String → Option ℕ
  next_value [] = none
  next_value (a ∷ rest) = some (atoi a)

  -- What follows the last occurrence of a flag.
  abbrev pub value_of : String → List String → Option ℕ
  unfolding next_value
  value_of flag [] = none
  value_of flag (a ∷ rest) =
      or_else (value_of flag rest) (if a == flag then next_value rest else none)

pub or_step :
    (x : Option ℕ) (b : Bool) (v d : ℕ)
    → or_default x (if b then v else d) ≡ or_default (or_else x (if b then some v else none)) d
or_step (some x) true v d = refl
or_step (some x) false v d = refl
or_step none true v d = refl
or_step none false v d = refl

-- The test of an argument decides whether it is the flag.
pub is_it : (a flag : String) → (a ≡ flag) ⊎ ((a == flag) ≡ false)
is_it a flag = elim (Bool-cases (a == flag)) [
  | inl same ↦ inl ((eq_iff a flag).0 same)
  | inr other ↦ inr other
]
