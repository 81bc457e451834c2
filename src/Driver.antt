-- ===== src/Driver.antt =====
-- The loops over cycles of risc-v/iss/src/main.c and mips/iss/src/main.c, which are the same but for
-- the cycle they repeat: a section over the simulator's state, its `RUN_BIT` and its `cycle`.
mod Tests
pub mod Laws
pub mod Trace
use simple_cpu.Base.{ℕ, zero, suc, Bool, true, false, Option, none, some}

-- How a loop over cycles ends: it returns, the process exits, an access falls outside its block, or
-- the fuel of the model is used up.
pub data Outcome {ℓ} (S : Type ℓ) : Type ℓ where
  returned : S → Outcome S
  exited : S → Outcome S
  fault : Outcome S
  out_of_fuel : Outcome S

-- What follows a call that returned; anything else ends the whole.
infixl 5 ◌>>=◌
abbrev pub ◌>>=◌ {ℓ} : {S : Type ℓ} → Outcome S → (S → Outcome S) → Outcome S
returned s >>= k = k s
exited s >>= k = exited s
fault >>= k = fault
out_of_fuel >>= k = out_of_fuel

module _ {ℓ} {S : Type ℓ} (run_bit : S → Bool) (cycle : S → Option S) where
  -- The rounds of `run` that are left.
  unfoldable pub run : ℕ → S → Outcome S
  run zero s = returned s
  run (suc left) s = elim (run_bit s) [
    | false ↦ exited s
    | true ↦ elim (cycle s) [ none ↦ fault | some s' ↦ run left s' ]
  ]

  -- `while (RUN_BIT) cycle ();`, the fuel bounding its rounds.
  unfoldable pub while_running : ℕ → S → Outcome S
  while_running zero s = elim (run_bit s) [ false ↦ returned s | true ↦ out_of_fuel ]
  while_running (suc fuel) s = elim (run_bit s) [
    | false ↦ returned s
    | true ↦ elim (cycle s) [ none ↦ fault | some s' ↦ while_running fuel s' ]
  ]

  -- A stopped simulator is left alone, with a message of its own.
  unfoldable pub go : ℕ → S → Outcome S
  go fuel s = elim (run_bit s) [ false ↦ returned s | true ↦ while_running fuel s ]
