-- ===== src/Driver/Trace.antt =====
-- Runs against an abstract machine that takes its steps one by one: a section over the relation of
-- simulator states and abstract states that each cycle keeps.
use simple_cpu.Base.{ℕ, zero, suc, ◌≡◌, refl, Bool, true, Option, some}
use simple_cpu.Driver.{returned, run}

-- So many steps, to the last state `z`.
pub data Steps {A : Type 0} (Step : A → A → Type 0) (z : A) : ℕ → A → Type 0 where
  here : Steps Step z zero z
  next : {n : ℕ} {a b : A} → Step a b → Steps Step z n b → Steps Step z (suc n) a

module _ {S A : Type 0} (run_bit : S → Bool) (cycle : S → Option S) (Step : A → A → Type 0)
    (Shows : S → A → Type 0) (runs : (s : S) (a : A) → Shows s a → run_bit s ≡ true)
    (cycles : (s : S) (a b : A)
      → Shows s a
      → Step a b
      → (t : S) × (cycle s ≡ some t) × Shows t b) where
  -- Where each step of the abstract machine is a cycle, n steps are a run of n cycles.
  pub run-Steps :
      (n : ℕ) (s : S) (a z : A)
      → Shows s a
      → Steps Step z n a
      → (t : S) × (run run_bit cycle n s ≡ returned t) × Shows t z
  unfolding run
  run-Steps zero s a z shown here = (s, refl, shown)
  run-Steps (suc n) s a z shown (next {b = b} first rest) =
      let (t, ran, kept) = cycles s a b shown first in
      let (u, later, end) = run-Steps n t b z kept rest in
      (u, rw (runs s a shown, run) (rw (ran, run) later), end)
