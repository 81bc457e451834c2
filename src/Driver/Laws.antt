-- ===== src/Driver/Laws.antt =====
-- How the loops end, whatever the cycle does.
use simple_cpu.Base.{
  ℕ, zero, suc, ◌+◌, ◌≤◌, ◌≡◌, ◌≢◌, refl, arith, Bool, true, false, Option, some, Option-cases,
  Bool-cases, inl, inr, ap,
}
use simple_cpu.Driver.{Outcome, returned, exited, fault, out_of_fuel, run, while_running, go, ◌>>=◌}

-- What ran before the rest of a computation that returned.
pub bind-returned {ℓ} :
    {S : Type ℓ} (m : Outcome S) (k : S → Outcome S) (b : S)
    → (m >>= k) ≡ returned b
    → (a : S) × (m ≡ returned a) × (k a ≡ returned b)
bind-returned (returned a) k b e = (a, refl, e)
bind-returned (exited a) k b e = absurd (cc e)
bind-returned fault k b e = absurd (cc e)
bind-returned out_of_fuel k b e = absurd (cc e)

module _ {ℓ} {S : Type ℓ} (run_bit : S → Bool) (cycle : S → Option S) where
  -- A run of m + n cycles is a run of m cycles and, where it returns, a run of n more; an exit or
  -- a fault of the first ends the whole.
  run-add :
      (m n : ℕ) (s : S)
      → run run_bit cycle (m + n) s ≡ (run run_bit cycle m s >>= run run_bit cycle n)
  unfolding run
  run-add zero n s = ap (λ (k : ℕ). run run_bit cycle k s) (omega arith)
  run-add (suc m) n s =
      let regroup : suc m + n ≡ suc (m + n) = omega arith in
      elim (Bool-cases (run_bit s)) [
        | inl on ↦ elim (Option-cases (cycle s)) [
          | inl bad ↦ rw regroup (rw (on, run) (rw (bad, run)))
          | inr (t, next) ↦ rw regroup (rw (on, run) (rw (next, run) (run-add m n t)))
        ]
        | inr off ↦ rw regroup (rw (off, run))
      ]

  -- One cycle more.
  pub run-last :
      (n : ℕ) (s u t : S)
      → run run_bit cycle n s ≡ returned u
      → run_bit u ≡ true
      → cycle u ≡ some t
      → run run_bit cycle (n + 1) s ≡ returned t
  unfolding run
  run-last n s u t ran on last = rw (run-add n 1 s) (rw ran (rw (on, run) (rw (last, run) refl)))

  -- `run` counts its rounds: it needs no fuel.
  pub run-Ends : (n : ℕ) (s : S) → run run_bit cycle n s ≢ out_of_fuel
  unfolding run
  run-Ends zero s e = cc e
  run-Ends (suc n) s e = elim (Bool-cases (run_bit s)) [
    | inr off ↦ let h = rw (off, run) at e in cc h
    | inl on ↦
        let h = rw (on, run) at e in
        elim (Option-cases (cycle s)) [
          | inl bad ↦ let k = rw (bad, run) at h in cc k
          | inr (t, next) ↦ run-Ends n t (rw (next, run) at h)
        ]
  ]

  -- The first cycle of a run that returned.
  pub run-first :
      (n : ℕ) (s s' : S)
      → run run_bit cycle (suc n) s ≡ returned s'
      → (t : S) × (run_bit s ≡ true) × (cycle s ≡ some t) × (run run_bit cycle n t ≡ returned s')
  unfolding run
  run-first n s s' e = elim (Bool-cases (run_bit s)) [
    | inr off ↦ absurd (let h = rw (off, run) at e in cc h)
    | inl on ↦
        let h = rw (on, run) at e in
        elim (Option-cases (cycle s)) [
          | inl bad ↦ absurd (let g = rw (bad, run) at h in cc g)
          | inr (t, next) ↦ (t, on, next, rw (next, run) at h)
        ]
  ]

  -- A stopped simulator returns from a run of no cycles only.
  pub stopped-run :
      (n : ℕ) (s s' : S)
      → run_bit s ≡ false
      → run run_bit cycle n s ≡ returned s'
      → (n ≡ 0) × (returned s ≡ returned s')
  unfolding run
  stopped-run zero s s' off e = (refl, e)
  stopped-run (suc n) s s' off e = absurd (let h = rw (off, run) at e in cc h)

  while_running-run :
      (n fuel : ℕ) (s s' : S)
      → run run_bit cycle n s ≡ returned s'
      → run_bit s' ≡ false
      → n ≤ fuel
      → while_running run_bit cycle fuel s ≡ returned s'
  unfolding while_running run
  while_running-run zero zero s s' e stop h =
      let same : s ≡ s' = cc e in
      let off : run_bit s ≡ false = rw same stop in simp (off, while_running) e
  while_running-run zero (suc fuel) s s' e stop h =
      let same : s ≡ s' = cc e in
      let off : run_bit s ≡ false = rw same stop in simp (off, while_running) e
  while_running-run (suc n) zero s s' e stop h = absurd (omega arith)
  while_running-run (suc n) (suc fuel) s s' e stop h =
      let (t, on, next, rest) = run-first n s s' e in
      rw (on, while_running)
        (rw (next, while_running) (while_running-run n fuel t s' rest stop (omega arith)))

  run_of_while :
      (fuel : ℕ) (s s' : S)
      → while_running run_bit cycle fuel s ≡ returned s'
      → (n : ℕ) × (n ≤ fuel) × (run run_bit cycle n s ≡ returned s') × (run_bit s' ≡ false)
  unfolding while_running run
  run_of_while zero s s' e = elim (Bool-cases (run_bit s)) [
    | inl on ↦ absurd (let h = rw (on, while_running) at e in cc h)
    | inr off ↦
        let h = rw (off, while_running) at e in
        let same : s ≡ s' = cc h in (0, omega arith, h, rw (← same) off)
  ]
  run_of_while (suc fuel) s s' e = elim (Bool-cases (run_bit s)) [
    | inl on ↦
        let h = rw (on, while_running) at e in
        elim (Option-cases (cycle s)) [
          | inl bad ↦ absurd (let g = rw (bad, while_running) at h in cc g)
          | inr (t, next) ↦
              let (n, le, ran, off) = run_of_while fuel t s' (rw (next, while_running) at h) in
              (suc n, omega arith, rw (on, run) (rw (next, run) ran), off)
        ]
    | inr off ↦
        let h = rw (off, while_running) at e in
        let same : s ≡ s' = cc h in (0, omega arith, h, rw (← same) off)
  ]

  -- If a run of n cycles returns a state in which `RUN_BIT` is clear, then `go` returns the same
  -- state, with any fuel of at least n.
  pub go-run :
      (n fuel : ℕ) (s s' : S)
      → run run_bit cycle n s ≡ returned s'
      → run_bit s' ≡ false
      → n ≤ fuel
      → go run_bit cycle fuel s ≡ returned s'
  unfolding go
  go-run n fuel s s' e stop h = elim (Bool-cases (run_bit s)) [
    | inl on ↦ rw (on, go) (while_running-run n fuel s s' e stop h)
    | inr off ↦ rw (off, go) (stopped-run n s s' off e).1
  ]

  -- If `go` returns, then so does a run of some number of cycles, no more than the fuel, with the
  -- same state, and `RUN_BIT` is clear in it.
  pub run_of_go :
      (fuel : ℕ) (s s' : S)
      → go run_bit cycle fuel s ≡ returned s'
      → (n : ℕ) × (n ≤ fuel) × (run run_bit cycle n s ≡ returned s') × (run_bit s' ≡ false)
  unfolding go
  run_of_go fuel s s' e = elim (Bool-cases (run_bit s)) [
    | inl on ↦ run_of_while fuel s s' (rw (on, go) at e)
    | inr off ↦
        let h = rw (off, go) at e in
        let same : s ≡ s' = cc h in (0, omega arith, unfold run in h, rw (← same) off)
  ]
