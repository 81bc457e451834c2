-- ===== src/HexGen/Laws.antt =====
-- The loops over the arrays of the two generators: what is cleared, which place is found, and how the
-- files that are printed load.
use simple_cpu.Base.{
  >>=-eq-some, [], ◌∷◌, List, ℕ, zero, suc, ◌+◌, ◌*◌, ◌%◌, ◌^◌, ◌<◌, ◌≤◌, ◌≡◌, ◌≢◌, ◌⊎◌, refl,
  arith, inl, inr, Bool-cases, ◌==◌, ◌∙◌, some, sym, ==_iff,
}
use simple_cpu.Memory.{Region, Store, mem_read_32}
use simple_cpu.Memory.Image.Laws.{AllApart, HasRoom, IsLayout, IsLoaded}
use simple_cpu.HexGen.{
  add_int, add_all, clear, Room, room, full, past_end, find_room, printed, imem_size,
}

clear-outside : (left i : ℕ) (array : ℕ → ℕ) (a : ℕ) → a < i → clear left i array a ≡ array a
unfolding clear
clear-outside zero i array a h = refl
clear-outside (suc left) i array a h =
    clear-outside left (suc i) _ a (omega (arith, h)) ∙ ground arith

pub clear-inside :
    (left i : ℕ) (array : ℕ → ℕ) (a : ℕ) → i ≤ a → a < i + left → clear left i array a ≡ 0
unfolding clear
clear-inside zero i array a h k = absurd (omega arith)
clear-inside (suc left) i array a h k = elim (Bool-cases (i == a)) [
  | inl at ↦
      let same : i ≡ a = (==_iff i a).0 at in
      clear-outside left (suc i) _ a (omega (arith, same)) ∙ ground arith
  | inr apart ↦ clear-inside left (suc i) _ a (ground (arith, apart)) (omega arith)
]

-- What the loop of `make_room` finds is a multiple of 4 from its start on, where this place and the
-- next are free and within the array.
pub find_room-free :
    (left i k : ℕ) (pc : ℕ → ℕ)
    → find_room left i pc ≡ room k
    → (i ≤ k) × (k + 4 < imem_size) × (k % 4 ≡ i % 4) × (pc k ≡ 0) × (pc (k + 4) ≡ 0)
unfolding find_room
find_room-free zero i k pc e = absurd (cc e)
find_room-free (suc left) i k pc e = ground (arith, find_room-free left (i + 4) k pc)

-- Where a search ended that would have gone on to `end`.
abbrev pub searched : Room → ℕ → ℕ
searched (room k) end = k
searched full end = end
searched past_end end = 0

-- The search for room passes over no free pair: a place from its start on that is before the one
-- found, or before the end of a search that finds none, in steps of 4 from the start, is marked,
-- or the next one is.
pub find_room-taken :
    (left i j : ℕ) (pc : ℕ → ℕ)
    → i ≤ j
    → j < searched (find_room left i pc) (i + 4 * left)
    → j % 4 ≡ i % 4
    → (pc j ≢ 0) ⊎ (pc (j + 4) ≢ 0)
unfolding find_room
find_room-taken zero i j pc low high al = absurd (omega arith)
find_room-taken (suc left) i j pc low high al =
    let later = find_room-taken left (i + 4) j pc in
    let ends : i + 4 * suc left ≡ i + 4 + 4 * left = omega arith in
    let high' = rw ends at high in
    elim (Bool-cases (i == j)) [
      | inl at ↦
          let same : i ≡ j = (==_iff i j).0 at in
          rw (sym same) (elim (Bool-cases (pc i == 0)) [
            | inr marked ↦ inl (λ e. ground (arith, marked, e))
            | inl free ↦ elim (Bool-cases (pc (i + 4) == 0)) [
              | inr marked ↦ inr (λ e. ground (arith, marked, e))
              | inl free' ↦ absurd (ground (arith, free, free', high', same))
            ]
          ])
      | inr apart ↦
          let ne : i ≢ j = λ e. ground (arith, apart, e) in
          later (omega (arith, ne)) (ground (arith, high')) (omega (arith, al))
    ]

module _ (rs : List Region) (start : ℕ) (pc instr : ℕ → ℕ) where
  printed-AllApart :
      (left i a : ℕ) → a + 4 ≤ i + start → AllApart rs a (printed start left i pc instr).0
  unfolding printed
  printed-AllApart zero i a h = tt
  printed-AllApart (suc left) i a h =
      let rest = printed-AllApart left (i + 4) a (omega arith) in
      elim (Bool-cases (pc i == 0)) [
        | inl free ↦ rw (free, printed) rest
        | inr marked ↦ rw (marked, printed) (inl h, rest)
      ]

  -- The marked places hold words that have room.
  abbrev pub HaveRoom : ℕ → ℕ → Type 0
  HaveRoom left i =
      (k : ℕ)
      → k < left
      → pc (i + 4 * k) ≢ 0
      → (instr (i + 4 * k) < 2 ^ 32) × HasRoom rs (i + 4 * k + start)

  later : (left i : ℕ) → HaveRoom (suc left) i → HaveRoom left (i + 4)
  later left i h k hk marked =
      let regroup : i + 4 * suc k ≡ i + 4 + 4 * k = omega arith in
      rw regroup at (h (suc k) (omega arith) (rw regroup marked))

  pub printed-IsLayout :
      (left i : ℕ)
      → HaveRoom left i
      → IsLayout rs (printed start left i pc instr).1 (printed start left i pc instr).0
  unfolding printed
  printed-IsLayout zero i h = tt
  printed-IsLayout (suc left) i h =
      let rest = printed-IsLayout left (i + 4) (later left i h) in
      elim (Bool-cases (pc i == 0)) [
        | inl free ↦ rw (free, printed) rest
        | inr marked ↦
            let at_i : i + 4 * 0 ≡ i = omega arith in
            let ne : pc i ≢ 0 = λ q. ground (arith, marked, q) in
            let (small, has) = rw at_i at (h 0 (omega arith) (rw at_i ne)) in
            rw (marked, printed)
              (small, has, printed-AllApart left (i + 4) (i + start) (omega arith), rest)
      ]

  pub printed-read :
      (left i : ℕ) (m : Store) (k : ℕ)
      → IsLoaded rs m (printed start left i pc instr).1 (printed start left i pc instr).0
      → k < left
      → pc (i + 4 * k) ≢ 0
      → mem_read_32 rs m (i + 4 * k + start) ≡ some (instr (i + 4 * k))
  unfolding printed
  printed-read zero i m k h hk marked = absurd (omega (arith, hk))
  printed-read (suc left) i m zero h hk marked = elim (Bool-cases (pc i == 0)) [
    | inl free ↦ absurd (marked (ground (arith, free)))
    | inr kept ↦
        let at_i : i ≡ i + 4 * 0 = omega arith in
        let loaded = rw (kept, printed) at h in rw at_i at loaded.0
  ]
  printed-read (suc left) i m (suc k) h hk marked =
      let regroup : i + 4 + 4 * k ≡ i + 4 * suc k = omega arith in
      let tail : IsLoaded rs m (printed start left (i + 4) pc instr).1
          (printed start left (i + 4) pc instr).0 =
        elim (Bool-cases (pc i == 0)) [
          | inl free ↦ rw (free, printed) at h
          | inr kept ↦ let loaded = rw (kept, printed) at h in loaded.1
        ] in
      rw regroup at (printed-read left (i + 4) m k tail (omega (arith, hk)) (rw regroup marked))

add_int-some : (x y z : ℕ) → add_int x y ≡ some z → z ≡ (x + y) % 2 ^ 32
unfolding add_int
add_int-some x y z e = ground (arith, e)

abbrev pub sum_of : List ℕ → ℕ
sum_of [] = 0
sum_of (x ∷ xs) = x + sum_of xs

-- A sum of `int` that does not overflow is the one modulo 2 ^ 32.
pub add_all-some :
    (sum x : ℕ) (xs : List ℕ) (z : ℕ)
    → add_all sum (x ∷ xs) ≡ some z
    → z ≡ (sum + (x + sum_of xs)) % 2 ^ 32
unfolding add_all
add_all-some sum x [] z e =
    let (next, h, last) = >>=-eq-some (add_int sum x) _ e in
    let same : next ≡ z = cc last in omega (arith, add_int-some sum x next h, same)
add_all-some sum x (y ∷ ys) z e =
    let (next, h, rest) = >>=-eq-some (add_int sum x) _ e in
    omega (arith, add_int-some sum x next h, add_all-some next y ys z rest)

-- Numbers of instructions made and asked for.
pub shifted : (a b c i j n : ℕ) → c + i ≡ b + j → a + j ≡ c + n → a + i ≡ b + n
shifted a b c i j n h k = omega (arith, h, k)

pub from_none : (a b : ℕ) → a + 0 ≡ b → a ≡ b
from_none a b h = omega (arith, h)

pub zero_plus : (a : ℕ) → 0 + a ≡ a
zero_plus a = omega arith
