-- ===== src/Mips/Execute/Division.antt =====
-- Signed division of words: `DIV` and its quotient and remainder.
use simple_cpu.Base.{
  ℕ, zero, suc, ◌+◌, ◌-◌, ◌*◌, ◌/◌, ◌%◌, ◌^◌, ◌<◌, ◌≤◌, ◌≡◌, arith, xor, is_neg, ◌==◌, false,
  Bool-cases, ◌&&◌, some, refl, inl, inr, ◌⊎◌, ltb,
}
use simple_cpu.Mips.Execute.Special.{signed_div, signed_rem, divide}
use simple_cpu.Mips.Isa.{distance, truncated_div, truncated_rem}
use simple_cpu.Mips.Machine.{Simulator, next_pc, set_hi, set_lo}

times_sub : (w q b : ℕ) → b ≤ w → q * (w - b) + q * b ≡ q * w
times_sub w q b h = grind arith

sub_times : (w q b : ℕ) → q ≤ w → (w - q) * b + q * b ≡ w * b
sub_times w q b h = grind arith

negated_times : (q b : ℕ) → q < 2 ^ 32 → ((2 ^ 32 - q) % 2 ^ 32 * b + q * b) % 2 ^ 32 ≡ 0
negated_times zero b h = ground arith
negated_times (suc q) b h =
    let small : (2 ^ 32 - suc q) % 2 ^ 32 ≡ 2 ^ 32 - suc q = omega arith in
    rw small (omega (arith, sub_times (2 ^ 32) (suc q) b (omega arith)))

-- The quotient and the remainder of the magnitudes.
magnitudes : (a b : ℕ) → 0 < b → (a / b * b + a % b ≡ a) × (a % b < b)
magnitudes a b h = grind arith

quotient-le : (a b : ℕ) → 0 < b → a / b ≤ a
quotient-le a b h = grind arith

negative_dividend :
    (a b : ℕ)
    → 0 < b
    → 0 < a
    → a < 2 ^ 32
    → ((2 ^ 32 - a / b) % 2 ^ 32 * b + (2 ^ 32 - a % b) % 2 ^ 32) % 2 ^ 32 ≡ 2 ^ 32 - a
negative_dividend a b h i j =
    omega (arith, magnitudes a b h, negated_times (a / b) b (omega (arith, quotient-le a b h)))

both_negative :
    (a b : ℕ)
    → 0 < b
    → 0 < a
    → a < 2 ^ 32
    → b ≤ 2 ^ 32
    → (a / b * (2 ^ 32 - b) + (2 ^ 32 - a % b) % 2 ^ 32) % 2 ^ 32 ≡ 2 ^ 32 - a
both_negative a b h i j k = omega (arith, magnitudes a b h, times_sub (2 ^ 32) (a / b) b k)

negative_divisor :
    (a b : ℕ)
    → 0 < b
    → a < 2 ^ 32
    → b ≤ 2 ^ 32
    → ((2 ^ 32 - a / b) % 2 ^ 32 * (2 ^ 32 - b) + a % b) % 2 ^ 32 ≡ a
negative_divisor a b h j k = omega (
  arith,
  magnitudes a b h,
  times_sub (2 ^ 32) (a / b) b k,
  negated_times (a / b) (2 ^ 32 - b) (omega (arith, quotient-le a b h)),
)

signed_div-signed_rem :
    (x y : ℕ) → x < 2 ^ 32 → y < 2 ^ 32 → 0 < y → (signed_div x y * y + signed_rem x y) % 2 ^ 32 ≡ x
unfolding signed_div signed_rem mathlib.Core.Bool.xor
signed_div-signed_rem x y h g k =
    let x_back : 2 ^ 32 - (2 ^ 32 - x) ≡ x = omega arith in
    let y_back : 2 ^ 32 - (2 ^ 32 - y) ≡ y = omega arith in
    elim (Bool-cases (is_neg x)) [
      | inl below ↦
          let x_large : 0 < x = ground arith in
          elim (Bool-cases (is_neg y)) [
            | inl down ↦
                rw (below, down)
                  (rw (x_back, y_back) at
                    (both_negative (2 ^ 32 - x) (2 ^ 32 - y) (omega arith) (omega arith)
                      (omega arith) (omega arith)))
            | inr up ↦
                rw (below, up)
                  (rw x_back at (negative_dividend (2 ^ 32 - x) y k (omega arith) (omega arith)))
          ]
      | inr above ↦ elim (Bool-cases (is_neg y)) [
        | inl down ↦
            rw (above, down)
              (rw y_back at (negative_divisor x (2 ^ 32 - y) (omega arith) h (omega arith)))
        | inr up ↦ rw (above, up) (omega (arith, magnitudes x y k))
      ]
    ]

-- The quotient and the remainder are those of the instruction set.
pub signed_div_lem : (x y : ℕ) → signed_div x y ≡ truncated_div x y
unfolding signed_div mathlib.Core.Bool.xor
signed_div_lem x y = ground arith

pub signed_rem_lem : (x y : ℕ) → signed_rem x y ≡ truncated_rem x y
unfolding signed_rem
signed_rem_lem x y = ground arith

negated-distance : (q : ℕ) → q ≤ 2 ^ 31 → distance ((2 ^ 32 - q) % 2 ^ 32) ≡ q
negated-distance q h = ground arith

kept-distance : (q : ℕ) → q ≤ 2 ^ 31 → distance q ≡ q
kept-distance q h = ground arith

distance-le : (x : ℕ) → x < 2 ^ 32 → distance x ≤ 2 ^ 31
distance-le x h = ground arith

distance-positive : (y : ℕ) → y < 2 ^ 32 → 0 < y → 0 < distance y
distance-positive y g k = ground arith

distance-signed_div :
    (x y : ℕ) → x < 2 ^ 32 → 0 < distance y → distance (signed_div x y) ≡ distance x / distance y
unfolding signed_div mathlib.Core.Bool.xor
distance-signed_div x y h k =
    let small = quotient-le (distance x) (distance y) k in
    rw (signed_div_lem x y) (
      ground (
        arith,
        negated-distance (distance x / distance y) (omega (arith, small, distance-le x h)),
        kept-distance (distance x / distance y) (omega (arith, small, distance-le x h)),
      ))

distance-signed_rem :
    (x y : ℕ) → y < 2 ^ 32 → 0 < distance y → distance (signed_rem x y) ≡ distance x % distance y
distance-signed_rem x y g k =
    let (_, small) = magnitudes (distance x) (distance y) k in
    rw (signed_rem_lem x y) (
      ground (
        arith,
        negated-distance (distance x % distance y) (omega (arith, small, distance-le y g)),
        kept-distance (distance x % distance y) (omega (arith, small, distance-le y g)),
      ))

signed_rem-sign :
    (x y : ℕ)
    → x < 2 ^ 32
    → y < 2 ^ 32
    → 0 < distance y
    → (signed_rem x y ≡ 0) ⊎ (is_neg (signed_rem x y) ≡ is_neg x)
signed_rem-sign x y h g k =
    let (_, small) = magnitudes (distance x) (distance y) k in
    let bound = distance-le y g in
    rw (signed_rem_lem x y) (elim (Bool-cases (ltb x (2 ^ 31))) [
      | inl plus ↦ inr (ground (arith, plus, small, bound))
      | inr minus ↦ elim (Bool-cases (distance x % distance y == 0)) [
        | inl none_left ↦ inl (ground (arith, minus, none_left))
        | inr some_left ↦ inr (ground (arith, minus, some_left, small, bound))
      ]
    ])

-- `DIV` of words by a divisor other than 0, except of -2 ^ 31 by -1, where C leaves it undefined:
-- it succeeds, `LO` times the divisor plus `HI` is the dividend modulo 2 ^ 32 and, in absolute
-- values, exactly; `HI` is less than the divisor in absolute value and is 0 or has the sign of
-- the dividend; the program counter moves on and the registers stay.
pub divide_lem :
    (x y : ℕ) (s : Simulator)
    → x < 2 ^ 32
    → y < 2 ^ 32
    → 0 < y
    → (x == 2 ^ 31 && y == 2 ^ 32 - 1) ≡ false
    → (s' : Simulator) × (divide x y s ≡ some s')
      × ((s'.next.lo * y + s'.next.hi) % 2 ^ 32 ≡ x)
      × (distance s'.next.lo * distance y + distance s'.next.hi ≡ distance x)
      × (distance s'.next.hi < distance y)
      × ((s'.next.hi ≡ 0) ⊎ (is_neg s'.next.hi ≡ is_neg x))
      × (s'.next.pc ≡ (s.current.pc + 4) % 2 ^ 32)
      × (s'.next.regs ≡ s.next.regs)
unfolding divide
divide_lem x y s h g k whole =
    let positive = distance-positive y g k in
    let quotient = distance-signed_div x y h positive in
    let rest = distance-signed_rem x y g positive in
    let nonzero : (y == 0) ≡ false = ground arith in
    (
      next_pc (set_hi (signed_rem x y) (set_lo (signed_div x y) s)),
      rw nonzero (rw whole refl),
      signed_div-signed_rem x y h g k,
      rw (quotient, rest) (magnitudes (distance x) (distance y) positive).0,
      rw rest (magnitudes (distance x) (distance y) positive).1,
      signed_rem-sign x y h g positive,
      refl,
      refl,
    )
