-- ===== src/Base/Bits.antt =====
-- `&` with a mask and `|` of disjoint fields as arithmetic. The native operations have no laws at
-- variables but the recursion on binary digits, so these go down one digit at a time.
mod Digits
use Digits.{and_digit, or_digit, xor_digit, bit_and-le, bit_or-zero, zero-bit_or}
use Prim.Native.Nat.{ℕ, zero, suc, ◌+◌, ◌-◌, ◌*◌, ◌/◌, ◌%◌, ◌^◌, ◌≤◌, ◌<◌}
use Prim.Native.Nat.{bit_and, bit_or, bit_xor, bit_xor-bitwise, differ}
use mathlib.Core.Path.{◌≡◌, refl, ap, sym, ◌∙◌}
use native.Mathlib.Nat.{pow-suc, one-le-pow, div-div-eq-div-mul}
use native.Mathlib.Omega.{arith}

-- Twice a multiple of `2 ^ k`, as the tactics need it.
double_pow : (q k : ℕ) → q * 2 ^ suc k ≡ q * 2 ^ k * 2
double_pow q k = omega (arith, ap (λ (t : ℕ). q * t) (pow-suc 2 k))

half-div-pow : (k x : ℕ) → x / 2 / 2 ^ k ≡ x / 2 ^ suc k
half-div-pow k x =
    div-div-eq-div-mul x 2 (2 ^ k) ∙ ap (λ (t : ℕ). x / t) (omega (arith, pow-suc 2 k))

-- `x & (m << k)` keeps the part of `x` above digit `k`.
pub bit_and_shifted : (k m x : ℕ) → bit_and x (m * 2 ^ k) ≡ bit_and (x / 2 ^ k) m * 2 ^ k
bit_and_shifted zero m x = ground arith
bit_and_shifted (suc k) m x = ground (
  arith,
  and_digit x (m * 2 ^ suc k),
  double_pow m k,
  double_pow (bit_and (x / 2 ^ suc k) m) k,
  half-div-pow k x,
  bit_and_shifted k m (x / 2),
)

low_bits_suc : (p x : ℕ) → 1 ≤ p → x / 2 % p * 2 + x % 2 ≡ x % (p * 2)
low_bits_suc p x h = grind arith

-- `x & (2 ^ k - 1)` is the remainder.
pub bit_and_mask : (k x : ℕ) → bit_and x (2 ^ k - 1) ≡ x % 2 ^ k
bit_and_mask zero x = omega (arith, bit_and-le x 0)
bit_and_mask (suc k) x = ground (
  arith,
  and_digit x (2 ^ suc k - 1),
  pow-suc 2 k,
  one-le-pow k 2 (omega arith),
  low_bits_suc (2 ^ k) x (one-le-pow k 2 (omega arith)),
  bit_and_mask k (x / 2),
)

-- `(q << k) | r`, in either order, when `r` fits `k` bits.
pub bit_or_fields : (k q r : ℕ) → r < 2 ^ k → bit_or (q * 2 ^ k) r ≡ q * 2 ^ k + r
bit_or_fields zero q r fits = ground (arith, bit_or-zero q)
bit_or_fields (suc k) q r fits = ground (
  arith,
  or_digit (q * 2 ^ suc k) r,
  double_pow q k,
  bit_or_fields k q (r / 2) (omega (arith, pow-suc 2 k)),
)

pub bit_or_fields_low : (k q r : ℕ) → r < 2 ^ k → bit_or r (q * 2 ^ k) ≡ q * 2 ^ k + r
bit_or_fields_low zero q r fits = ground (arith, zero-bit_or q)
bit_or_fields_low (suc k) q r fits = ground (
  arith,
  or_digit r (q * 2 ^ suc k),
  double_pow q k,
  bit_or_fields_low k q (r / 2) (omega (arith, pow-suc 2 k)),
)

-- `x | (m << k)` in general.
pub bit_or_shifted : (k m x : ℕ) → bit_or x (m * 2 ^ k) ≡ bit_or (x / 2 ^ k) m * 2 ^ k + x % 2 ^ k
bit_or_shifted zero m x = ground arith
bit_or_shifted (suc k) m x = ground (
  arith,
  or_digit x (m * 2 ^ suc k),
  double_pow m k,
  double_pow (bit_or (x / 2 ^ suc k) m) k,
  half-div-pow k x,
  pow-suc 2 k,
  low_bits_suc (2 ^ k) x (one-le-pow k 2 (omega arith)),
  bit_or_shifted k m (x / 2),
)

-- Operations on words stay words.
pub bit_and-lt : (b x y : ℕ) → x < b → bit_and x y < b
bit_and-lt b x y h = omega (arith, bit_and-le x y)

pub bit_or-lt : (k x y : ℕ) → x < 2 ^ k → y < 2 ^ k → bit_or x y < 2 ^ k
bit_or-lt zero x y h g = let e : x ≡ 0 = omega arith in rw e (omega (arith, zero-bit_or y))
bit_or-lt (suc k) x y h g = omega (
  arith,
  or_digit x y,
  pow-suc 2 k,
  bit_or-lt k (x / 2) (y / 2) (omega (arith, pow-suc 2 k)) (omega (arith, pow-suc 2 k)),
)

differ-le : (x y : ℕ) → x ≤ 1 → y ≤ 1 → differ x y ≤ 1
differ-le zero y h g = g
differ-le (suc zero) zero h g = h
differ-le (suc zero) (suc zero) h g = omega arith
differ-le (suc zero) (suc (suc y)) h g = absurd (omega arith)
differ-le (suc (suc x)) y h g = absurd (omega arith)

pub bit_xor-lt : (k x y : ℕ) → x < 2 ^ k → y < 2 ^ k → bit_xor x y < 2 ^ k
bit_xor-lt zero x y h g = let e : x ≡ 0 = omega arith in rw e (omega (arith, bit_xor-bitwise 0 y))
bit_xor-lt (suc k) x y h g = omega (
  arith,
  xor_digit x y,
  pow-suc 2 k,
  differ-le (x % 2) (y % 2) (omega arith) (omega arith),
  bit_xor-lt k (x / 2) (y / 2) (omega (arith, pow-suc 2 k)) (omega (arith, pow-suc 2 k)),
)
