-- ===== src/Base/Bits/Digits.antt =====
-- The lowest binary digit of `&`, `|` and `^`.
use Prim.Native.Nat.{ℕ, zero, suc, ◌+◌, ◌*◌, ◌/◌, ◌%◌, ◌≤◌, min, max, bit_and, bit_or, bit_xor}
use Prim.Native.Nat.{digits, bit_and-bitwise, bit_or-bitwise, bit_xor-bitwise, differ}
use mathlib.Core.Path.{◌≡◌, refl, ap}
use native.Mathlib.Omega.{arith}

-- The recursion gives the same digits on any fuel that covers the left operand.
module _ (z : ℕ → ℕ) (f : ℕ → ℕ → ℕ) where
  enough_fuel : (n m x y : ℕ) → x ≤ n → x ≤ m → digits z f n x y ≡ digits z f m x y
  enough_fuel zero zero zero y p q = refl
  enough_fuel zero (suc m) zero y p q = refl
  enough_fuel (suc n) zero zero y p q = refl
  enough_fuel (suc n) (suc m) zero y p q = refl
  enough_fuel zero m (suc x) y p q = absurd (omega arith)
  enough_fuel (suc n) zero (suc x) y p q = absurd (omega arith)
  enough_fuel (suc n) (suc m) (suc x) y p q =
      ap (λ (t : ℕ). t * 2 + f (suc x % 2) (y % 2))
        (enough_fuel n m (suc x / 2) (y / 2) (omega arith) (omega arith))

  lowest_digit :
      (x y : ℕ)
      → digits z f (suc x) (suc x) y
        ≡ digits z f (suc x / 2) (suc x / 2) (y / 2) * 2 + f (suc x % 2) (y % 2)
  lowest_digit x y =
      ap (λ (t : ℕ). t * 2 + f (suc x % 2) (y % 2))
        (enough_fuel x (suc x / 2) (suc x / 2) (y / 2) (omega arith) (omega arith))

pub and_digit : (x y : ℕ) → bit_and x y ≡ bit_and (x / 2) (y / 2) * 2 + min (x % 2) (y % 2)
and_digit zero y = omega (arith, bit_and-bitwise 0 y, bit_and-bitwise 0 (y / 2))
and_digit (suc x) y = simp bit_and-bitwise (lowest_digit (λ _. 0) min x y)

pub or_digit : (x y : ℕ) → bit_or x y ≡ bit_or (x / 2) (y / 2) * 2 + max (x % 2) (y % 2)
or_digit zero y = omega (arith, bit_or-bitwise 0 y, bit_or-bitwise 0 (y / 2))
or_digit (suc x) y = simp bit_or-bitwise (lowest_digit (λ t. t) max x y)

pub xor_digit : (x y : ℕ) → bit_xor x y ≡ bit_xor (x / 2) (y / 2) * 2 + differ (x % 2) (y % 2)
xor_digit zero y = omega (arith, bit_xor-bitwise 0 y, bit_xor-bitwise 0 (y / 2))
xor_digit (suc x) y = simp bit_xor-bitwise (lowest_digit (λ t. t) differ x y)

-- `&` only takes digits away.
and_le_fuel : (n x y : ℕ) → x ≤ n → (bit_and x y ≤ x) × (bit_and x y ≤ y)
and_le_fuel n zero y h = omega (arith, bit_and-bitwise 0 y)
and_le_fuel zero (suc x) y h = absurd (omega arith)
and_le_fuel (suc n) (suc x) y h =
    omega (arith, and_digit (suc x) y, and_le_fuel n (suc x / 2) (y / 2) (omega arith))

pub bit_and-le : (x y : ℕ) → (bit_and x y ≤ x) × (bit_and x y ≤ y)
bit_and-le x y = and_le_fuel x x y (omega arith)

or_zero_fuel : (n x : ℕ) → x ≤ n → bit_or x 0 ≡ x
or_zero_fuel n zero h = bit_or-bitwise 0 0
or_zero_fuel zero (suc x) h = absurd (omega arith)
or_zero_fuel (suc n) (suc x) h =
    omega (arith, or_digit (suc x) 0, or_zero_fuel n (suc x / 2) (omega arith))

pub bit_or-zero : (x : ℕ) → bit_or x 0 ≡ x
bit_or-zero x = or_zero_fuel x x (omega arith)

pub zero-bit_or : (x : ℕ) → bit_or 0 x ≡ x
zero-bit_or x = bit_or-bitwise 0 x
