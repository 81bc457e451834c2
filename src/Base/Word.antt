-- ===== src/Base/Word.antt =====
-- 32-bit words as native numbers below 2 ^ 32. An `int` of the source is kept as its bit pattern.
use Prim.Native.Nat.{ℕ, zero, suc, ◌+◌, ◌-◌, ◌*◌, ◌/◌, ◌%◌, ◌^◌, ◌<◌, ◌≤◌}
use mathlib.Core.Bool.{Bool, true, false}
use mathlib.Core.Path.{◌≡◌}
use native.Mathlib.Omega.{arith}
use mathlib.Core.List.{List, [], ◌∷◌}
use simple_cpu.Base.Test.{ltb, leb, ◌==◌, if◌then◌else◌}

-- The conversion to `uint32_t`.
abbrev pub u32 : ℕ → ℕ
u32 n = n % 2 ^ 32

infixl 60 ◌<<<◌ ◌>>>◌
-- `x << k` of a 32-bit word.
abbrev pub ◌<<<◌ : ℕ → ℕ → ℕ
x <<< k = u32 (x * 2 ^ k)

abbrev pub ◌>>>◌ : ℕ → ℕ → ℕ
x >>> k = x / 2 ^ k

-- `x - y` and `~x` of 32-bit words. `-` on ℕ stops at 0, hence the modulus first.
abbrev pub sub32 : ℕ → ℕ → ℕ
sub32 x y = u32 (x + 2 ^ 32 - y)

abbrev pub not32 : ℕ → ℕ
not32 x = 2 ^ 32 - 1 - x

-- `(x) ? 1 : 0`, and a comparison used as a number.
abbrev pub to_int : Bool → ℕ
to_int b = if b then 1 else 0

-- The sign of an `int32_t`.
abbrev pub is_neg : ℕ → Bool
is_neg x = leb (2 ^ 31) x

-- `(int32_t)x < (int32_t)y`.
abbrev pub slt : ℕ → ℕ → Bool
slt x y =
    if is_neg x
    then (if is_neg y then ltb x y else Bool.true)
    else (if is_neg y then Bool.false else ltb x y)

-- An `int`, or 0 where it is negative.
abbrev pub positive_part : ℕ → ℕ
positive_part x = if is_neg x then 0 else x

-- A count that is no more than a bound grows until it is the bound.
pub slt-positive_part :
    (i n : ℕ)
    → n < 2 ^ 32
    → i ≤ positive_part n
    → (slt i n ≡ true → suc i ≤ positive_part n) × (slt i n ≡ false → i ≡ positive_part n)
slt-positive_part i n h le = (λ e. ground (arith, h, le, e), λ e. ground (arith, h, le, e))

abbrev pub length {ℓ} : {A : Type ℓ} → List A → ℕ
length [] = zero
length (_ ∷ l) = suc (length l)

-- An array written at one index.
abbrev pub update {ℓ} : {A : Type ℓ} → (ℕ → A) → ℕ → A → ℕ → A
update f i v j = if i == j then v else f j

-- A register written in a file whose register 0 cannot be.
abbrev pub write_reg : ℕ → ℕ → (ℕ → ℕ) → ℕ → ℕ
write_reg rd v regs = if rd == 0 then regs else update regs rd v

-- An element of a table, with a default beyond its end.
abbrev pub get_or {ℓ} : {A : Type ℓ} → List A → ℕ → A → A
get_or [] i d = d
get_or (x ∷ xs) zero d = x
get_or (x ∷ xs) (suc i) d = get_or xs i d
