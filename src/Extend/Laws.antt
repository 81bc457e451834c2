-- ===== src/Extend/Laws.antt =====
-- `shift_const` as arithmetic, and what the idiom computes.
use simple_cpu.Base.{
  ℕ, ◌+◌, ◌-◌, ◌*◌, ◌/◌, ◌^◌, ◌≤◌, ◌<◌, ◌≡◌, refl, arith, bit_and, bit_or, bit_and_mask,
  bit_and_shifted, bit_or_fields_low, bit_or-lt, ltb→lt, holds_below, holds_below_lem, ◌==◌, ==_iff,
  ltb, if◌then◌else◌, true, ◌>>>◌, is_neg, ap, Bool, u32, slt,
}
use native.Mathlib.Nat.{one-le-pow, add-mul-div_left}
use simple_cpu.Extend.{shift_const, extend}

shift_const_table : holds_below (λ n. shift_const n == (2 ^ n - 1) * 2 ^ (32 - n)) 32 ≡ true
unfolding holds_below shift_const
shift_const_table = refl

-- Below 32, the entry of `shift_const` for n has its n top bits set and the others clear.
pub shift_const_lem : (n : ℕ) → n < 32 → shift_const n ≡ (2 ^ n - 1) * 2 ^ (32 - n)
shift_const_lem n h = (==_iff _ _).0 (holds_below_lem _ 32 n h shift_const_table)

-- The two's complement reading of a field of `k` bits as a 32-bit word.
abbrev pub sext : ℕ → ℕ → ℕ
sext k x = if ltb x (2 ^ (k - 1)) then x else x + 2 ^ 32 - 2 ^ k

-- The sign extensions of the source, each with its mask and its entry of the table.
pub extend_12 :
    (x : ℕ) → x < 2 ^ 12 → extend (bit_and x 0x800 >>> 11) (shift_const 20) x ≡ sext 12 x
unfolding extend shift_const
extend_12 x h = ground (
  arith,
  bit_and_shifted 11 1 x,
  bit_and_mask 1 (x / 2 ^ 11),
  bit_or_fields_low 12 (2 ^ 20 - 1) x h,
)

pub extend_13 :
    (x : ℕ) → x < 2 ^ 13 → extend (bit_and x 0x1000 >>> 12) (shift_const 19) x ≡ sext 13 x
unfolding extend shift_const
extend_13 x h = ground (
  arith,
  bit_and_shifted 12 1 x,
  bit_and_mask 1 (x / 2 ^ 12),
  bit_or_fields_low 13 (2 ^ 19 - 1) x h,
)

pub extend_16 :
    (x : ℕ) → x < 2 ^ 16 → extend (bit_and x 0x8000 >>> 15) (shift_const 16) x ≡ sext 16 x
unfolding extend shift_const
extend_16 x h = ground (
  arith,
  bit_and_shifted 15 1 x,
  bit_and_mask 1 (x / 2 ^ 15),
  bit_or_fields_low 16 (2 ^ 16 - 1) x h,
)

pub extend_21 :
    (x : ℕ) → x < 2 ^ 21 → extend (bit_and x 0x100000 >>> 20) (shift_const 11) x ≡ sext 21 x
unfolding extend shift_const
extend_21 x h = ground (
  arith,
  bit_and_shifted 20 1 x,
  bit_and_mask 1 (x / 2 ^ 20),
  bit_or_fields_low 21 (2 ^ 11 - 1) x h,
)

-- A byte of memory, extended by its top bit.
pub extend_8 : (x : ℕ) → x < 2 ^ 8 → extend (x >>> 7) (shift_const 24) x ≡ sext 8 x
unfolding extend shift_const
extend_8 x h = ground (arith, bit_or_fields_low 8 (2 ^ 24 - 1) x h)

-- `x < y` of two's complement words: compare after flipping the sign bits.
abbrev pub signed_lt : ℕ → ℕ → Bool
signed_lt x y = ltb (u32 (x + 2 ^ 31)) (u32 (y + 2 ^ 31))

pub slt_lem : (x y : ℕ) → x < 2 ^ 32 → y < 2 ^ 32 → slt x y ≡ signed_lt x y
slt_lem x y hx hy = ground arith

-- The arithmetic shift right of a word as the shift of its sign extension to 32 + n bits.
abbrev pub sra : ℕ → ℕ → ℕ
sra x n = if is_neg x then (x + (2 ^ n - 1) * 2 ^ 32) / 2 ^ n else x / 2 ^ n

word_split_table : holds_below (λ n. 2 ^ n * 2 ^ (32 - n) == 2 ^ 32) 32 ≡ true
unfolding holds_below
word_split_table = refl

word_split : (n : ℕ) → n < 32 → 2 ^ n * 2 ^ (32 - n) ≡ 2 ^ 32
word_split n h = (==_iff _ _).0 (holds_below_lem _ 32 n h word_split_table)

div-lt_of_mul : (p q x : ℕ) → 1 ≤ p → x < p * q → x / p < q
div-lt_of_mul p q x h g = grind arith

sra_neg : (p q x : ℕ) → 1 ≤ p → p * q ≡ 2 ^ 32 → (x + (p - 1) * 2 ^ 32) / p ≡ (p - 1) * q + x / p
sra_neg p q x h e =
    let regroup : x + (p - 1) * 2 ^ 32 ≡ x + p * ((p - 1) * q) =
      omega (arith, ap (λ (t : ℕ). (p - 1) * t) e) in
    rw regroup (omega (arith, add-mul-div_left x ((p - 1) * q) h))

-- A logical shift right of a word by less than 32, with the ones of `shift_const` put in by OR if
-- the top bit is set, is the arithmetic shift.
pub sra_lem :
    (x n : ℕ)
    → x < 2 ^ 32
    → n < 32
    → (if (x >>> 31) == 1 then bit_or (x >>> n) (shift_const n) else x >>> n) ≡ sra x n
sra_lem x n hx hn = ground (
  arith,
  shift_const_lem n hn,
  sra_neg (2 ^ n) (2 ^ (32 - n)) x (one-le-pow n 2 (omega arith)) (word_split n hn),
  bit_or_fields_low (32 - n) (2 ^ n - 1) (x / 2 ^ n) (
      div-lt_of_mul (2 ^ n) (2 ^ (32 - n)) x (one-le-pow n 2 (omega arith))
        (rw (word_split n hn) hx)),
)

shift_const_bound : holds_below (λ n. ltb (shift_const n) (2 ^ 32)) 32 ≡ true
unfolding holds_below shift_const
shift_const_bound = refl

pub shift_const-lt : (n : ℕ) → n < 32 → shift_const n < 2 ^ 32
shift_const-lt n h = ltb→lt _ _ (holds_below_lem _ 32 n h shift_const_bound)

pub extend-lt : (g v x : ℕ) → v < 2 ^ 32 → x < 2 ^ 32 → extend g v x < 2 ^ 32
unfolding extend
extend-lt g v x hv hx = ground (arith, bit_or-lt 32 x v hx hv)
