-- ===== src/Mips/Run/Keep/Result.antt =====
-- The steps that every instruction ends with keep the state good, and the values that the
-- instructions compute are words.
use simple_cpu.Base.{
  ℕ, ◌^◌, ◌<◌, ◌≡◌, arith, Bool, true, false, Option, none, some, u32, to_int, ◌==◌, if◌then◌else◌,
  bit_or-lt, ◌>>>◌, update, xor,
}
use mathlib.Core.Bool
use native.Mathlib.Nat.{div-le_self}
use simple_cpu.Extend.{shift_const}
use simple_cpu.Extend.Laws.{shift_const-lt}
use simple_cpu.Mips.Machine.{Simulator, set_reg, set_pc, next_pc, set_hi, set_lo}
use simple_cpu.Mips.State.{IsGood}
use simple_cpu.Mips.Execute.Register.{sra_value}
use simple_cpu.Mips.Execute.Special.{signed_div, signed_rem, magnitude}

-- A result, if there is one, is good.
abbrev pub MaybeGood : Option Simulator → Type 0
MaybeGood none = Unit
MaybeGood (some s) = IsGood s

pub if-MaybeGood :
    (b : Bool) (s t : Option Simulator) → MaybeGood s → MaybeGood t → MaybeGood (if b then s else t)
if-MaybeGood true s t g h = g
if-MaybeGood false s t g h = h

pub if-IsGood : (b : Bool) (s t : Simulator) → IsGood s → IsGood t → IsGood (if b then s else t)
if-IsGood true s t g h = g
if-IsGood false s t g h = h

update-word : (f : ℕ → ℕ) (i v j : ℕ) → f j < 2 ^ 32 → v < 2 ^ 32 → update f i v j < 2 ^ 32
update-word f i v j h g = ground arith

pub set_pc-IsGood : (v : ℕ) (s : Simulator) → v < 2 ^ 32 → IsGood s → IsGood (set_pc v s)
set_pc-IsGood v s h g =
    let (zero_reg, words, _, hi, lo) = g.new in
    record { old = g.old; new = (zero_reg, words, h, hi, lo); bytes = g.bytes }

pub next_pc-IsGood : (s : Simulator) → IsGood s → IsGood (next_pc s)
next_pc-IsGood s g = set_pc-IsGood _ s (omega arith) g

pub set_reg-IsGood :
    (i v : ℕ) (s : Simulator) → (i == 0) ≡ false → v < 2 ^ 32 → IsGood s → IsGood (set_reg i v s)
set_reg-IsGood i v s ne h g =
    let (zero_reg, words, pc, hi, lo) = g.new in
    record {
      old = g.old;
      new = (
        ground (arith, ne, zero_reg),
        λ j. update-word s.next.regs i v j (words j) h,
        pc,
        hi,
        lo,
      );
      bytes = g.bytes;
    }

pub set_hi-IsGood : (v : ℕ) (s : Simulator) → v < 2 ^ 32 → IsGood s → IsGood (set_hi v s)
set_hi-IsGood v s h g =
    let (zero_reg, words, pc, _, lo) = g.new in
    record { old = g.old; new = (zero_reg, words, pc, h, lo); bytes = g.bytes }

pub set_lo-IsGood : (v : ℕ) (s : Simulator) → v < 2 ^ 32 → IsGood s → IsGood (set_lo v s)
set_lo-IsGood v s h g =
    let (zero_reg, words, pc, hi, _) = g.new in
    record { old = g.old; new = (zero_reg, words, pc, hi, h); bytes = g.bytes }

-- Another state with the same processor and memory.
pub same-IsGood :
    (s t : Simulator)
    → t.current ≡ s.current
    → t.next ≡ s.next
    → t.mem ≡ s.mem
    → IsGood s
    → IsGood t
same-IsGood s t c n m g = record { old = rw c g.old; new = rw n g.new; bytes = rw m g.bytes }

pub u32-lt : (x : ℕ) → u32 x < 2 ^ 32
u32-lt x = omega arith

pub to_int-lt : (b : Bool) → to_int b < 2 ^ 32
to_int-lt true = omega arith
to_int-lt false = omega arith

pub shift-lt : (x n : ℕ) → x < 2 ^ 32 → x >>> n < 2 ^ 32
shift-lt x n h = omega (arith, div-le_self x (2 ^ n))

pub sra_value-lt : (x y n : ℕ) → y < 2 ^ 32 → n < 32 → sra_value x y n < 2 ^ 32
unfolding sra_value
sra_value-lt x y n h k =
    ground (arith, bit_or-lt 32 (y >>> n) (shift_const n) (shift-lt y n h) (shift_const-lt n k))

pub signed_rem-lt : (x y : ℕ) → x < 2 ^ 32 → y < 2 ^ 32 → (y == 0) ≡ false → signed_rem x y < 2 ^ 32
unfolding signed_rem
signed_rem-lt x y h g ne = ground arith

pub signed_div-lt : (x y : ℕ) → x < 2 ^ 32 → y < 2 ^ 32 → (y == 0) ≡ false → signed_div x y < 2 ^ 32
unfolding signed_div mathlib.Core.Bool.xor
signed_div-lt x y h g ne = ground (arith, div-le_self (magnitude x) (magnitude y))
