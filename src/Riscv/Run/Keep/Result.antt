-- ===== src/Riscv/Run/Keep/Result.antt =====
-- The steps that every instruction ends with keep the state good: a result written to a register or
-- not, the program counter moved on; and the values of the shifts are words.
use simple_cpu.Base.{
  ℕ, ◌^◌, ◌<◌, ◌≡◌, arith, Bool, true, false, Option, none, some, u32, to_int, ◌==◌, if◌then◌else◌,
  bit_and, bit_and_mask, bit_or-lt, ◌>>>◌, update, Bool-cases, inl, inr,
}
use native.Mathlib.Nat.{div-le_self}
use simple_cpu.Extend.{shift_const}
use simple_cpu.Extend.Laws.{shift_const-lt}
use simple_cpu.Riscv.Machine.{Simulator, set_reg, set_pc, next_pc}
use simple_cpu.Riscv.State.{IsGood}
use simple_cpu.Riscv.Execute.Register.{sra_value}

-- A result, if there is one, is good.
abbrev pub MaybeGood : Option Simulator → Type 0
MaybeGood none = Unit
MaybeGood (some s) = IsGood s

pub if-IsGood : (b : Bool) {s t : Simulator} → IsGood s → IsGood t → IsGood (if b then s else t)
if-IsGood true g h = g
if-IsGood false g h = h

pub if-MaybeGood :
    (b : Bool) (s t : Option Simulator) → MaybeGood s → MaybeGood t → MaybeGood (if b then s else t)
if-MaybeGood true s t g h = g
if-MaybeGood false s t g h = h

pub update-word : (f : ℕ → ℕ) (i v j : ℕ) → f j < 2 ^ 32 → v < 2 ^ 32 → update f i v j < 2 ^ 32
update-word f i v j h g = ground arith

pub set_pc-IsGood : (v : ℕ) (s : Simulator) → v < 2 ^ 32 → IsGood s → IsGood (set_pc v s)
set_pc-IsGood v s h g = record {
  old = g.old;
  new = record { zero_reg = g.new.zero_reg; words = g.new.words; pc_word = h };
  bytes = g.bytes;
}

pub next_pc-IsGood : (s : Simulator) → IsGood s → IsGood (next_pc s)
next_pc-IsGood s g = set_pc-IsGood _ s (omega arith) g

pub set_reg-IsGood :
    (i v : ℕ) (s : Simulator) → (i == 0) ≡ false → v < 2 ^ 32 → IsGood s → IsGood (set_reg i v s)
set_reg-IsGood i v s ne h g = record {
  old = g.old;
  new = record {
    zero_reg = ground (arith, g.new.zero_reg);
    words = λ j. update-word s.next.regs i v j (g.new.words j) h;
    pc_word = g.new.pc_word;
  };
  bytes = g.bytes;
}

-- Every write of a result goes through the test of `rd`.
pub result-IsGood :
    (rd v : ℕ) (s : Simulator)
    → v < 2 ^ 32
    → IsGood s
    → IsGood (if rd == 0 then next_pc s else next_pc (set_reg rd v s))
result-IsGood rd v s h g = elim (Bool-cases (rd == 0)) [
  | inl at ↦ rw at (next_pc-IsGood s g)
  | inr off ↦ rw off (next_pc-IsGood _ (set_reg-IsGood rd v s off h g))
]

pub u32-lt : (x : ℕ) → u32 x < 2 ^ 32
u32-lt x = omega arith

pub to_int-lt : (b : Bool) → to_int b < 2 ^ 32
to_int-lt true = omega arith
to_int-lt false = omega arith

pub shift-lt : (x n : ℕ) → x < 2 ^ 32 → x >>> n < 2 ^ 32
shift-lt x n h = omega (arith, div-le_self x (2 ^ n))

pub sra_value-lt : (x y : ℕ) → x < 2 ^ 32 → sra_value x y < 2 ^ 32
unfolding sra_value
sra_value-lt x y h =
    let amount = bit_and y 0x1f in
    let shifted = shift-lt x amount h in
    let ones = shift_const-lt amount (omega (arith, bit_and_mask 5 y)) in
    ground (arith, bit_or-lt 32 (x >>> amount) (shift_const amount) shifted ones)
