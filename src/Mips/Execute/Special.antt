-- ===== src/Mips/Execute/Special.antt =====
-- The cases of `execute_r` from `MULT` on: multiplication, division, `HI` and `LO`, `SYSCALL`.
use simple_cpu.Base.{
  ℕ, ◌-◌, ◌*◌, ◌/◌, ◌%◌, ◌^◌, false, Option, none, some, u32, is_neg, ◌>>>◌, ◌==◌, ◌&&◌, xor,
  if◌then◌else◌, bit_and,
}
use simple_cpu.Mips.Machine.{Simulator, reg, set_reg, set_hi, set_lo, next_pc}
use simple_cpu.Mips.Opcode

-- The absolute value of an `int32_t`, and the negative of a number below 2 ^ 32.
abbrev pub magnitude : ℕ → ℕ
magnitude x = if is_neg x then 2 ^ 32 - x else x

abbrev pub negate : ℕ → ℕ
negate x = u32 (2 ^ 32 - x)

-- `/` and `%` of `int32_t`, which round towards 0: the remainder has the sign of the dividend.
unfoldable pub signed_div : ℕ → ℕ → ℕ
signed_div x y =
    let q = magnitude x / magnitude y in if xor (is_neg x) (is_neg y) then negate q else q

unfoldable pub signed_rem : ℕ → ℕ → ℕ
signed_rem x y = let r = magnitude x % magnitude y in if is_neg x then negate r else r

-- The product is taken in 32 bits, and `mul_res` is that word.
unfoldable pub multiply : ℕ → ℕ → Simulator → Simulator
multiply x y s =
    let mul_res = u32 (x * y) in
    next_pc (set_lo (bit_and mul_res 0xffffffff) (set_hi (bit_and (mul_res >>> 32) 0xffffffff) s))

-- `none` is a division that C leaves undefined: by 0, or of the least `int32_t` by -1.
unfoldable pub divide : ℕ → ℕ → Simulator → Option Simulator
divide x y s =
    if y == 0
    then none
    else if x == 2 ^ 31 && y == 2 ^ 32 - 1
    then none
    else some (next_pc (set_hi (signed_rem x y) (set_lo (signed_div x y) s)))

unfoldable pub divide_unsigned : ℕ → ℕ → Simulator → Option Simulator
divide_unsigned x y s = if y == 0 then none else some (next_pc (set_hi (x % y) (set_lo (x / y) s)))

unfoldable pub execute_special : ℕ → ℕ → ℕ → ℕ → Simulator → Option Simulator
execute_special funct rs rt rd s =
    if funct == Opcode.mult
    then some (multiply (reg s rs) (reg s rt) s)
    else if funct == Opcode.mfhi
    then some (next_pc (set_reg rd s.current.hi s))
    else if funct == Opcode.mflo
    then some (next_pc (set_reg rd s.current.lo s))
    else if funct == Opcode.mthi
    then some (next_pc (set_hi (reg s rs) s))
    else if funct == Opcode.mtlo
    then some (next_pc (set_lo (reg s rs) s))
    else if funct == Opcode.multu
    then some (multiply (reg s rs) (reg s rt) s)
    else if funct == Opcode.div
    then divide (reg s rs) (reg s rt) s
    else if funct == Opcode.divu
    then divide_unsigned (reg s rs) (reg s rt) s
    else if funct == Opcode.syscall
    then some (next_pc (record s { run_bit = if reg s 2 == 0xa then false else s.run_bit }))
    else some s
