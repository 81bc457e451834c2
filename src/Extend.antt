-- ===== src/Extend.antt =====
-- Sign extension in the simulators: the table `shift_const`, which iss/src/sim.c of both processors
-- has word for word, and the idiom that ORs an entry of it to an immediate.
pub mod Laws
use simple_cpu.Base.{ℕ, List, [], ◌∷◌, bit_or, ◌==◌, if◌then◌else◌, get_or}

-- The values of the `switch`, in the order of its cases from 0 to 31.
abbrev shift_consts : List ℕ
shift_consts =
    0x00000000 ∷ 0x80000000 ∷ 0xC0000000 ∷ 0xE0000000 ∷ 0xF0000000 ∷ 0xF8000000 ∷ 0xFC000000
    ∷ 0xFE000000 ∷ 0xFF000000 ∷ 0xFF800000 ∷ 0xFFC00000 ∷ 0xFFE00000 ∷ 0xFFF00000 ∷ 0xFFF80000
    ∷ 0xFFFC0000 ∷ 0xFFFE0000 ∷ 0xFFFF0000 ∷ 0xFFFF8000 ∷ 0xFFFFC000 ∷ 0xFFFFE000 ∷ 0xFFFFF000
    ∷ 0xFFFFF800 ∷ 0xFFFFFC00 ∷ 0xFFFFFE00 ∷ 0xFFFFFF00 ∷ 0xFFFFFF80 ∷ 0xFFFFFFC0 ∷ 0xFFFFFFE0
    ∷ 0xFFFFFFF0 ∷ 0xFFFFFFF8 ∷ 0xFFFFFFFC ∷ 0xFFFFFFFE ∷ []

-- Any other argument gives 0.
unfoldable pub shift_const : ℕ → ℕ
shift_const shamt = get_or shift_consts shamt 0

-- `(sign) ? (imm | shift_val) : imm`.
unfoldable pub extend : ℕ → ℕ → ℕ → ℕ
extend sign shift_val imm = if sign == 0 then imm else bit_or imm shift_val
