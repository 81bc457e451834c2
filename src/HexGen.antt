-- ===== src/HexGen.antt =====
-- The arrays of the two generators of test programs, mips/hex_gen/src and risc-v/hex_gen/src, and the
-- loops over them that both have. Entry i is for the address i places after the start of the text
-- segment.
pub mod Laws
pub mod Arguments
use simple_cpu.Base.{
  u32, is_neg, none, Option, some, ◌>>=◌, ℕ, zero, suc, ◌+◌, List, [], ◌∷◌, ltb, ◌==◌, update,
  if◌then◌else◌,
}

abbrev pub imem_size : ℕ
imem_size = 0x2000

-- The loop of `init_hex_gen`, with the rounds that are left.
unfoldable pub clear : ℕ → ℕ → (ℕ → ℕ) → ℕ → ℕ
clear zero i array = array
clear (suc left) i array = clear left (suc i) (update array i 0)

-- What the loop of `make_room` finds: two free places in a row, none, or an index past the array.
pub data Room : Type 0 where
  room : ℕ → Room
  full past_end : Room

-- The loop, with the rounds that are left.
unfoldable pub find_room : ℕ → ℕ → (ℕ → ℕ) → Room
find_room zero i pc = full
find_room (suc left) i pc =
    let rest = find_room left (i + 4) pc in
    if pc i == 0
    then (if ltb (i + 4) imem_size then (if pc (i + 4) == 0 then room i else rest) else past_end)
    else rest

-- The rounds of that loop, which starts at 4 and takes every fourth place.
abbrev pub room_rounds : ℕ
room_rounds = 2047

-- The loop of `print_to_file`, with the rounds that are left: the numbers in its two files, program
-- counters and words.
unfoldable pub printed : ℕ → ℕ → ℕ → (ℕ → ℕ) → (ℕ → ℕ) → List ℕ × List ℕ
printed start zero i pc instr = ([], [])
printed start (suc left) i pc instr =
    let (pcs, words) = printed start left (i + 4) pc instr in
    if pc i == 0 then (pcs, words) else ((i + start) ∷ pcs, instr i ∷ words)

abbrev pub print_rounds : ℕ
print_rounds = 2048

-- `x + y` of two `int`; `none` is an overflow, which C leaves undefined.
unfoldable pub add_int : ℕ → ℕ → Option ℕ
add_int x y =
    let sum = u32 (x + y) in
    if is_neg x
    then (if is_neg y then (if is_neg sum then some sum else none) else some sum)
    else (if is_neg y then some sum else (if is_neg sum then none else some sum))

-- The sum of several `int`, from left to right; `none` is an overflow.
unfoldable pub add_all : ℕ → List ℕ → Option ℕ
add_all sum [] = some sum
add_all sum (x ∷ xs) = do next ← add_int sum x; add_all next xs
