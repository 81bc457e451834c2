-- ===== src/Memory.antt =====
-- The simulated memory of risc-v/iss/src/main.c and mips/iss/src/main.c: separately allocated
-- regions, searched in the order of the table.
pub mod Laws
pub mod Image
mod Tests
use simple_cpu.Base.{ℕ, suc, ◌+◌, ◌-◌, Bool, ◌&&◌, Option, none, some, List, [], ◌∷◌}
use simple_cpu.Base.{u32, ◌<<<◌, ◌>>>◌, leb, ltb, if◌then◌else◌, update, bit_and, bit_or}

-- `mem_region_t`, without its pointer.
pub record Region : Type 0 where
  pub start : ℕ
  pub size : ℕ

-- The blocks behind the pointers `mem`: the byte at an offset of the region with a given index.
abbrev pub Store : Type 0
Store = ℕ → ℕ → ℕ

-- What the search finds: the index and the size of a region, and the offset in it.
pub record Place : Type 0 where
  pub region : ℕ
  pub size : ℕ
  pub offset : ℕ

-- The test in the loop over `MEM_REGIONS`.
unfoldable pub in_region : Region → ℕ → Bool
in_region r address = leb r.start address && ltb address (u32 (r.start + r.size))

-- The loop over `MEM_REGIONS`, from index `i` on.
unfoldable pub locate : List Region → ℕ → ℕ → Option Place
locate [] i address = none
locate (r ∷ rs) i address =
    let rest = locate rs (suc i) address in
    if in_region r address
    then some (record { region = i; size = r.size; offset = address - r.start })
    else rest

-- The four byte accesses at `offset`. `none` is an access outside the block of `size` bytes that
-- `init_memory` allocates, which C leaves undefined.
unfoldable pub load_word : Store → Place → Option ℕ
load_word m p =
    if ltb (p.offset + 3) p.size
    then some (
        bit_or
          (bit_or (bit_or (m p.region (p.offset + 3) <<< 24) (m p.region (p.offset + 2) <<< 16))
            (m p.region (p.offset + 1) <<< 8))
          (m p.region (p.offset + 0) <<< 0))
    else none

-- The block with the four bytes of `value` put in, in the order of the source.
unfoldable pub put_bytes : (ℕ → ℕ) → ℕ → ℕ → ℕ → ℕ
put_bytes block offset value =
    let b3 = update block (offset + 3) (bit_and (value >>> 24) 0xff) in
    let b2 = update b3 (offset + 2) (bit_and (value >>> 16) 0xff) in
    let b1 = update b2 (offset + 1) (bit_and (value >>> 8) 0xff) in
    update b1 (offset + 0) (bit_and (value >>> 0) 0xff)

unfoldable pub store_word : Store → Place → ℕ → Option Store
store_word m p value =
    if ltb (p.offset + 3) p.size
    then some (update m p.region (put_bytes (m p.region) p.offset value))
    else none

module _ (regions : List Region) where
  -- An address of no region reads as 0.
  unfoldable pub mem_read_32 : Store → ℕ → Option ℕ
  mem_read_32 m address = elim (locate regions 0 address) [ none ↦ some 0 | some p ↦ load_word m p ]

  -- A write to an address of no region does nothing.
  unfoldable pub mem_write_32 : Store → ℕ → ℕ → Option Store
  mem_write_32 m address value = elim (locate regions 0 address) [
    | none ↦ some m
    | some p ↦ store_word m p value
  ]
