-- ===== src/Memory/Tests.antt =====
-- The theorems about the memory, the loader's loop and sign extension at concrete inputs: two small
-- regions, the second next to the first.
use simple_cpu.Base.{ℕ, ◌≡◌, inr, refl, arith, some, List, [], ◌∷◌, update}
use simple_cpu.Memory.{
  Region, Store, mem_read_32, mem_write_32, in_region, locate, put_bytes, store_word,
}
use simple_cpu.Memory.Laws.{IsBytes, read-write, read-write-Apart}
use simple_cpu.Memory.Image.{load_words}
use simple_cpu.Memory.Image.Laws.{IsLayout, IsLoaded, load_words-IsLoaded}

abbrev two_regions : List Region
two_regions = record { start = 0x100; size = 0x20 } ∷ record { start = 0x120; size = 0x10 } ∷ []

abbrev blank : Store
blank r o = 0

blank-IsBytes : IsBytes blank
blank-IsBytes r o = omega arith

-- The store after a write at 0x124.
abbrev written : Store
written = update blank 1 (put_bytes (λ o. 0) 4 0x12345678)

write : mem_write_32 two_regions blank 0x124 0x12345678 ≡ some written
unfolding mem_write_32 locate in_region store_word
write = refl

read-write_example : mem_read_32 two_regions written 0x124 ≡ some 0x12345678
unfolding locate in_region
read-write_example =
    read-write two_regions blank written 0x124 0x12345678 blank-IsBytes write (omega arith)
      (λ e. cc e)

read-write-Apart_example :
    mem_read_32 two_regions written 0x110 ≡ mem_read_32 two_regions blank 0x110
read-write-Apart_example =
    read-write-Apart two_regions blank written 0x124 0x12345678 blank-IsBytes write 0x110
      (inr (omega arith))

abbrev program : List ℕ
program = 7 ∷ 8 ∷ 9 ∷ []

abbrev addresses : List ℕ
addresses = 0x104 ∷ 0x100 ∷ []

program-IsLayout : IsLayout two_regions program addresses
unfolding locate in_region
program-IsLayout = (
  omega arith,
  (record { region = 0; size = 0x20; offset = 4 }, refl, omega arith),
  (inr (omega arith), tt),
  (omega arith, (record { region = 0; size = 0x20; offset = 0 }, refl, omega arith), tt, tt),
)

load_words-IsLoaded_example :
    (m : Store) × (load_words two_regions program addresses 0 blank ≡ some (8, m))
    × IsBytes m
    × IsLoaded two_regions m program addresses
load_words-IsLoaded_example =
    load_words-IsLoaded two_regions program addresses 0 blank blank-IsBytes program-IsLayout
