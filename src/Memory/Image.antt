-- ===== src/Memory/Image.antt =====
-- Filling the memory: the loop of `init_memory` and the reading loop of `load_program`, the same in
-- both simulators.
pub mod Laws
use simple_cpu.Base.{ℕ, suc, ◌+◌, ◌%◌, ◌^◌, Option, some, ◌>>=◌, List, [], ◌∷◌, update}
use simple_cpu.Memory.{Region, Store, mem_write_32}

-- The loop that allocates and fills the regions from index `i` on. `memset` stores its value as an
-- `unsigned char`.
unfoldable pub fill_regions : List Region → ℕ → Store → Store
fill_regions [] i mem = mem
fill_regions (_ ∷ rs) i mem = fill_regions rs (suc i) (update mem i (λ _. 0xdeadbeef % 2 ^ 8))

-- The loop over the two files, with `ii`. A word for which the file of addresses has no line left is
-- dropped.
unfoldable pub load_words : List Region → List ℕ → List ℕ → ℕ → Store → Option (ℕ × Store)
load_words rs [] pcs ii mem = some (ii, mem)
load_words rs (word ∷ words) [] ii mem = load_words rs words [] ii mem
load_words rs (word ∷ words) (pc ∷ pcs) ii mem = do
  mem' ← mem_write_32 rs mem pc word
  load_words rs words pcs (ii + 4) mem'
