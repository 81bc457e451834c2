-- ===== src/Mips/Generator/Api.antt =====
-- The functions for directed tests of mips/hex_gen/src/hex_gen_api.c.
pub mod Laws
use simple_cpu.Base.{
  ℕ, zero, suc, ◌%◌, Bool, true, false, Option, none, some, ltb, ◌==◌, if◌then◌else◌,
}
use simple_cpu.Mips.Generator.State.{Generator}
use simple_cpu.HexGen.{imem_size}

-- The loop of `find_reg`, with the registers that are left.
unfoldable pub find_from : ℕ → ℕ → (ℕ → ℕ) → ℕ → Bool
find_from zero i regs reg_val = false
find_from (suc left) i regs reg_val =
    let rest = find_from left (suc i) regs reg_val in if regs i == reg_val then true else rest

unfoldable pub find_reg : ℕ → Generator → Bool
find_reg reg_val g = find_from 32 0 g.sim.current.regs reg_val

-- The loop of `get_reg`.
unfoldable pub get_from : ℕ → ℕ → (ℕ → ℕ) → ℕ → ℕ
get_from zero i regs reg_val = 0
get_from (suc left) i regs reg_val =
    let rest = get_from left (suc i) regs reg_val in if regs i == reg_val then i else rest

unfoldable pub get_reg : ℕ → Generator → ℕ
get_reg reg_val g = get_from 32 0 g.sim.current.regs reg_val

unfoldable pub get_curr_pc : Generator → ℕ
get_curr_pc g = g.sim.current.pc

-- The second loop of `get_rand_ls_addr`: the first entry that is not 0, or 0.
unfoldable pub first_addr : ℕ → ℕ → (ℕ → ℕ) → ℕ
first_addr zero i addrs = 0
first_addr (suc left) i addrs =
    let rest = first_addr left (suc i) addrs in if addrs i == 0 then rest else addrs i

module _ (rand : ℕ → ℕ) where
  -- The first loop, then the second: the address, and how many numbers were drawn.
  unfoldable pub rand_addr : ℕ → ℕ → (ℕ → ℕ) → ℕ → ℕ × ℕ
  rand_addr zero n addrs count = (first_addr imem_size 0 addrs, n)
  rand_addr (suc left) n addrs count =
      let addr = addrs (rand n % count) in
      let rest = rand_addr left (suc n) addrs count in if addr == 0 then rest else (addr, suc n)

  -- `none` is a remainder by 0, or an index past the array.
  unfoldable pub get_rand_addr : (ℕ → ℕ) → Generator → Option (ℕ × Generator)
  get_rand_addr addrs g =
      if g.instr_gen == 0
      then none
      else if ltb imem_size g.instr_gen
      then none
      else (let (addr, n) = rand_addr imem_size g.drawn addrs g.instr_gen in
          some (addr, record g { drawn = n }))

  unfoldable pub get_rand_ls_addr : Generator → Option (ℕ × Generator)
  get_rand_ls_addr g = get_rand_addr g.ls_addr g

  unfoldable pub get_rand_br_addr : Generator → Option (ℕ × Generator)
  get_rand_br_addr g = get_rand_addr g.br_addr g
