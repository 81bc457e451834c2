-- ===== src/Mips/Generator/Check/Laws.antt =====
-- The checks of addresses in mips/hex_gen/src/hex_gen.c against what the simulator of
-- mips/iss/src/sim.c does with the same fields.
use simple_cpu.Base.{
  ℕ, ◌+◌, ◌-◌, ◌*◌, ◌/◌, ◌^◌, ◌≤◌, ◌<◌, ◌≡◌, ◌≢◌, ◌↔◌, arith, true, ◌&&◌, some, none, ◌==◌,
  if◌then◌else◌, ltb, leb, bit_and, bit_and_shifted, bit_and_mask,
}
use simple_cpu.Memory
use simple_cpu.Memory.{Store, locate, in_region, load_word}
use simple_cpu.Mips.Opcode
use simple_cpu.Mips.Machine.{Simulator, mem_regions, mem_read_32, mem_write_32}
use simple_cpu.Mips.Execute.Branch.{branch, execute_branch}
use simple_cpu.Memory.Laws.{mem_read_32-eq-none_iff}
use simple_cpu.Mips.Execute.Immediate.{execute_immediate}
use simple_cpu.Mips.Execute.Access.{finish_store, execute_load, execute_store, execute_i}
use simple_cpu.Mips.Run.Effect.{access_address}
use simple_cpu.Mips.Generator.State.{Generator}
use simple_cpu.Mips.Generator.Check.{check_ls_addr, check_brn_addr}

accepted_iff :
    (t a : ℕ) (pc : ℕ → ℕ)
    → a ≢ 2 ^ 32 - 1
    → ((if ltb 0 t && (leb t 0x1f00 && pc t == 0) then t else 2 ^ 32 - 1) ≡ a)
      ↔ ((t ≡ a) × (0 < a) × (a ≤ 0x1f00) × (pc a ≡ 0))
accepted_iff t a pc ne = (
  λ (e : (if ltb 0 t && (leb t 0x1f00 && pc t == 0) then t else 2 ^ 32 - 1) ≡ a). ground arith,
  λ (e : (t ≡ a) × (0 < a) × (a ≤ 0x1f00) × (pc a ≡ 0)). ground arith,
)

-- For an address other than 0xffffffff, `check_brn_addr` gives it exactly when the simulator's
-- branch with the same immediate, taken, goes there, it is above 0 and at most 0x1f00, and its
-- place is not marked.
pub check_brn_addr_iff :
    (imm a : ℕ) (g : Generator)
    → a ≢ 2 ^ 32 - 1
    → (check_brn_addr imm g ≡ a)
      ↔ (((branch true imm g.sim).next.pc ≡ a) × (0 < a) × (a ≤ 0x1f00) × (g.pc a ≡ 0))
unfolding check_brn_addr branch
check_brn_addr_iff imm a g ne = accepted_iff ((branch true imm g.sim).next.pc) a g.pc ne

in_data :
    (a : ℕ)
    → 0x2000 ≤ a
    → a + 3 < 0x102000
    → locate mem_regions 0 a ≡ some (record { region = 1; size = 0x100000; offset = a - 0x2000 })
unfolding locate in_region
in_data a h k = ground arith

in_data_read : (m : Store) (a : ℕ) → 0x2000 ≤ a → a + 3 < 0x102000 → mem_read_32 m a ≢ none
unfolding Memory.mem_read_32 load_word
in_data_read m a h k e = let f = rw (in_data a h k, Memory.mem_read_32) at e in ground (arith, f)

-- Access to a word of the data segment.
access-Total :
    (rs rt imm : ℕ) (s : Simulator)
    → mem_read_32 s.mem (bit_and (access_address rs imm s) 0xfffffffc) ≢ none
    → (execute_i Opcode.lw rs rt imm s ≢ none) × (execute_i Opcode.sw rs rt imm s ≢ none)
unfolding execute_i execute_branch execute_immediate execute_load execute_store finish_store
access-Total rs rt imm s h =
    let word = bit_and (access_address rs imm s) 0xfffffffc in
    let store : mem_write_32 s.mem word (s.next.regs rt) ≢ none =
      λ e. h ((mem_read_32-eq-none_iff mem_regions s.mem word (s.next.regs rt)).1 e) in
    (λ e. ground (arith, h, e), λ e. ground (arith, store, e))

-- Where `check_ls_addr` gives neither 2 nor 0, it gives the address that the simulator computes
-- from the same fields, and both `LW` and `SW` with them stay within their block.
pub check_ls_addr-access :
    (rs rt imm : ℕ) (g : Generator)
    → check_ls_addr rs imm g ≢ 2
    → check_ls_addr rs imm g ≢ 0
    → (check_ls_addr rs imm g ≡ access_address rs imm g.sim)
      × (execute_i Opcode.lw rs rt imm g.sim ≢ none)
      × (execute_i Opcode.sw rs rt imm g.sim ≢ none)
unfolding check_ls_addr
check_ls_addr-access rs rt imm g h k =
    let address = access_address rs imm g.sim in
    let same : check_ls_addr rs imm g ≡ address = ground arith in
    let low : 0x2000 < address = ground arith in
    let high : address < 0x102000 = ground arith in
    let word : bit_and address 0xfffffffc ≡ address / 4 * 4 =
      ground (arith, bit_and_shifted 2 0x3fffffff address, bit_and_mask 30 (address / 2 ^ 2)) in
    let readable : mem_read_32 g.sim.mem (bit_and address 0xfffffffc) ≢ none =
      rw word
        (in_data_read g.sim.mem (address / 4 * 4) (omega (arith, low)) (omega (arith, high))) in
    let (load, store) = access-Total rs rt imm g.sim readable in (same, load, store)
