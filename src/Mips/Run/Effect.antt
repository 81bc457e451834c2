-- ===== src/Mips/Run/Effect.antt =====
-- What an instruction does to the memory, and to the alignment of the program counter.
use simple_cpu.Base.{
  ℕ, ◌+◌, ◌/◌, ◌%◌, ◌^◌, ◌≤◌, ◌<◌, ◌≡◌, refl, arith, Bool, true, not, ◌||◌, some, ◌==◌, u32,
  >>=-eq-some, sym, inr, bit_and, bit_and_mask, bit_and_shifted,
}
use mathlib.Core.Option.{some-injective}
use simple_cpu.Memory.Laws.{IsBytes, mem_write_32-IsBytes, read-write-Apart}
use simple_cpu.Mips.Machine.{Simulator, mem_regions, mem_read_32, mem_write_32, reg}
use simple_cpu.Mips.Opcode
use simple_cpu.Mips.Execute.Register.{execute_shift, execute_alu, execute_r}
use simple_cpu.Mips.Execute.Branch.{branch, link, execute_branch}
use simple_cpu.Mips.Execute.Immediate.{immediate, finish_i, execute_immediate}
use simple_cpu.Mips.Execute.Access.{finish_store, execute_load, execute_store, execute_i}
use simple_cpu.Mips.Execute.Jump.{execute_j}
use simple_cpu.Mips.Execute.Laws.{branch_lem, execute_j_lem}

-- The memory is kept, and the program counter stays a multiple of 4.
abbrev pub KeepsMem : Simulator → Simulator → Type 0
KeepsMem s d = (d.mem ≡ s.mem) × (d.next.pc % 4 ≡ 0)

-- The functions of the register instructions that do not jump, and have a case.
abbrev pub is_plain : ℕ → Bool
is_plain funct =
    funct == Opcode.add
    || funct == Opcode.and
    || funct == Opcode.or
    || funct == Opcode.slt
    || funct == Opcode.sub

pub execute_r-KeepsMem :
    (rs rt rd shamt funct : ℕ) (s d : Simulator)
    → is_plain funct ≡ true
    → s.current.pc % 4 ≡ 0
    → execute_r rs rt rd shamt funct s ≡ some d
    → KeepsMem s d
unfolding execute_r execute_shift execute_alu
execute_r-KeepsMem rs rt rd shamt funct s d h al e = ground arith

branch-KeepsMem :
    (taken : Bool) (imm : ℕ) (s : Simulator)
    → imm < 2 ^ 16
    → s.current.pc % 4 ≡ 0
    → KeepsMem s (branch taken imm s)
branch-KeepsMem taken imm s h al = rw (branch_lem taken imm s h) (ground arith)

-- The opcodes that do not store, of those that the generator draws.
abbrev pub is_quiet : ℕ → Bool
is_quiet opcode =
    opcode == Opcode.addi
    || opcode == Opcode.andi
    || opcode == Opcode.beq
    || opcode == Opcode.bne
    || opcode == Opcode.lw
    || opcode == Opcode.ori
    || opcode == Opcode.slti

pub execute_i-KeepsMem :
    (opcode rs rt imm : ℕ) (s d : Simulator)
    → is_quiet opcode ≡ true
    → imm < 2 ^ 16
    → s.current.pc % 4 ≡ 0
    → execute_i opcode rs rt imm s ≡ some d
    → KeepsMem s d
unfolding execute_i execute_branch execute_immediate execute_load finish_i
execute_i-KeepsMem opcode rs rt imm s d q h al e =
    let x = reg s rs in
    ground (
      arith,
      branch-KeepsMem (x == reg s rt) imm s h al,
      branch-KeepsMem (not (x == reg s rt)) imm s h al,
    )

-- The words of the text segment are kept, the store stays one of bytes, and the program counter
-- stays a multiple of 4.
abbrev pub KeepsText : Simulator → Simulator → Type 0
KeepsText s d =
    (d.next.pc % 4 ≡ 0)
    × (IsBytes s.mem → IsBytes d.mem)
    × ((b : ℕ) → b < 0x2000 → b % 4 ≡ 0 → mem_read_32 d.mem b ≡ mem_read_32 s.mem b)

pub KeepsMem-KeepsText : (s d : Simulator) → KeepsMem s d → KeepsText s d
KeepsMem-KeepsText s d (same, al) = (al, λ w. rw same w, λ b h g. rw same refl)

-- The address that a load or a store with an immediate of 16 bits computes.
abbrev pub access_address : ℕ → ℕ → Simulator → ℕ
access_address rs imm s = u32 (reg s rs + immediate imm)

finish_store-KeepsText :
    (address v : ℕ) (s d : Simulator)
    → IsBytes s.mem
    → 0x2000 ≤ address
    → s.current.pc % 4 ≡ 0
    → finish_store address v s ≡ some d
    → KeepsText s d
unfolding finish_store
finish_store-KeepsText address v s d w far al e =
    let (m, me, re) = >>=-eq-some (mem_write_32 s.mem address v) _ e in
    let apart : (b : ℕ) → b < 0x2000 → b % 4 ≡ 0 → mem_read_32 m b ≡ mem_read_32 s.mem b =
      λ b h g. read-write-Apart mem_regions s.mem m address v w me b (inr (omega arith)) in
    let bytes = mem_write_32-IsBytes mem_regions s.mem m address v w me in
    let done = some-injective _ _ re in rw (sym done) (omega arith, λ _. bytes, apart)

pub execute_sw-KeepsText :
    (rs rt imm : ℕ) (s d : Simulator)
    → IsBytes s.mem
    → 0x2000 ≤ access_address rs imm s
    → s.current.pc % 4 ≡ 0
    → execute_i Opcode.sw rs rt imm s ≡ some d
    → KeepsText s d
unfolding execute_i execute_branch execute_immediate execute_load execute_store
execute_sw-KeepsText rs rt imm s d w far al e =
    let address = access_address rs imm s in
    finish_store-KeepsText (bit_and address 0xfffffffc) (s.next.regs rt) s d w
      (ground (arith, bit_and_shifted 2 0x3fffffff address, bit_and_mask 30 (address / 2 ^ 2))) al e

pub execute_j-KeepsText :
    (opcode target : ℕ) (s : Simulator)
    → (opcode == 2 || opcode == 3) ≡ true
    → target < 2 ^ 26
    → s.current.pc + 4 < 2 ^ 32
    → KeepsText s (execute_j opcode target s)
unfolding execute_j link
execute_j-KeepsText opcode target s jump h g =
    KeepsMem-KeepsText s (execute_j opcode target s)
      (ground arith, omega (arith, (execute_j_lem opcode target s jump h g).0))
