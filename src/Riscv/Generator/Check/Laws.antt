-- ===== src/Riscv/Generator/Check/Laws.antt =====
-- The check of branches in risc-v/hex_gen/src/hex_gen.c against what the simulator of
-- risc-v/iss/src/sim.c does with the same fields.
use simple_cpu.Base.{
  ℕ, ◌+◌, ◌-◌, ◌^◌, ◌<◌, ◌≤◌, ◌≡◌, ◌≢◌, ◌⊎◌, refl, arith, Bool, true, false, not, ◌||◌, ◌==◌,
  if◌then◌else◌, inl, inr, Bool-cases,
}
use simple_cpu.Riscv.Opcode
use simple_cpu.Riscv.Machine.{next_pc}
use simple_cpu.Riscv.Execute.Transfer.{branch, execute_b}
use simple_cpu.Riscv.Generator.State.{Generator}
use simple_cpu.Riscv.Generator.Check.{is_free, check_brn_addr, decode_brn_result}
use simple_cpu.Riscv.Generator.Fields.{SFields, passed, check_b}

-- The six branches.
abbrev pub is_b_type : ℕ → Bool
is_b_type funct3 =
    funct3 == Opcode.beq
    || funct3 == Opcode.bne
    || funct3 == Opcode.blt
    || funct3 == Opcode.bltu
    || funct3 == Opcode.bge
    || funct3 == Opcode.bgeu

-- What the generator expects of a branch is what the simulator does.
pub execute_b-decode_brn_result :
    (rs1 rs2 funct3 imm : ℕ) (g : Generator)
    → is_b_type funct3 ≡ true
    → execute_b funct3 rs1 rs2 imm g.sim
      ≡ branch (not (decode_brn_result rs1 rs2 funct3 g == 0)) imm g.sim
unfolding execute_b decode_brn_result
execute_b-decode_brn_result rs1 rs2 funct3 imm g h = ground arith

target_free :
    (t : ℕ) (g : Generator)
    → (if is_free t g then t else 2 ^ 32 - 1) ≢ 2 ^ 32 - 1
    → (t ≡ (if is_free t g then t else 2 ^ 32 - 1))
      × (is_free (if is_free t g then t else 2 ^ 32 - 1) g ≡ true)
target_free t g h = elim (Bool-cases (is_free t g)) [
  | inl free ↦ rw free (refl, free)
  | inr taken ↦ absurd (h (rw taken refl))
]

check_b-taken :
    (f : SFields) (g g' : Generator)
    → (decode_brn_result f.rs1 f.rs2 f.funct3 g == 0) ≡ false
    → check_b false f g ≡ passed g'
    → (check_brn_addr f.rs1 f.imm g ≢ 2 ^ 32 - 1)
      × (g'.br_addr (g.instr_gen + 1) ≡ check_brn_addr f.rs1 f.imm g)
unfolding check_b
check_b-taken f g g' taken e = ground arith

check_brn_addr-free :
    (rs1 imm : ℕ) (g : Generator)
    → check_brn_addr rs1 imm g ≢ 2 ^ 32 - 1
    → ((branch true imm g.sim).next.pc ≡ check_brn_addr rs1 imm g)
      × (is_free (check_brn_addr rs1 imm g) g ≡ true)
unfolding check_brn_addr branch
check_brn_addr-free rs1 imm g h = target_free (branch true imm g.sim).next.pc g h

is_free_lem :
    (t : ℕ) (g : Generator)
    → is_free t g ≡ true
    → (0x2000 < t) × (t ≤ 0x3f00) × (g.pc (t - 0x2000) ≡ 0)
unfolding is_free
is_free_lem t g h = ground arith

-- Where the fields of one of the six branches pass `check_b` as random ones, the simulator either
-- goes on to the next instruction, or to a place above 0x2000 and at most 0x3f00 that `PC` does
-- not mark, which is the one entered in `br_addr`.
pub check_b-passed :
    (f : SFields) (g g' : Generator)
    → is_b_type f.funct3 ≡ true
    → check_b false f g ≡ passed g'
    → (execute_b f.funct3 f.rs1 f.rs2 f.imm g.sim ≡ next_pc g.sim)
      ⊎ ((0x2000 < (execute_b f.funct3 f.rs1 f.rs2 f.imm g.sim).next.pc)
          × ((execute_b f.funct3 f.rs1 f.rs2 f.imm g.sim).next.pc ≤ 0x3f00)
          × (g.pc ((execute_b f.funct3 f.rs1 f.rs2 f.imm g.sim).next.pc - 0x2000) ≡ 0)
          × (g'.br_addr (g.instr_gen + 1) ≡ (execute_b f.funct3 f.rs1 f.rs2 f.imm g.sim).next.pc))
unfolding check_b branch check_brn_addr
check_b-passed f g g' h e =
    let ran = execute_b-decode_brn_result f.rs1 f.rs2 f.funct3 f.imm g h in
    elim (Bool-cases (decode_brn_result f.rs1 f.rs2 f.funct3 g == 0)) [
      | inl stays ↦ inl (rw ran (rw stays refl))
      | inr taken ↦
          let (ne, found) = check_b-taken f g g' taken e in
          let (at, free) = check_brn_addr-free f.rs1 f.imm g ne in
          let (above, below, unmarked) = is_free_lem _ g free in
          inr (rw ran (rw taken (rw at (above, below, unmarked, found))))
    ]
