-- ===== src/Mips/Generator/Choices/Checks.antt =====
-- The checks in `gen_i_instr` of mips/hex_gen/src/hex_gen.c pass only fields that leave the text
-- segment alone.
use simple_cpu.Base.{
  ℕ, ◌^◌, ◌≤◌, ◌<◌, ◌≡◌, ◌≢◌, ◌⊎◌, refl, arith, Bool, true, false, ◌||◌, ◌==◌, ◌∙◌, Bool-cases, inl,
  inr, get_or,
}
use simple_cpu.Driver.{returned}
use simple_cpu.Mips.Opcode
use simple_cpu.Mips.Encode.{encode_r, encode_i, encode_j}
use simple_cpu.Mips.Run.Effect.{is_plain, is_quiet, access_address}
use simple_cpu.Mips.Generator.State.{Generator}
use simple_cpu.Mips.Generator.Check.{check_ls_addr}
use simple_cpu.Mips.Generator.Random.{
  IFields, funct_val_r_type, opcode_val_i_type, Label, Checked, passed, goto, past_end, retarget,
  check_ls, check_brn, check_i, emit_i,
}
use simple_cpu.Mips.Generator.Tame.{encode_i-IsTame, encode_sw-IsTame}
use simple_cpu.Mips.Generator.Recorded.{IsRecorded}
use simple_cpu.Mips.Generator.Invariant.{Advances, emit-Advances}

pub funct_val_r_type-is_plain : (k : ℕ) → k < 5 → is_plain (get_or funct_val_r_type k 0) ≡ true
funct_val_r_type-is_plain k h = ground arith

pub encode_r-lt : (rs rt rd shamt funct : ℕ) → encode_r rs rt rd shamt funct < 2 ^ 32
unfolding encode_r
encode_r-lt rs rt rd shamt funct = omega arith

encode_i-lt : (opcode rs rt imm : ℕ) → encode_i opcode rs rt imm < 2 ^ 32
unfolding encode_i
encode_i-lt opcode rs rt imm = omega arith

pub encode_j-lt : (opcode target : ℕ) → encode_j opcode target < 2 ^ 32
unfolding encode_j
encode_j-lt opcode target = omega arith

-- One of the opcodes that are drawn.
abbrev pub is_drawn : ℕ → Bool
is_drawn opcode = is_quiet opcode || opcode == Opcode.sw

pub opcode_val_i_type-is_drawn : (k : ℕ) → k < 8 → is_drawn (get_or opcode_val_i_type k 0) ≡ true
opcode_val_i_type-is_drawn k h = ground arith

-- Fields in range, with such an opcode.
abbrev pub InRange : IFields → Type 0
InRange f = (is_drawn f.opcode ≡ true) × (f.rs < 32) × (f.rt < 32) × (f.imm < 2 ^ 16)

pub retarget-drawn : (f : IFields) → is_drawn f.opcode ≡ true → retarget f ≡ f
unfolding retarget
retarget-drawn f h = ground arith

check_ls_addr-far :
    (rs imm : ℕ) (g : Generator)
    → check_ls_addr rs imm g ≢ 2
    → check_ls_addr rs imm g ≢ 0
    → 0x2000 ≤ access_address rs imm g.sim
unfolding check_ls_addr
check_ls_addr-far rs imm g h k = ground arith

-- What a check leaves that the fields pass.
abbrev pub Passes : IFields → Generator → IFields → Generator → Type 0
Passes f g f' g' = (f' ≡ f) × (g' ≡ record g { ls_addr = g'.ls_addr; br_addr = g'.br_addr })

check_ls-passed :
    (f f' : IFields) (g g' : Generator)
    → check_ls false f g ≡ passed f' g'
    → Passes f g f' g' × (f.opcode ≡ Opcode.sw → 0x2000 ≤ access_address f.rs f.imm g.sim)
unfolding check_ls
check_ls-passed f f' g g' e = ground (arith, check_ls_addr-far f.rs f.imm g)

check_brn-passed :
    (f f' : IFields) (g g' : Generator) → check_brn false f g ≡ passed f' g' → Passes f g f' g'
unfolding check_brn
check_brn-passed f f' g g' e = ground arith

pub goto-same :
    (f f' : IFields) (l : Label) (g : Generator)
    → check_i false f g ≡ goto l f'
    → retarget f ≡ f
    → f' ≡ f
unfolding check_i check_ls check_brn
goto-same f f' l g e same = ground arith

pub Checked-cases :
    (c : Checked)
    → ((f : IFields) × (g : Generator) × (c ≡ passed f g))
      ⊎ (((l : Label) × (f : IFields) × (c ≡ goto l f)) ⊎ (c ≡ past_end))
Checked-cases (passed f g) = inl (f, g, refl)
Checked-cases (goto l f) = inr (inl (l, f, refl))
Checked-cases past_end = inr (inr refl)

pub check_i-passed :
    (f f' : IFields) (g g' : Generator)
    → retarget f ≡ f
    → check_i false f g ≡ passed f' g'
    → Passes f g f' g' × (f.opcode ≡ Opcode.sw → 0x2000 ≤ access_address f.rs f.imm g.sim)
unfolding check_i
check_i-passed f f' g g' same e =
    let h = rw (same, check_i) at e in
    elim (Checked-cases (check_ls false f g)) [
      | inl (f1, g1, first) ↦
          let ((ef, eg), far) = check_ls-passed f f1 g g1 first in
          let (ef', eg') = check_brn-passed f1 f' g1 g' (rw (first, check_i) at h) in
          ((ef' ∙ ef, ground (arith, eg, eg')), far)
      | inr (inl (l, f1, first)) ↦ absurd (let k = rw (first, check_i) at h in cc k)
      | inr (inr first) ↦ absurd (let k = rw (first, check_i) at h in cc k)
    ]

pub emit_i-Advances :
    (f : IFields) (g g' : Generator)
    → InRange f
    → (f.opcode ≡ Opcode.sw → 0x2000 ≤ access_address f.rs f.imm g.sim)
    → IsRecorded g
    → emit_i f g ≡ returned g'
    → Advances 1 g g'
unfolding emit_i
emit_i-Advances f g g' (drawn, hs, ht, hi) far inv e =
    let w = encode_i f.opcode f.rs f.rt f.imm in
    let c = g.sim.current in
    let small = encode_i-lt f.opcode f.rs f.rt f.imm in
    elim (Bool-cases (is_quiet f.opcode)) [
      | inl quiet ↦
          emit-Advances w g g' small
            (λ _. encode_i-IsTame c inv.0.2 f.opcode f.rs f.rt f.imm hs ht hi quiet) inv e
      | inr loud ↦
          let sw : f.opcode ≡ Opcode.sw = ground (arith, drawn, loud) in
          let above = far sw in
          let tame =
            encode_sw-IsTame c inv.0.2 f.rs f.rt f.imm hs ht hi (λ s same. rw same above) in
          emit-Advances w g g' small (λ _. rw sw tame) inv e
    ]
