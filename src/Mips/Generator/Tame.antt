-- ===== src/Mips/Generator/Tame.antt =====
-- What the words that mips/hex_gen/src/hex_gen.c generates do to the simulator's text segment.
use simple_cpu.Base.{
  ℕ, ◌+◌, ◌%◌, ◌^◌, ◌≤◌, ◌<◌, ◌≡◌, ◌≢◌, refl, arith, true, false, some, >>=-eq-some, sym, ap, ◌∙◌,
}
use mathlib.Core.Option.{some-injective}
use simple_cpu.Memory.{locate, in_region}
use simple_cpu.Memory.Laws.{IsBytes, IsMapped, mem_write_32-IsBytes, read-write, read-write-Apart}
use simple_cpu.Mips.Machine.{Simulator, CpuState, mem_regions, mem_read_32, mem_write_32}
use simple_cpu.Mips.Opcode
use simple_cpu.Mips.Encode.{encode_r, encode_i, encode_j}
use simple_cpu.Mips.Fields.{dispatch-encode_r, dispatch-encode_i, dispatch-encode_j}
use simple_cpu.Mips.Run.{decode_instr_type, dispatch, process_instruction, cycle}
use simple_cpu.Mips.Run.Cycle.{cycle-frame}
use simple_cpu.Mips.Run.Effect.{
  KeepsText, KeepsMem-KeepsText, is_plain, is_quiet, access_address, execute_r-KeepsMem,
  execute_i-KeepsMem, execute_sw-KeepsText, execute_j-KeepsText,
}
use simple_cpu.Mips.Loader.{load_instr_opcode}

-- The word, executed with the processor in this state, keeps the text segment.
abbrev pub IsTame : ℕ → CpuState → Type 0
IsTame w c =
    (t d : Simulator)
    → t.current ≡ c
    → IsBytes t.mem
    → dispatch (decode_instr_type w) w t ≡ some d
    → KeepsText t d

module _ (c : CpuState) (al : c.pc % 4 ≡ 0) where
  aligned : (t : Simulator) → t.current ≡ c → t.current.pc % 4 ≡ 0
  aligned t same = rw same al

  pub encode_r-IsTame :
      (rs rt rd shamt funct : ℕ)
      → rs < 32
      → rt < 32
      → rd < 32
      → shamt < 32
      → is_plain funct ≡ true
      → IsTame (encode_r rs rt rd shamt funct) c
  encode_r-IsTame rs rt rd shamt funct hs ht hd ha plain t d same w e =
      let run = sym (dispatch-encode_r rs rt rd shamt funct t hs ht hd ha (ground arith)) ∙ e in
      KeepsMem-KeepsText t d
        (execute_r-KeepsMem rs rt rd shamt funct t d plain (aligned t same) run)

  pub encode_i-IsTame :
      (opcode rs rt imm : ℕ)
      → rs < 32
      → rt < 32
      → imm < 2 ^ 16
      → is_quiet opcode ≡ true
      → IsTame (encode_i opcode rs rt imm) c
  encode_i-IsTame opcode rs rt imm hs ht hi quiet t d same w e =
      let run =
        sym (
          dispatch-encode_i opcode rs rt imm t (ground arith) (ground arith) (ground arith)
            (ground arith) hs ht hi)
        ∙ e in
      KeepsMem-KeepsText t d (execute_i-KeepsMem opcode rs rt imm t d quiet hi (aligned t same) run)

  pub encode_sw-IsTame :
      (rs rt imm : ℕ)
      → rs < 32
      → rt < 32
      → imm < 2 ^ 16
      → ((s : Simulator) → s.current ≡ c → 0x2000 ≤ access_address rs imm s)
      → IsTame (encode_i Opcode.sw rs rt imm) c
  encode_sw-IsTame rs rt imm hs ht hi far t d same w e =
      let run =
        sym (
          dispatch-encode_i Opcode.sw rs rt imm t (omega arith) (omega arith) (omega arith)
            (omega arith) hs ht hi)
        ∙ e in
      execute_sw-KeepsText rs rt imm t d w (far t same) (aligned t same) run

  pub encode_j-IsTame :
      (target : ℕ) → target < 2 ^ 26 → c.pc + 4 < 2 ^ 32 → IsTame (encode_j Opcode.j target) c
  encode_j-IsTame target h g t d same w e =
      let run = sym (dispatch-encode_j Opcode.j target t refl h) ∙ e in
      let kept = execute_j-KeepsText Opcode.j target t refl h (rw same g) in
      let done = some-injective _ _ run in rw (sym done) kept

-- What a cycle does that fetches a tame word.
cycle-KeepsText :
    (s s' : Simulator) (w : ℕ)
    → mem_read_32 s.mem s.current.pc ≡ some w
    → IsBytes s.mem
    → IsTame w s.current
    → cycle s ≡ some s'
    → (s'.current.pc % 4 ≡ 0)
      × IsBytes s'.mem
      × ((b : ℕ) → b < 0x2000 → b % 4 ≡ 0 → mem_read_32 s'.mem b ≡ mem_read_32 s.mem b)
unfolding cycle process_instruction
cycle-KeepsText s s' w f bytes tame e =
    let (p, pe, re) = >>=-eq-some (process_instruction s) _ e in
    let (v, ve, de) = >>=-eq-some (mem_read_32 s.mem s.current.pc) _ pe in
    let same : w ≡ v = some-injective _ _ (sym f ∙ ve) in
    let start = record s { rt_as_src = false; wr_link_reg = false; instr_opcode = v } in
    let (d, dd, fe) = >>=-eq-some (dispatch (decode_instr_type v) v start) _ de in
    let (al, kept, text) = tame start d refl bytes (rw same dd) in
    let first = some-injective _ _ fe in
    let second = some-injective _ _ re in rw (sym second) (rw (sym first) (al, kept bytes, text))

pub text-IsMapped : (a : ℕ) → a < 0x2000 → a % 4 ≡ 0 → IsMapped mem_regions a
unfolding locate in_region
text-IsMapped a h al e = ground arith

-- `load_instr_opcode` and one cycle.
pub placed :
    (w : ℕ) (s t s' : Simulator)
    → s.current.pc < 0x2000
    → s.current.pc % 4 ≡ 0
    → IsBytes s.mem
    → w < 2 ^ 32
    → IsTame w s.current
    → load_instr_opcode w s ≡ some t
    → cycle t ≡ some s'
    → (s'.current.pc % 4 ≡ 0)
      × (s'.prev_pc ≡ s.prev_pc)
      × IsBytes s'.mem
      × (mem_read_32 s'.mem s.current.pc ≡ some w)
      × ((b : ℕ)
          → b < 0x2000
          → b % 4 ≡ 0
          → b ≢ s.current.pc
          → mem_read_32 s'.mem b ≡ mem_read_32 s.mem b)
unfolding load_instr_opcode
placed w s t s' h al bytes small tame le e =
    let a = s.current.pc in
    let (m, me, re) = >>=-eq-some (mem_write_32 s.mem a w) _ le in
    let t' = record s { mem = m } in
    let same : t ≡ t' = sym (some-injective _ _ re) in
    let ce : cycle t' ≡ some s' = ap cycle (sym same) ∙ e in
    let here = read-write mem_regions s.mem m a w bytes me small (text-IsMapped a h al) in
    let bytes' = mem_write_32-IsBytes mem_regions s.mem m a w bytes me in
    let (al', kept, text) = cycle-KeepsText t' s' w here bytes' tame ce in
    let (_, _, _, prev, _, _) = cycle-frame t' s' w here ce in
    (
      al',
      prev,
      kept,
      text a h al ∙ here,
      λ b hb ab other.
          text b hb ab ∙ read-write-Apart mem_regions s.mem m a w bytes me b (ground arith),
    )
