-- ===== src/Mips/Generator/EndSeq/Words.antt =====
-- The two instructions of `gen_end_seq` of mips/hex_gen/src/hex_gen.c on the simulator.
use simple_cpu.Base.{◌+◌, ◌%◌, ◌<◌, ◌≡◌, refl, arith, false, some, u32, sym, ap, ◌∙◌, >>=-eq-some}
use mathlib.Core.Option.{some-injective}
use simple_cpu.Driver.{returned}
use simple_cpu.Memory.Laws.{IsBytes, read-write}
use simple_cpu.Mips.Opcode
use simple_cpu.Mips.Machine.{Simulator, CpuState, mem_read_32, mem_write_32, mem_regions}
use simple_cpu.Mips.Encode.{encode_r, encode_i}
use simple_cpu.Mips.Fields.{dispatch-encode_r, dispatch-encode_i}
use simple_cpu.Mips.Execute.Special.{execute_special}
use simple_cpu.Mips.Execute.Register.{execute_shift, execute_alu, execute_r}
use simple_cpu.Mips.Execute.Branch.{execute_branch}
use simple_cpu.Mips.Execute.Immediate.{finish_i, execute_immediate}
use simple_cpu.Mips.Execute.Access.{execute_i}
use simple_cpu.Mips.Run.{decode_instr_type, dispatch, process_instruction, cycle}
use simple_cpu.Mips.Loader.{load_instr_opcode}
use simple_cpu.Mips.Generator.State.{Generator}
use simple_cpu.Mips.Generator.Emit.{execute}
use simple_cpu.Mips.Generator.Tame.{IsTame, text-IsMapped}
use simple_cpu.Mips.Generator.Recorded.{execute-step}

encode_r_exit : encode_r 0 0 0 0 0xc ≡ 0xc
unfolding encode_r
encode_r_exit = refl

pub encode_i_ten : encode_i Opcode.addi 0 2 0xa ≡ 0x2002000a
unfolding encode_i
encode_i_ten = refl

execute_r-exit :
    (s d : Simulator)
    → execute_r 0 0 0 0 0xc s ≡ some d
    → (d.mem ≡ s.mem) × (d.next.pc ≡ u32 (s.current.pc + 4))
unfolding execute_r execute_shift execute_alu execute_special
execute_r-exit s d e = ground (arith, e)

exit_word-IsTame : (c : CpuState) → c.pc % 4 ≡ 0 → IsTame (encode_r 0 0 0 0 0xc) c
exit_word-IsTame c al t d same w e =
    let jumps =
      dispatch-encode_r 0 0 0 0 0xc t (omega arith) (omega arith) (omega arith) (omega arith)
        (omega arith) in
    let (mem, next) = execute_r-exit t d (sym jumps ∙ e) in
    let even : t.current.pc % 4 ≡ 0 = rw same al in
    (omega (arith, next, even), λ b. rw mem b, λ b h g. rw mem refl)

pub exit-IsTame : (c : CpuState) → c.pc % 4 ≡ 0 → IsTame 0xc c
exit-IsTame c al = rw encode_r_exit at (exit_word-IsTame c al)

dispatch-ten :
    (s : Simulator)
    → dispatch (decode_instr_type 0x2002000a) 0x2002000a s ≡ execute_i Opcode.addi 0 2 0xa s
dispatch-ten s = rw encode_i_ten at (
    dispatch-encode_i Opcode.addi 0 2 0xa s (λ e. omega (arith, e)) (λ e. omega (arith, e))
      (λ e. omega (arith, e)) (omega arith) (omega arith) (omega arith) (omega arith))

execute_i-ten :
    (s d : Simulator)
    → execute_i Opcode.addi 0 2 0xa s ≡ some d
    → d.next.pc ≡ u32 (s.current.pc + 4)
unfolding execute_i execute_branch execute_immediate finish_i
execute_i-ten s d e = ground (arith, e)

-- The instruction that puts 10 into register 2 moves on.
cycle-ten :
    (s s' : Simulator)
    → mem_read_32 s.mem s.current.pc ≡ some 0x2002000a
    → cycle s ≡ some s'
    → s'.current.pc ≡ u32 (s.current.pc + 4)
unfolding cycle process_instruction
cycle-ten s s' f e =
    let (p, pe, re) = >>=-eq-some (process_instruction s) _ e in
    let (v, ve, de) = >>=-eq-some (mem_read_32 s.mem s.current.pc) _ pe in
    let same : 0x2002000a ≡ v = some-injective _ _ (sym f ∙ ve) in
    let start = record s { rt_as_src = false; wr_link_reg = false; instr_opcode = v } in
    let (d, dd, fe) = >>=-eq-some (dispatch (decode_instr_type v) v start) _ de in
    let runs = dispatch-ten start in
    let moved = execute_i-ten start d (sym (rw same at runs) ∙ dd) in
    let first = some-injective _ _ fe in
    let second = some-injective _ _ re in rw (sym second) (rw (sym first) moved)

pub execute-ten :
    (g g' : Generator)
    → IsBytes g.sim.mem
    → g.sim.current.pc < 0x2000
    → g.sim.current.pc % 4 ≡ 0
    → execute 0x2002000a g ≡ returned g'
    → g'.sim.current.pc ≡ u32 (g.sim.current.pc + 4)
unfolding load_instr_opcode
execute-ten g g' bytes low al e =
    let (t, s, le, ce, ge, _) = execute-step 0x2002000a g g' e in
    let a = g.sim.current.pc in
    let (m, me, re) = >>=-eq-some (mem_write_32 g.sim.mem a 0x2002000a) _ le in
    let t' = let s0 = g.sim in record s0 { mem = m } in
    let same : t ≡ t' = sym (some-injective _ _ re) in
    let here =
      read-write mem_regions g.sim.mem m a 0x2002000a bytes me (omega arith)
        (text-IsMapped a low al) in
    rw ge (cycle-ten t' s here (ap cycle (sym same) ∙ ce))
