-- ===== src/Mips/Run/Keep/Immediate.antt =====
-- The cases of `execute_i` keep the state good.
use simple_cpu.Base.{
  ℕ, ◌+◌, ◌^◌, ◌<◌, arith, refl, Bool, Option, ◌>>=◌, some, u32, ◌==◌, bit_and, bit_and-lt,
  bit_or-lt, bit_xor-lt, ◌>>>◌, Bool-cases, Option-cases, inl, inr,
}
use simple_cpu.Extend.{shift_const}
use simple_cpu.Extend.Laws.{shift_const-lt, extend-lt}
use simple_cpu.Memory.Laws.{mem_read_32-lt, mem_write_32-IsBytes}
use simple_cpu.Mips.Machine.{Simulator, reg, set_reg, mem_regions, mem_read_32, mem_write_32}
use simple_cpu.Mips.Opcode
use simple_cpu.Mips.State.{IsGood}
use simple_cpu.Mips.Execute.Branch.{branch, link, execute_bvar, execute_branch}
use simple_cpu.Mips.Execute.Immediate.{immediate, finish_i, execute_immediate}
use simple_cpu.Mips.Execute.Access.{finish_store, execute_load, execute_store, execute_i}
use simple_cpu.Mips.Run.Keep.Result.{
  MaybeGood, same-IsGood, if-MaybeGood, if-IsGood, set_pc-IsGood, next_pc-IsGood, set_reg-IsGood,
  u32-lt, to_int-lt,
}

branch-IsGood : (taken : Bool) (imm : ℕ) (s : Simulator) → IsGood s → IsGood (branch taken imm s)
unfolding branch
branch-IsGood taken imm s g =
    if-IsGood taken _ _ (set_pc-IsGood _ s (u32-lt _) g) (next_pc-IsGood s g)

pub link-IsGood : (s : Simulator) → IsGood s → IsGood (link s)
unfolding link
link-IsGood s g =
    same-IsGood (set_reg 31 (u32 (s.current.pc + 4)) s) (link s) refl refl refl
      (set_reg-IsGood 31 _ s refl (u32-lt _) g)

execute_bvar-IsGood : (rs rt imm : ℕ) (s : Simulator) → IsGood s → IsGood (execute_bvar rs rt imm s)
unfolding execute_bvar
execute_bvar-IsGood rs rt imm s g =
    let b = λ (t : Bool). branch-IsGood t imm s g in
    if-IsGood (rt == Opcode.bltz) _ _ (b _) (
      if-IsGood (rt == Opcode.bgez) _ _ (b _) (
        if-IsGood (rt == Opcode.bltzal) _ _ (link-IsGood _ (b _))
          (if-IsGood (rt == Opcode.bgezal) _ _ (link-IsGood _ (b _)) g)))

finish_i-IsGood : (rt v : ℕ) (s : Simulator) → v < 2 ^ 32 → IsGood s → IsGood (finish_i rt v s)
unfolding finish_i
finish_i-IsGood rt v s h g = elim (Bool-cases (rt == 0)) [
  | inl at ↦ rw at (next_pc-IsGood s g)
  | inr off ↦ rw off (next_pc-IsGood _ (set_reg-IsGood rt v s off h g))
]

-- A load of part of a word.
load-MaybeGood :
    (a rt : ℕ) (part : ℕ → ℕ) (s : Simulator)
    → ((w : ℕ) → w < 2 ^ 32 → part w < 2 ^ 32)
    → IsGood s
    → MaybeGood (do w ← mem_read_32 s.mem a; some (finish_i rt (part w) s))
load-MaybeGood a rt part s small g = elim (Option-cases (mem_read_32 s.mem a)) [
  | inl bad ↦ rw bad tt
  | inr (w, found) ↦ rw found (
      finish_i-IsGood rt (part w) s (small w (mem_read_32-lt mem_regions s.mem a w g.bytes found))
        g)
]

finish_store-MaybeGood : (a v : ℕ) (s : Simulator) → IsGood s → MaybeGood (finish_store a v s)
unfolding finish_store
finish_store-MaybeGood a v s g = elim (Option-cases (mem_write_32 s.mem a v)) [
  | inl bad ↦ rw bad tt
  | inr (m, good) ↦ rw good (
      next_pc-IsGood (record s { mem = m })
        (record {
          old = g.old;
          new = g.new;
          bytes = mem_write_32-IsBytes mem_regions s.mem m a v g.bytes good;
        }))
]

module _ (opcode rs rt imm : ℕ) (s : Simulator) (hi : imm < 2 ^ 16) (g : IsGood s) where
  offset_word : immediate imm < 2 ^ 32
  offset_word =
      extend-lt (bit_and imm 0x8000 >>> 15) (shift_const 16) imm (shift_const-lt 16 (omega arith))
        (omega (arith, hi))

  put : (v : ℕ) → v < 2 ^ 32 → MaybeGood (some (finish_i rt v s))
  put v h = finish_i-IsGood rt v s h g

  module _ (rest : Option Simulator) (r : MaybeGood rest) where
    execute_branch-MaybeGood : MaybeGood (execute_branch opcode rs rt imm s rest)
    unfolding execute_branch
    execute_branch-MaybeGood =
        let b = λ (t : Bool). branch-IsGood t imm s g in
        if-MaybeGood (opcode == Opcode.beq) _ _ (b _) (
          if-MaybeGood (opcode == Opcode.bne) _ _ (b _) (
            if-MaybeGood (opcode == Opcode.blez) _ _ (b _)
              (if-MaybeGood (opcode == Opcode.bgtz) _ _ (b _) r)))

    execute_immediate-MaybeGood : MaybeGood (execute_immediate opcode rs rt imm s rest)
    unfolding execute_immediate
    execute_immediate-MaybeGood =
        let x = reg s rs in
        let x_word = g.old.1 rs in
        let imm_word : imm < 2 ^ 32 = omega (arith, hi) in
        if-MaybeGood (opcode == Opcode.addi) _ _ (put _ (u32-lt _)) (
          if-MaybeGood (opcode == Opcode.addiu) _ _ (put _ (u32-lt _)) (
            if-MaybeGood (opcode == Opcode.slti) _ _ (put _ (to_int-lt _)) (
              if-MaybeGood (opcode == Opcode.sltiu) _ _ (put _ (to_int-lt _)) (
                if-MaybeGood (opcode == Opcode.andi) _ _ (put _ (bit_and-lt _ x imm x_word)) (
                  if-MaybeGood (opcode == Opcode.ori) _ _
                    (put _ (bit_or-lt 32 x imm x_word imm_word))
                    (if-MaybeGood (opcode == Opcode.xori) _ _
                      (put _ (bit_xor-lt 32 x imm x_word imm_word))
                      (if-MaybeGood (opcode == Opcode.lui) _ _ (put _ (u32-lt _)) r)))))))

    execute_load-MaybeGood : MaybeGood (execute_load opcode rs rt imm s rest)
    unfolding execute_load
    execute_load-MaybeGood =
        let low = λ (m : ℕ) (w : ℕ) (h : w < 2 ^ 32). bit_and-lt (2 ^ 32) w m h in
        let signed = λ (n k m : ℕ) (small : n < 32) (w : ℕ) (h : w < 2 ^ 32).
          extend-lt (bit_and w m >>> k) (shift_const n) (bit_and w m) (shift_const-lt n small)
            (low m w h) in
        if-MaybeGood (opcode == Opcode.lb) _ _
          (load-MaybeGood _ rt _ s (signed 24 7 0xff (omega arith)) g)
          (if-MaybeGood (opcode == Opcode.lh) _ _
            (load-MaybeGood _ rt _ s (signed 16 15 0xffff (omega arith)) g)
            (if-MaybeGood (opcode == Opcode.lw) _ _ (load-MaybeGood _ rt (λ w. w) s (λ w h. h) g) (
              if-MaybeGood (opcode == Opcode.lbu) _ _ (load-MaybeGood _ rt _ s (low 0xff) g) (
                if-MaybeGood (opcode == Opcode.lhu) _ _ (load-MaybeGood _ rt _ s (low 0xffff) g)
                  r))))

    execute_store-MaybeGood : MaybeGood (execute_store opcode rs rt imm s rest)
    unfolding execute_store
    execute_store-MaybeGood =
        if-MaybeGood (opcode == Opcode.sb) _ _ (finish_store-MaybeGood _ _ s g) (
          if-MaybeGood (opcode == Opcode.sh) _ _ (finish_store-MaybeGood _ _ s g)
            (if-MaybeGood (opcode == Opcode.sw) _ _ (finish_store-MaybeGood _ _ s g) r))

  pub execute_i-MaybeGood : MaybeGood (execute_i opcode rs rt imm s)
  unfolding execute_i
  execute_i-MaybeGood = execute_branch-MaybeGood _ (
      execute_immediate-MaybeGood _ (
        execute_load-MaybeGood _ (
          execute_store-MaybeGood _
            (if-MaybeGood (opcode == Opcode.bvar) _ _ (execute_bvar-IsGood rs rt imm s g) g))))
