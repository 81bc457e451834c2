-- ===== src/Riscv/Run/Cycle.antt =====
-- One cycle, whatever the word fetched: the invariant, the counters and `RUN_BIT`.
use simple_cpu.Base.{
  ℕ, ◌+◌, ◌%◌, ◌^◌, ◌≡◌, ◌≢◌, refl, arith, Bool, true, false, ◌&&◌, ◌||◌, some, ◌==◌, u32,
  bit_and_mask, inl, inr, ◌⊎◌, >>=-eq-some, ap, sym, ◌∙◌,
}
use mathlib.Core.Option.{some-injective}
use simple_cpu.Riscv.Machine.{Simulator, mem_read_32}
use simple_cpu.Riscv.State.{IsGood, IsReady}
use simple_cpu.Riscv.Run.{no_type, decode_instr_type, dispatch, process_instruction, cycle}
use simple_cpu.Riscv.Run.Keep.{dispatch-MaybeGood}
use simple_cpu.Riscv.Run.Keep.Result.{MaybeGood}
use simple_cpu.Riscv.Run.Frame.{dispatch-SameRest, SameRest}

-- The opcodes that have a type, in the low seven bits of a word.
abbrev pub is_known : ℕ → Bool
is_known w =
    let opcode = w % 2 ^ 7 in
    opcode == 0x33
    || opcode == 0x13
    || opcode == 0x03
    || opcode == 0x23
    || opcode == 0x63
    || opcode == 0x27
    || opcode == 0x37
    || opcode == 0x6f

decode_instr_type_lem :
    (w : ℕ) (s : Simulator)
    → ((is_known w ≡ true)
        × ((decode_instr_type w s).0 ≢ no_type)
        × ((decode_instr_type w s).1 ≡ s))
      ⊎ ((is_known w ≡ false) × (decode_instr_type w s ≡ (no_type, record s { run_bit = false })))
unfolding decode_instr_type
decode_instr_type_lem w s = ground (arith, bit_and_mask 7 w)

-- What a cycle consists of.
record CycleOf (s s' : Simulator) : Type 0 where
  word : ℕ
  fetch : mem_read_32 s.mem s.current.pc ≡ some word
  done : Simulator
  ran :
      dispatch
        (decode_instr_type word (record s { instr_opcode = word })).0
        word
        (decode_instr_type word (record s { instr_opcode = word })).1
      ≡ some done
  result : s' ≡ record done {
    current = done.next;
    instr_count = u32 (done.instr_count + 1);
    instruction_count = u32 (done.instruction_count + 1);
  }

cycle-CycleOf : (s s' : Simulator) → cycle s ≡ some s' → CycleOf s s'
unfolding cycle process_instruction
cycle-CycleOf s s' e =
    let (p, pe, re) = >>=-eq-some (process_instruction s) _ e in
    let (w, we, de) = >>=-eq-some (mem_read_32 s.mem s.current.pc) _ pe in
    let (d, dd, fe) =
      >>=-eq-some
        (dispatch (decode_instr_type w (record s { instr_opcode = w })).0 w
          (decode_instr_type w (record s { instr_opcode = w })).1)
        _ de in
    record { word = w; fetch = we; done = d; ran = dd; result = ground arith }

-- The state in which the word is executed, if its opcode is known and if it is not.
started :
    (w : ℕ) (s : Simulator)
    → IsGood s
    → IsGood (decode_instr_type w (record s { instr_opcode = w })).1
unfolding decode_instr_type
started w s g = elim (decode_instr_type_lem w (record s { instr_opcode = w })) [
  | inl known ↦ rw known.2 (record { old = g.old; new = g.new; bytes = g.bytes })
  | inr unknown ↦ rw unknown.1 (record { old = g.old; new = g.new; bytes = g.bytes })
]

-- A cycle that succeeds keeps the invariant, whatever word it fetches: `NEXT_STATE` equals
-- `CURRENT_STATE`, register 0 is 0, the program counter and the registers are words, and the
-- memory holds bytes.
pub cycle-IsReady : (s s' : Simulator) → IsReady s → cycle s ≡ some s' → IsReady s'
cycle-IsReady s s' r e =
    let c = cycle-CycleOf s s' e in
    let good : IsGood s = record { old = r.state; new = rw r.synced r.state; bytes = r.bytes } in
    let done_good : MaybeGood (some c.done) = rw c.ran at (
      dispatch-MaybeGood (decode_instr_type c.word (record s { instr_opcode = c.word })).0 c.word
        (decode_instr_type c.word (record s { instr_opcode = c.word })).1
        (started c.word s good)) in
    rw c.result (record { synced = refl; state = done_good.new; bytes = done_good.bytes })

abbrev Rest : ℕ → Simulator → Simulator → Type 0
Rest w s d =
    (d.run_bit ≡ (s.run_bit && is_known w))
    × (d.instr_opcode ≡ w)
    × (d.prev_pc ≡ s.prev_pc)
    × (d.instr_count ≡ s.instr_count)
    × (d.instruction_count ≡ s.instruction_count)

Rest-known :
    (w : ℕ) (s d : Simulator)
    → is_known w ≡ true
    → SameRest (record s { instr_opcode = w }) d
    → Rest w s d
Rest-known w s d k h = rw k (ground arith, h.5, h.2, h.3, h.4)

dispatch-Rest :
    (w : ℕ) (s d : Simulator)
    → dispatch
        (decode_instr_type w (record s { instr_opcode = w })).0
        w
        (decode_instr_type w (record s { instr_opcode = w })).1
      ≡ some d
    → Rest w s d
dispatch-Rest w s d e = elim (decode_instr_type_lem w (record s { instr_opcode = w })) [
  | inl known ↦ Rest-known w s d known.0 (dispatch-SameRest _ w _ d known.1 (rw known.2 at e))
  | inr unknown ↦ let stopped = rw unknown.1 at e in unfold dispatch in rw unknown.0 (ground arith)
]

-- What a cycle that fetches the word w and succeeds does to the state beside the processor and
-- the memory: it records w, counts it in both counters, keeps `prev_pc`, and clears `RUN_BIT`
-- exactly when the opcode of w has no type.
pub cycle-rest :
    (s s' : Simulator) (w : ℕ)
    → mem_read_32 s.mem s.current.pc ≡ some w
    → cycle s ≡ some s'
    → (s'.run_bit ≡ (s.run_bit && is_known w))
      × (s'.instr_opcode ≡ w)
      × (s'.prev_pc ≡ s.prev_pc)
      × (s'.instr_count ≡ u32 (s.instr_count + 1))
      × (s'.instruction_count ≡ u32 (s.instruction_count + 1))
cycle-rest s s' w f e =
    let c = cycle-CycleOf s s' e in
    let same : c.word ≡ w = some-injective _ _ (sym c.fetch ∙ f) in
    let rest = rw same at (dispatch-Rest c.word s c.done c.ran) in
    rw c.result (
      rest.0,
      rest.1,
      rest.2,
      ap (λ (n : ℕ). u32 (n + 1)) rest.3,
      ap (λ (n : ℕ). u32 (n + 1)) rest.4,
    )

-- A cycle that succeeds has fetched a word.
pub cycle-fetch :
    (s s' : Simulator) → cycle s ≡ some s' → (w : ℕ) × (mem_read_32 s.mem s.current.pc ≡ some w)
cycle-fetch s s' e = let c = cycle-CycleOf s s' e in (c.word, c.fetch)
