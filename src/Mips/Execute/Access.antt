-- ===== src/Mips/Execute/Access.antt =====
-- The loads and stores of `execute_i`, `execute_i` itself and `decode_i`.
use simple_cpu.Base.{ℕ, ◌+◌, Option, some, ◌>>=◌, u32, ◌>>>◌, ◌==◌, if◌then◌else◌, bit_and}
use simple_cpu.Extend.{shift_const, extend}
use simple_cpu.Mips.Machine.{Simulator, reg, next_pc, mem_read_32, mem_write_32}
use simple_cpu.Mips.Opcode
use simple_cpu.Mips.Execute.Branch.{execute_branch, execute_bvar}
use simple_cpu.Mips.Execute.Immediate.{immediate, finish_i, execute_immediate}

-- A store leaves `NEXT_STATE.REGS` alone.
unfoldable pub finish_store : ℕ → ℕ → Simulator → Option Simulator
finish_store address v s = do
  mem ← mem_write_32 s.mem address v
  some (next_pc (record s { mem = mem }))

-- A load reads the memory before it tests `rt`.
unfoldable pub execute_load : ℕ → ℕ → ℕ → ℕ → Simulator → Option Simulator → Option Simulator
execute_load opcode rs rt imm s done =
    let address = u32 (reg s rs + immediate imm) in
    let aligned = bit_and address 0xfffffffc in
    if opcode == Opcode.lb
    then (do
      w ← mem_read_32 s.mem address
      let mem_content = bit_and w 0xff
      some (finish_i rt (extend (mem_content >>> 7) (shift_const 24) mem_content) s))
    else if opcode == Opcode.lh
    then (do
      w ← mem_read_32 s.mem address
      let mem_content = bit_and w 0xffff
      some (finish_i rt (extend (mem_content >>> 15) (shift_const 16) mem_content) s))
    else if opcode == Opcode.lw
    then (do w ← mem_read_32 s.mem aligned; some (finish_i rt w s))
    else if opcode == Opcode.lbu
    then (do w ← mem_read_32 s.mem address; some (finish_i rt (bit_and w 0xff) s))
    else if opcode == Opcode.lhu
    then (do w ← mem_read_32 s.mem address; some (finish_i rt (bit_and w 0xffff) s))
    else done

-- A store takes the word from `NEXT_STATE`.
unfoldable pub execute_store : ℕ → ℕ → ℕ → ℕ → Simulator → Option Simulator → Option Simulator
execute_store opcode rs rt imm s done =
    let address = u32 (reg s rs + immediate imm) in
    let y = s.next.regs rt in
    if opcode == Opcode.sb
    then finish_store address (bit_and y 0xff) s
    else if opcode == Opcode.sh
    then finish_store address (bit_and y 0xffff) s
    else if opcode == Opcode.sw
    then finish_store (bit_and address 0xfffffffc) y s
    else done

-- The `switch`; the default only prints an error.
unfoldable pub execute_i : ℕ → ℕ → ℕ → ℕ → Simulator → Option Simulator
execute_i opcode rs rt imm s = execute_branch opcode rs rt imm s (
    execute_immediate opcode rs rt imm s (
      execute_load opcode rs rt imm s (
        execute_store opcode rs rt imm s
          (if opcode == Opcode.bvar then some (execute_bvar rs rt imm s) else some s))))

unfoldable pub decode_i : ℕ → Simulator → Option Simulator
decode_i instr_opcode s =
    let opcode = bit_and (instr_opcode >>> 26) 0x3f in
    let rs = bit_and (instr_opcode >>> 21) 0x1f in
    let rt = bit_and (instr_opcode >>> 16) 0x1f in
    let imm = bit_and instr_opcode 0xffff in execute_i opcode rs rt imm s
