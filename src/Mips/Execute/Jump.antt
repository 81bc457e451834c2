-- ===== src/Mips/Execute/Jump.antt =====
-- `execute_j` and `decode_j`.
use simple_cpu.Base.{ℕ, ◌+◌, u32, ◌<<<◌, ◌>>>◌, ◌==◌, if◌then◌else◌, bit_and, bit_or}
use simple_cpu.Mips.Machine.{Simulator, set_pc}
use simple_cpu.Mips.Opcode
use simple_cpu.Mips.Execute.Branch.{link}

-- The default only prints an error.
unfoldable pub execute_j : ℕ → ℕ → Simulator → Simulator
execute_j opcode target s =
    let address = bit_or (bit_and (u32 (s.current.pc + 4)) 0xf0000000) (target <<< 2) in
    if opcode == Opcode.j
    then set_pc address s
    else if opcode == Opcode.jal
    then link (set_pc address s)
    else s

unfoldable pub decode_j : ℕ → Simulator → Simulator
decode_j instr_opcode s =
    let opcode = bit_and (instr_opcode >>> 26) 0x3f in
    let address = bit_and instr_opcode 0x3ffffff in execute_j opcode address s
