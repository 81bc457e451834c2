-- ===== src/Mips/Fields/Formats.antt =====
-- The three formats of instruction words together: what mips/hex_gen/src/hex_gen.c puts together, and
-- what the dispatch of mips/iss/src/sim.c makes of it.
use simple_cpu.Base.{ℕ, ◌^◌, ◌<◌, ◌≡◌, ◌≢◌, true, Option, some, ◌==◌, ◌||◌}
use simple_cpu.Mips.Machine.{Simulator}
use simple_cpu.Mips.Encode.{encode_r, encode_i, encode_j}
use simple_cpu.Mips.Execute.Register.{execute_r}
use simple_cpu.Mips.Execute.Access.{execute_i}
use simple_cpu.Mips.Execute.Jump.{execute_j}
use simple_cpu.Mips.Run.{decode_instr_type, dispatch}
use simple_cpu.Mips.Fields.{dispatch-encode_r, dispatch-encode_i, dispatch-encode_j}

-- The fields in the order of the generator's assignments.
pub data Format : Type 0 where
  r_format : (rs rt rd shamt funct : ℕ) → Format
  i_format : (opcode rs rt imm : ℕ) → Format
  j_format : (opcode target : ℕ) → Format

abbrev pub assemble : Format → ℕ
assemble (r_format rs rt rd shamt funct) = encode_r rs rt rd shamt funct
assemble (i_format opcode rs rt imm) = encode_i opcode rs rt imm
assemble (j_format opcode target) = encode_j opcode target

abbrev pub execute : Format → Simulator → Option Simulator
execute (r_format rs rt rd shamt funct) s = execute_r rs rt rd shamt funct s
execute (i_format opcode rs rt imm) s = execute_i opcode rs rt imm s
execute (j_format opcode target) s = some (execute_j opcode target s)

-- Each field fits its place, and the opcode is one of the type.
abbrev pub InRange : Format → Type 0
InRange (r_format rs rt rd shamt funct) =
    (rs < 32) × (rt < 32) × (rd < 32) × (shamt < 32) × (funct < 64)
InRange (i_format opcode rs rt imm) =
    (opcode ≢ 0)
    × (opcode ≢ 2)
    × (opcode ≢ 3)
    × (opcode < 64)
    × (rs < 32)
    × (rt < 32)
    × (imm < 2 ^ 16)
InRange (j_format opcode target) = ((opcode == 2 || opcode == 3) ≡ true) × (target < 2 ^ 26)

-- A word that the generator puts together in any of the three formats, from fields in range (the
-- opcode of I not 0, 2 or 3, that of J 2 or 3), is dispatched by its opcode and executed with the
-- same fields.
pub dispatch-execute :
    (x : Format) (s : Simulator)
    → InRange x
    → dispatch (decode_instr_type (assemble x)) (assemble x) s ≡ execute x s
dispatch-execute (r_format rs rt rd shamt funct) s (hs, ht, hd, ha, hf) =
    dispatch-encode_r rs rt rd shamt funct s hs ht hd ha hf
dispatch-execute (i_format opcode rs rt imm) s (n0, n2, n3, ho, hs, ht, hi) =
    dispatch-encode_i opcode rs rt imm s n0 n2 n3 ho hs ht hi
dispatch-execute (j_format opcode target) s (jump, h) = dispatch-encode_j opcode target s jump h
