-- ===== src/Mips/Generator/Print.antt =====
-- `print_to_file` of mips/hex_gen/src/hex_gen.c: the numbers in the two files.
use simple_cpu.Base.{ℕ, List}
use simple_cpu.HexGen.{printed, print_rounds}
use simple_cpu.Mips.Machine.{mem_text_start}
use simple_cpu.Mips.Generator.State.{Generator}

unfoldable pub print_to_file : Generator → List ℕ × List ℕ
print_to_file g = printed mem_text_start print_rounds 0 g.pc g.instr
