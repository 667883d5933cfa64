-- ===== src/Rom/Tests.antt =====
-- Two instructions as a program.
use hsq_over_nand.Base.{refl, List, [], ◌∷◌, arith}
use hsq_over_nand.Cpu.Cycle.{IsProgram}
use hsq_over_nand.Rom.{Opcode, Op, op, ram, push_ops, restart}
use hsq_over_nand.Rom.Program.{FirstPage, restart-IsProgram}

abbrev two_ops : List Op
two_ops = op Opcode.cap_in 0 0 ∷ op Opcode.prg_nand ram 0 ∷ []

two_ops-FirstPage : FirstPage two_ops
unfolding FirstPage
two_ops-FirstPage = ((λ e. cc e), ((λ e. refl), tt))

restart-IsProgram_example : IsProgram (restart (push_ops 0 two_ops))
restart-IsProgram_example = restart-IsProgram two_ops (omega arith) two_ops-FirstPage
