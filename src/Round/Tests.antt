-- ===== src/Round/Tests.antt =====
-- A round on the in-memory flash, on the operands 5 and 12 in one lane and 7 and 7 in the other.
use hsq_over_nand.Base.{
  ℕ, [], ◌∷◌, ◌^◌, ◌≡◌, ◌==◌, if◌then◌else◌, true, false, some, List, refl, inr, arith,
}
use hsq_over_nand.Nand.{stub, stub_new, stub_erase, blank}
use hsq_over_nand.Rom.{Round, Op, ram, build_netlist, round_ops}
use hsq_over_nand.Cpu.{Cpu}
use hsq_over_nand.Cpu.Page.{run_ops}
use hsq_over_nand.Cpu.Inputs.{Fresh}
use hsq_over_nand.Cpu.Round.{AreWords}
use hsq_over_nand.Cpu.Boot.{boot}
use hsq_over_nand.Cpu.StartTests.{program, fits, stub_room, stub_narrow, stub_rest}
use hsq_over_nand.Round.{Differs, round-subtracts}
use hsq_over_nand.Round.Start.{asked, boot-subtracts}

abbrev ready : Cpu stub
ready = record {
  pc = 0;
  out = λ l. 0;
  in_a = λ l. if l == 0 then 5 else 7;
  in_b = λ l. if l == 0 then 12 else 7;
  signal = false;
  is_jmp = λ l. false;
  page = blank;
  rom = blank;
  getin_cnt = 0;
  page_offset = 0;
  pre_offset = 0;
  nand_size = 2 ^ 20;
  nand = stub_new;
  mtd_data = blank;
}

ready-Fresh : Fresh stub ready
unfolding stub_new
ready-Fresh = record {
  aligned = refl;
  fits = omega arith;
  room = omega arith;
  erased = λ j lt. refl;
  clean = inr refl;
}

ready-AreWords : AreWords ready
ready-AreWords = record {
  in_a = λ l. ground arith;
  in_b = λ l. ground arith;
  out = λ l. omega arith;
}

round-subtracts_example :
    (r : Round) × (os : List Op) × (build_netlist ram ≡ some r)
    × (round_ops r ≡ some os)
    × Differs 0 ready (run_ops stub os ready)
    × Differs 1 ready (run_ops stub os ready)
    × ((run_ops stub os ready).signal ≡ true)
round-subtracts_example = round-subtracts stub ready ready-Fresh ready-AreWords

-- The operand `x` in the first lane and 7 in the others.
abbrev operands : ℕ → ℕ → ℕ
operands x l = if l == 0 then x else 7

boot-subtracts_example :
    (s : Cpu stub) × (r : Round) × (os : List Op) × (boot stub (program ∷ []) blank blank stub_new
      ≡ some s)
    × (build_netlist ram ≡ some r)
    × (round_ops r ≡ some os)
    × Differs 0
        (asked (operands 5) (operands 12) s)
        (run_ops stub os (asked (operands 5) (operands 12) s))
    × Differs 1
        (asked (operands 5) (operands 12) s)
        (run_ops stub os (asked (operands 5) (operands 12) s))
    × ((run_ops stub os (asked (operands 5) (operands 12) s)).signal ≡ true)
unfolding stub_new stub_erase
boot-subtracts_example =
    boot-subtracts stub (program ∷ []) fits stub_new stub_room stub_narrow refl stub_rest blank
      blank (operands 5) (operands 12) (λ e. refl) (λ l. ground arith) (λ l. ground arith)
