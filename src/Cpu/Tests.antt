-- ===== src/Cpu/Tests.antt =====
-- A small round: two inputs and a gate `a & ~b` that is written in steps 2 and 3.
use hsq_over_nand.Base.{
  ℕ, ◌+◌, ◌≤◌, ◌≡◌, refl, Bool, true, false, some, List, [], ◌∷◌, get_elem?, ◌==◌, if◌then◌else◌,
  arith, bit_and,
}
use hsq_over_nand.Nand.{stub}
use hsq_over_nand.Netlist.{Cell}
use hsq_over_nand.Netlist.Meaning.{Sat, Holds}
use hsq_over_nand.Schedule.Valid.{Timed, IsScheduled, InPage}
use hsq_over_nand.Rom.{ram, steps_ops}
use hsq_over_nand.Cpu.{write, Cpu}
use hsq_over_nand.Lane.Collect.{Each-get_elem?}
use hsq_over_nand.Cpu.Upto.{upto}
use hsq_over_nand.Cpu.Page.{byte_of, run_ops}
use hsq_over_nand.Cpu.Program.{write_bytes, flash_at, OnFlash, run-steps_ops}

abbrev small_net : List Cell
small_net =
    record { addr = 0xa0000; ins = []; complete = 1 }
    ∷ record { addr = 0xa0001; ins = []; complete = 1 }
    ∷ record {
      addr = 0xa0002;
      ins =
          record { src = record { cell = 0; inv = false }; step = 2 }
          ∷ record { src = record { cell = 1; inv = true }; step = 3 }
          ∷ [];
      complete = 3;
    }
    ∷ []

-- `a` is 1 and `b` is 0.
abbrev small_values : ℕ → Bool
small_values i = if i == 1 then false else true

abbrev small_cpu : Cpu stub
small_cpu = record {
  pc = 0;
  out = λ i. 0;
  in_a = λ i. 0;
  in_b = λ i. 0;
  signal = false;
  is_jmp = λ i. false;
  page = λ j. if j == 1 then 0 else 0xff;
  rom = λ j. 0xff;
  getin_cnt = 2;
  page_offset = 0;
  pre_offset = 0xa0000;
  nand_size = 0x100000;
  nand = record { mem = λ a. if a == 0xa0001 then 0 else 0xff; bytes = 0x100000 };
  mtd_data = λ j. 0xff;
}

small-IsScheduled : IsScheduled small_net 3
small-IsScheduled = record {
  timed = λ i c h.
      Each-get_elem? (λ i c. Timed small_net 1 c.ins c.complete) 0 small_net (omega arith) i i c h
        (omega arith);
  bounded = λ i c h.
      Each-get_elem? (λ i c. c.complete ≤ 3) 0 small_net (omega arith) i i c h (omega arith);
}

small-InPage : InPage small_net ram
small-InPage i c h =
    Each-get_elem? (λ i c. c.addr ≡ ram + i) 0 small_net (omega arith) i i c h (omega arith)

small-Sat : Sat small_values small_net
small-Sat i c h =
    Each-get_elem? (λ i c. Holds small_values i c.ins) 0 small_net (tt, (tt, (refl, tt))) i i c h
      (omega arith)

small_held :
    (j : ℕ) (c : Cell)
    → get_elem? small_net j ≡ some c
    → small_cpu.page j ≡ byte_of (upto small_values 1 j c.ins)
small_held j c h =
    Each-get_elem? (λ j c. small_cpu.page j ≡ byte_of (upto small_values 1 j c.ins)) 0 small_net
      (refl, (refl, (refl, tt))) j j c h (omega arith)

small_stored :
    (j : ℕ) (c : Cell)
    → get_elem? small_net j ≡ some c
    → flash_at stub small_cpu j ≡ byte_of (upto small_values 1 j c.ins)
small_stored j c h =
    Each-get_elem? (λ j c. flash_at stub small_cpu j ≡ byte_of (upto small_values 1 j c.ins)) 0
      small_net (refl, (refl, (refl, tt))) j j c h (omega arith)

small-OnFlash : OnFlash stub small_net small_values 1 small_cpu
small-OnFlash = record {
  at_page = omega arith;
  room = omega arith;
  held = small_held;
  stored = small_stored;
}

run-steps_ops_example :
    OnFlash stub small_net small_values
      (1 + 2)
      (run_ops stub (steps_ops small_net ram 2 2) small_cpu)
run-steps_ops_example =
    run-steps_ops stub small_net small_values 3 small-IsScheduled (omega arith) small-InPage
      small-Sat 2 1 small_cpu small-OnFlash

write_bytes_example :
    ((write stub ram small_cpu).page 1 ≡ bit_and 0 0)
    × (stub.contents (write stub ram small_cpu).nand (ram + 0 + 1) ≡ bit_and 0 0)
write_bytes_example = write_bytes stub small_cpu 1 (omega arith) (omega arith) (omega arith)
