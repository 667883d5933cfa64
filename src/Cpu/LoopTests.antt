-- ===== src/Cpu/LoopTests.antt =====
-- A round of three instructions, on the in-memory flash.
use hsq_over_nand.Base.{
  ◌+◌, ◌*◌, ◌^◌, ◌≤◌, ◌<◌, ◌≡◌, refl, true, List, [], ◌∷◌, arith, inl, ◌==◌, if◌then◌else◌,
}
use hsq_over_nand.Nand.{stub, blank}
use hsq_over_nand.Rom.{Opcode, RomT, ram, page_siz}
use hsq_over_nand.Cpu.{Cpu}
use hsq_over_nand.Cpu.Fetch.{InFields, image}
use hsq_over_nand.Cpu.Image.{Flashed}
use hsq_over_nand.Cpu.Boot.{fresh}
use hsq_over_nand.Cpu.Wear.{Levelled}
use hsq_over_nand.Cpu.Page.{run_ops}
use hsq_over_nand.Cpu.Cycle.{IsProgram, AtInstruction, round_loop}
use hsq_over_nand.Cpu.Aside.{Follows}
use hsq_over_nand.Cpu.Loop.{listing, Ends, cleared, round_loop-runs}
use hsq_over_nand.Lane.Collect.{Each-get_elem?}

abbrev round : List RomT
round =
    record { code = Opcode.cap_in; dest = 0; from = 0; next = 8 }
    ∷ record { code = Opcode.prg_nand; dest = 0xa0000; from = 0; next = 16 }
    ∷ record { code = Opcode.raise; dest = 1; from = 0xa0003; next = 0 }
    ∷ []

abbrev started : Cpu stub
started = fresh stub (record { mem = image round; bytes = 2 ^ 20 }) blank

started-Levelled : Levelled stub started
unfolding fresh
started-Levelled = record {
  aligned = refl;
  room = omega arith;
  sized = refl;
  narrow = omega arith;
  units = refl;
  rest = refl;
}

started-Flashed : Flashed stub round started
unfolding fresh
started-Flashed = record { big = omega arith; fits = omega arith; bytes = λ a lt. refl }

started-AtInstruction : AtInstruction stub round 0 started
unfolding fresh
started-AtInstruction = record {
  at = refl;
  flashed = started-Flashed;
  levelled = started-Levelled;
  loaded = inl refl;
}

round-IsProgram : IsProgram round
round-IsProgram = record {
  fields = λ i r h.
      Each-get_elem? (λ i r. InFields r) 0 round
        (
          record { dest = omega arith; from = omega arith; next = omega arith },
          (
            record { dest = omega arith; from = omega arith; next = omega arith },
            (record { dest = omega arith; from = omega arith; next = omega arith }, tt),
          ),
        )
        i i r h (omega arith);
  follows = λ i r h.
      Each-get_elem? (λ i r. r.next ≡ 8 * (if i + 1 == 3 then 0 else i + 1)) 0 round
        (refl, (refl, (refl, tt))) i i r h (omega arith);
  in_page = λ i r h.
      Each-get_elem? (λ i r. r.code ≡ Opcode.prg_nand → (ram ≤ r.dest) × (r.dest < ram + page_siz))
        0 round ((λ e. cc), ((λ e. (omega arith, omega arith)), ((λ e. cc), tt))) i i r h
        (omega arith);
}

round-Ends : Ends round
unfolding Ends
round-Ends = ((λ e. cc e), ((λ e. cc e), (refl, refl)))

round_loop-runs_example :
    Follows stub (run_ops stub (listing round) (cleared stub started)) (round_loop stub 3 started)
    × AtInstruction stub round 0 (round_loop stub 3 started)
    × ((round_loop stub 3 started).signal ≡ true)
round_loop-runs_example =
    round_loop-runs stub round 3 started round-IsProgram round-Ends (omega arith)
      started-AtInstruction
