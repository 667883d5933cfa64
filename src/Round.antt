-- ===== src/Round.antt =====
-- A round of the machine as a whole: the netlist that src/server/ROM.cpp builds and schedules, executed by
-- the CPU of src/server/cpu.cpp, subtracts on both lanes.
mod Tests
mod Start
use hsq_over_nand.Base.{
  ℕ, ◌≡◌, ap₂, ◌∙◌, Bool, true, some, List, [], ◌∷◌, length, get_elem?, arith, subst,
}
use hsq_over_nand.Nand.{Nand}
use hsq_over_nand.Netlist.{Write, Cell}
use hsq_over_nand.Netlist.Meaning.{value, Holds, Sat, Sat-prefix}
use hsq_over_nand.Word.{word_of, sub64, is_non_positive}
use hsq_over_nand.Schedule.{cell_at}
use hsq_over_nand.Schedule.Writes.{SameWrites}
use hsq_over_nand.Schedule.Correct.{Schedules}
use hsq_over_nand.Lane.{Lane, build_lane}
use hsq_over_nand.Lane.Lookahead.{values}
use hsq_over_nand.Lane.Correct.{operand}
use hsq_over_nand.Lane.Subtraction.{build_lane-subtracts}
use hsq_over_nand.Rom.{ram, Round, Op, build_netlist, round_ops}
use hsq_over_nand.Rom.Built.{RoundBuilt, build_netlist-returns, RoundBuilt-IsRound}
use hsq_over_nand.Rom.Outputs.{round_ops-returns}
use hsq_over_nand.Cpu.{Cpu}
use hsq_over_nand.Cpu.Page.{run_ops}
use hsq_over_nand.Cpu.Step.{cell_at-eq, get_elem?-cell_at, get_elem?-lt}
use hsq_over_nand.Cpu.Inputs.{Fresh}
use hsq_over_nand.Cpu.Round.{AreWords, Reports}
use hsq_over_nand.Cpu.Computes.{round-computes}

Holds-same :
    (v : ℕ → Bool) (i : ℕ) (ws ws' : List Write) → SameWrites ws ws' → Holds v i ws → Holds v i ws'
Holds-same v i [] [] h s = tt
Holds-same v i [] (w ∷ ws) h s = absurd (omega (arith, h.many))
Holds-same v i (w ∷ ws) [] h s = tt
Holds-same v i (w ∷ ws) (w' ∷ ws') h s = s ∙ h.values v

-- The order of the writes and their steps do not matter to what a cell holds.
Schedules-Sat :
    (v : ℕ → Bool) (cells cells' : List Cell) (steps : ℕ)
    → Schedules cells cells' steps
    → Sat v cells'
    → Sat v cells
Schedules-Sat v cells cells' steps S sat i c at =
    let lt = get_elem?-lt cells i c at in
    let here = sat i _ (get_elem?-cell_at cells' i (omega (arith, S.long, lt))) in
    subst (λ (d : Cell). Holds v i d.ins) (cell_at-eq cells i c at)
      (Holds-same v i _ _ (S.same i) here)

-- What the CPU `t` reports of the lane `m` is the difference of the operands that the CPU `s` held, modulo
-- `2 ^ 64`, and whether it is zero or negative.
pub record Differs {N : Nand} (m : ℕ) (s t : Cpu N) : Type 0 where
  pub difference : t.out m ≡ sub64 (s.in_a m) (s.in_b m)
  pub jump : t.is_jmp m ≡ is_non_positive (sub64 (s.in_a m) (s.in_b m))

Reports-Differs :
    (N : Nand) (v : ℕ → Bool) (l : Lane) (m : ℕ) (s t : Cpu N)
    → Reports v l m s t
    → (let c = sub64 (operand v l.ain) (operand v l.bin) in
        (word_of (values v l.sum) 64 ≡ c) × (value v l.is_jmp ≡ is_non_positive c))
    → Differs m s t
Reports-Differs N v l m s t R (sum, jump) = record {
  difference = R.sum ∙ sum ∙ ap₂ sub64 R.operand_a R.operand_b;
  jump = R.jump ∙ jump ∙ ap₂ (λ a b. is_non_positive (sub64 a b)) R.operand_a R.operand_b;
}

-- The round that `build_round` makes for the first page behind the ROM is always built, with its netlist
-- scheduled and all its instructions; on a CPU with a fresh page these leave in `out` the difference
-- `b - a` of the operands of each lane, modulo `2 ^ 64`, in `is_jmp` whether it is zero or negative, and raise the signal.
pub round-subtracts :
    (N : Nand) (s : Cpu N)
    → Fresh N s
    → AreWords s
    → (r : Round) × (os : List Op) × (build_netlist ram ≡ some r)
      × (round_ops r ≡ some os)
      × Differs 0 s (run_ops N os s)
      × Differs 1 s (run_ops N os s)
      × ((run_ops N os s).signal ≡ true)
round-subtracts N s F W =
    let (r, built, B) = build_netlist-returns in
    let (os, made) = round_ops-returns r B in
    let (v, sat, first, second, signal) =
      round-computes N r os s (RoundBuilt-IsRound r B) made F W in
    let whole = Schedules-Sat v B.whole.cells r.cells r.steps B.schedules sat in
    let middle = Sat-prefix v B.middle.cells B.second.new (subst (Sat v) B.second.grown whole) in
    (
      r,
      os,
      built,
      made,
      Reports-Differs N v r.first 0 s (run_ops N os s) first
          (build_lane-subtracts v _ B.middle r.first B.first_built middle),
      Reports-Differs N v r.second 1 s (run_ops N os s) second
          (build_lane-subtracts v B.middle B.whole r.second B.second_built whole),
      signal,
    )
