-- ===== src/Cpu/Settled.antt =====
-- A round on the CPU of src/server/cpu.cpp up to the last step of the netlist: the operands are programmed, and
-- then every cell has its value.
use hsq_over_nand.Base.{
  ℕ, ◌+◌, ◌-◌, ◌<◌, ◌≡◌, refl, sym, ap, ap₂, ◌∙◌, Bool, true, false, some, List, [], ◌∷◌, ◌++◌,
  length, get_elem?, arith, bit_and,
}
use hsq_over_nand.Nand.{Nand, Buffer}
use hsq_over_nand.Netlist.{Write, Cell}
use hsq_over_nand.Schedule.{cell_at}
use hsq_over_nand.Schedule.Valid.{Timed}
use hsq_over_nand.Lane.{digit}
use hsq_over_nand.Rom.{Opcode, op, ram, page_siz, get_in_ops, steps_ops, Round, program_ops}
use hsq_over_nand.Cpu.{Cpu, write, dispatch}
use hsq_over_nand.Cpu.Page.{byte_of, run_ops, run_ops-append}
use hsq_over_nand.Cpu.Step.{get_elem?-lt, get_elem?-cell_at, cell_at-eq}
use hsq_over_nand.Cpu.Upto.{upto, upto-settled, and_upto-past}
use hsq_over_nand.Cpu.Program.{
  HasRoom, flash_at, write_bytes, write-AtPage, write-HasRoom, write-page_offset, dispatch-prg_nand,
  OnFlash, run-steps_ops,
}
use hsq_over_nand.Cpu.Load.{Inside}
use hsq_over_nand.Cpu.Operands.{Rising-le}
use hsq_over_nand.Cpu.Inputs.{Fresh, Entered, input_ops, run-input_ops}
use hsq_over_nand.Cpu.Silent.{steps_ops-out}
use hsq_over_nand.Cpu.Round.{
  IsRound, AreWords, Reads-Inside, page_in, page_in-IsBits, page_in-gate, Fits,
}

and_blank : (x : Bool) → bit_and 0xff (byte_of x) ≡ byte_of x
and_blank true = refl
and_blank false = refl

module _ (N : Nand) (r : Round) (R : IsRound r) (s : Cpu N) (F : Fresh N s) (W : AreWords s)
    (v : ℕ → Bool) (V : Fits r R (s.in_a 0) (s.in_b 0) (s.in_a 1) (s.in_b 1) v) where
  -- The page after the GET_INs.
  abbrev pub shown : Buffer
  shown = page_in r R (s.in_a 0) (s.in_b 0) (s.in_a 1) (s.in_b 1)

  first-Inside : Inside r.cells r.first
  first-Inside =
      Reads-Inside r.cells r.first 0 R.middle R.first_inputs
        (Rising-le r.second R.middle (length r.cells) 0 digit R.second_inputs.rising)

  second-Inside : Inside r.cells r.second
  second-Inside =
      Reads-Inside r.cells r.second R.middle (length r.cells) R.second_inputs (omega arith)

  abbrev pub entered : Cpu N
  entered =
      run_ops N (op Opcode.cap_in 0 0 ∷ input_ops N r.cells R.small R.in_page r.first r.second) s

  entered-Entered : Entered N r.cells R.small R.in_page r.first r.second s entered
  entered-Entered =
      run-input_ops N r.cells R.small R.in_page r.first r.second s F first-Inside second-Inside

  -- What a cell shows before the first gate is programmed.
  shown-upto :
      (j : ℕ) (c : Cell) → get_elem? r.cells j ≡ some c → shown j ≡ byte_of (upto v 1 j c.ins)
  shown-upto j c at =
      go c.ins (ap (λ (d : Cell). d.ins) (cell_at-eq r.cells j c at)) (R.scheduled.timed j c at)
    where
      go :
          (ws : List Write)
          → (cell_at r.cells j).ins ≡ ws
          → Timed r.cells 1 ws c.complete
          → shown j ≡ byte_of (upto v 1 j ws)
      go [] e t =
          page_in-IsBits r R (s.in_a 0) (s.in_b 0) (s.in_a 1) (s.in_b 1) j
          ∙ ap byte_of (sym (V.inputs j e))
      go (w ∷ ws) e t =
          page_in-gate r R (s.in_a 0) (s.in_b 0) (s.in_a 1) (s.in_b 1) j w ws e
          ∙ ap byte_of (sym (and_upto-past r.cells v 1 (w ∷ ws) 1 c.complete t (omega arith)))

  -- The first PRG_NAND programs the operands.
  entered-OnFlash : OnFlash N r.cells v 1 (write N ram entered)
  entered-OnFlash =
      let E = entered-Entered in
      let room : HasRoom N entered = omega (arith, F.room, E.page_offset, ap N.size E.nand) in
      let bytes = λ (j : ℕ) (c : Cell) (at : get_elem? r.cells j ≡ some c).
        let lt : j < page_siz = omega (arith, get_elem?-lt r.cells j c at, R.small) in
        let flash : flash_at N entered j ≡ 0xff =
          ap₂ (λ d (o : ℕ). N.contents d (ram + o + j)) E.nand E.page_offset ∙ F.erased j lt in
        ap₂ bit_and flash (ap (λ p. p j) E.page ∙ shown-upto j c at)
        ∙ and_blank (upto v 1 j c.ins) in
      record {
        at_page = write-AtPage N entered E.at_page;
        room = write-HasRoom N entered room;
        held = λ j c at.
            (write_bytes N entered j E.at_page room
              (omega (arith, get_elem?-lt r.cells j c at, R.small))).0
            ∙ bytes j c at;
        stored = λ j c at. rw (write-page_offset N entered) (
            (write_bytes N entered j E.at_page room
              (omega (arith, get_elem?-lt r.cells j c at, R.small))).1
            ∙ bytes j c at);
      }

  abbrev pub settled : Cpu N
  settled = run_ops N (steps_ops r.cells ram 2 (r.steps - 1)) (write N ram entered)

  -- After the last step every cell holds its value.
  pub settled-shows : (j : ℕ) → j < length r.cells → settled.page j ≡ byte_of (v j)
  settled-shows j lt =
      let at = get_elem?-cell_at r.cells j lt in
      let c = cell_at r.cells j in
      let O =
        run-steps_ops N r.cells v r.steps R.scheduled R.small R.in_page V.sat (r.steps - 1) 1
          (write N ram entered) entered-OnFlash in
      O.held j c at
      ∙ ap byte_of (
          upto-settled r.cells v (1 + (r.steps - 1)) j c V.sat at (R.scheduled.timed j c at)
            (omega (arith, R.scheduled.bounded j c at, R.begins)))

  pub run-program_ops : run_ops N (program_ops r) s ≡ settled
  unfolding program_ops run_ops
  run-program_ops =
      let x = get_in_ops r.cells r.first 0 digit in
      let y = get_in_ops r.cells r.second 0 digit in
      let s' = dispatch N Opcode.cap_in 0 0 s in
      let steps =
        λ (base : ℕ). op Opcode.prg_nand base 0 ∷ steps_ops r.cells base 2 (r.steps - 1) in
      run_ops-append N x (y ++ steps r.page_base) s'
      ∙ run_ops-append N y (steps r.page_base) (run_ops N x s')
      ∙ ap (run_ops N (steps r.page_base)) (sym (run_ops-append N x y s'))
      ∙ ap (λ base. run_ops N (steps base) entered) R.base
      ∙ ap (run_ops N (steps_ops r.cells ram 2 (r.steps - 1))) (dispatch-prg_nand N entered)

  write-out : (t : Cpu N) → (write N ram t).out ≡ t.out
  unfolding write
  write-out t = refl

  -- The instructions of the steps leave the registers of the results.
  pub settled-out : settled.out ≡ s.out
  settled-out =
      steps_ops-out N r.cells (r.steps - 1) 2 (write N ram entered)
      ∙ write-out entered
      ∙ entered-Entered.out
