-- ===== src/Schedule/Returns.antt =====
-- `Netlist::schedule` of src/server/ROM.cpp returns, and returns a schedule, on every netlist that the builder
-- can make.
use hsq_over_nand.Base.{
  ℕ, ◌<◌, ◌≡◌, sym, ap, subst, some, List, [], length, ltb, ◌⊎◌, inl, inr, Bool-cases, arith,
}
use hsq_over_nand.Netlist.{Cell}
use hsq_over_nand.Netlist.Grow.{IsInput, IsGate, Earlier}
use hsq_over_nand.Schedule.{cell_at, schedule}
use hsq_over_nand.Schedule.Count.{get_or-past}
use hsq_over_nand.Schedule.Loop.{IsRaw, Shaped}
use hsq_over_nand.Schedule.Correct.{Schedules, IsOrdered, schedule-Schedules, schedule-ends}

-- Every cell is an input, settled at step 1 and without writes, or a gate, not settled yet, with at least one
-- write and all its sources before it.
abbrev pub IsBuilt : List Cell → Type 0
IsBuilt cs = (j : ℕ) → j < length cs → IsInput (cell_at cs j) ⊎ IsGate j (cell_at cs j)

module _ (cs : List Cell) (h : IsBuilt cs) where
  built-IsRaw : IsRaw cs
  built-IsRaw j = elim (Bool-cases (ltb j (length cs))) [
    | inl lt ↦ elim (h j (ground (arith, lt))) [ inl i ↦ inr i.0 | inr g ↦ inl g.0 ]
    | inr ge ↦ inl (
        ap (λ (c : Cell). c.complete)
          (get_or-past cs j (record { addr = 0; ins = []; complete = 0 }) (ground (arith, ge))))
  ]

  built-Shaped : Shaped cs
  built-Shaped j lt = elim (h j lt) [
    | inl i ↦ ground (arith, i.0, ap length i.1)
    | inr g ↦ ground (arith, g.0, g.1)
  ]

  built-IsOrdered : IsOrdered cs
  built-IsOrdered j lt = elim (h j lt) [ inl i ↦ subst (Earlier j) (sym i.1) tt | inr g ↦ g.2 ]

  -- On a netlist in which every cell is either an input, settled at step 1 and without writes, or a gate, not
  -- settled yet, with at least one write and all its sources before it, `schedule` returns, and what it
  -- returns is a schedule of the netlist.
  pub schedule-returns :
      (cells : List Cell) × (steps : ℕ) × (schedule cs ≡ some (cells, steps))
      × Schedules cs cells steps
  schedule-returns =
      let (cells, steps, e) = schedule-ends cs built-IsRaw built-Shaped built-IsOrdered in
      (cells, steps, e, schedule-Schedules cs cells steps built-IsRaw e)
