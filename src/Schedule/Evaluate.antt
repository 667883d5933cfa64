-- ===== src/Schedule/Evaluate.antt =====
-- The values of the cells of a scheduled netlist (src/server/ROM.cpp): for all values of the inputs
-- there are values of the other cells that satisfy it, since a schedule has no cycles.
use hsq_over_nand.Base.{
  ℕ, zero, suc, ◌<◌, ◌≤◌, ◌≡◌, refl, sym, ap, ◌∙◌, Bool, List, [], ◌∷◌, length, arith,
}
use hsq_over_nand.Netlist.{Write, Cell}
use hsq_over_nand.Netlist.Meaning.{ins_value, Holds, Sat}
use hsq_over_nand.Schedule.{cell_at, complete_at}
use hsq_over_nand.Schedule.Valid.{Timed, IsScheduled}
use hsq_over_nand.Cpu.Step.{Timed-le, cell_at-eq, get_elem?-lt, get_elem?-cell_at}

-- The value of a cell with the writes `ws`, when its sources have the values `v`.
abbrev cell_value : (ℕ → Bool) → Bool → List Write → Bool
cell_value v own [] = own
cell_value v own (w ∷ ws) = ins_value v (w ∷ ws)

Holds-value :
    (v : ℕ → Bool) (own : Bool) (i : ℕ) (ws : List Write) → v i ≡ cell_value v own ws → Holds v i ws
Holds-value v own i [] e = tt
Holds-value v own i (w ∷ ws) e = e

cell_value-same :
    (v v' : ℕ → Bool) (own : Bool) (ws : List Write)
    → ins_value v ws ≡ ins_value v' ws
    → cell_value v own ws ≡ cell_value v' own ws
cell_value-same v v' own [] e = refl
cell_value-same v v' own (w ∷ ws) e = e

module _ (cells : List Cell) (given : ℕ → Bool) where
  -- The values after `n` steps of the round; the inputs have the values `given`.
  values_at : ℕ → ℕ → Bool
  values_at zero i = given i
  values_at (suc n) i = cell_value (values_at n) (given i) (cell_at cells i).ins

  values_at-input : (n i : ℕ) → (cell_at cells i).ins ≡ [] → values_at n i ≡ given i
  unfolding values_at
  values_at-input zero i e = refl
  values_at-input (suc n) i e = rw e refl

  module _ (steps : ℕ) (S : IsScheduled cells steps) where
    at_cell : (i : ℕ) → i < length cells → Timed cells 1 (cell_at cells i).ins (complete_at cells i)
    at_cell i lt = S.timed i _ (get_elem?-cell_at cells i lt)

    ins_value-same :
        (v v' : ℕ → Bool) (m t : ℕ) (ws : List Write) (last : ℕ)
        → Timed cells t ws last
        → last ≤ suc m
        → ((j : ℕ) → j < length cells → complete_at cells j ≤ m → v j ≡ v' j)
        → ins_value v ws ≡ ins_value v' ws
    ins_value-same v v' m t [] last h le same = refl
    ins_value-same v v' m t (w ∷ ws) last h le same =
        let before : complete_at cells w.src.cell ≤ m =
          omega (arith, h.1, Timed-le cells w.step ws last h.3) in
        ground (arith, same w.src.cell h.2 before, ins_value-same v v' m w.step ws last h.3 le same)

    -- A cell has its value from the step on at which it is settled.
    values_at-settled :
        (n i : ℕ) → i < length cells → complete_at cells i ≤ n → values_at (suc n) i ≡ values_at n i
    unfolding values_at
    values_at-settled zero i lt le =
        absurd (omega (arith, Timed-le cells 1 _ (complete_at cells i) (at_cell i lt)))
    values_at-settled (suc m) i lt le =
        cell_value-same (values_at (suc m)) (values_at m) (given i) (cell_at cells i).ins (
          ins_value-same (values_at (suc m)) (values_at m) m 1 (cell_at cells i).ins
            (complete_at cells i) (at_cell i lt) le (λ j jlt. values_at-settled m j jlt))

    -- For all values of the inputs there are values of all cells that satisfy the netlist.
    pub IsScheduled-satisfied :
        (v : ℕ → Bool) × Sat v cells × ((i : ℕ) → (cell_at cells i).ins ≡ [] → v i ≡ given i)
    unfolding values_at
    IsScheduled-satisfied = (
      values_at steps,
      (λ i c at.
          let lt = get_elem?-lt cells i c at in
          let here = cell_at-eq cells i c at in
          let le : complete_at cells i ≤ steps =
            omega (arith, S.bounded i c at, ap (λ (d : Cell). d.complete) here) in
          Holds-value (values_at steps) (given i) i c.ins (
            sym (values_at-settled steps i lt le)
            ∙ ap (λ (d : Cell). cell_value (values_at steps) (given i) d.ins) here)),
      (λ i e. values_at-input steps i e),
    )
