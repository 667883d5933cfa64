-- ===== src/Schedule/Tests.antt =====
-- A NAND of two inputs, scheduled.
use hsq_over_nand.Base.{ℕ, zero, suc, ◌≡◌, refl, inl, inr, some, List, [], ◌∷◌, true, arith}
use hsq_over_nand.Netlist.{Write, Cell}
use hsq_over_nand.Schedule.{
  schedule, add_reader, enqueue_inputs, insert_write, stable_sort, assign_steps, settle, release,
  schedule_loop,
}
use hsq_over_nand.Schedule.Loop.{IsRaw}
use hsq_over_nand.Schedule.Correct.{Schedules, schedule-Schedules}
use hsq_over_nand.Schedule.Returns.{IsBuilt, schedule-returns}

abbrev reading : ℕ → Write
reading i = record { src = record { cell = i; inv = true }; step = 0 }

abbrev gate_cells : List Cell
gate_cells =
    record { addr = 0xa0000; ins = []; complete = 1 }
    ∷ record { addr = 0xa0001; ins = []; complete = 1 }
    ∷ record { addr = 0xa0002; ins = reading 0 ∷ reading 1 ∷ []; complete = 0 }
    ∷ []

abbrev gate_steps : List Cell
gate_steps =
    record { addr = 0xa0000; ins = []; complete = 1 }
    ∷ record { addr = 0xa0001; ins = []; complete = 1 }
    ∷ record {
      addr = 0xa0002;
      ins = record (reading 0) { step = 2 } ∷ record (reading 1) { step = 3 } ∷ [];
      complete = 3;
    }
    ∷ []

gate_scheduled : schedule gate_cells ≡ some (gate_steps, 3)
unfolding schedule add_reader enqueue_inputs insert_write stable_sort assign_steps settle release
    schedule_loop
gate_scheduled = refl

gate-IsRaw : IsRaw gate_cells
gate-IsRaw zero = inr refl
gate-IsRaw (suc zero) = inr refl
gate-IsRaw (suc (suc zero)) = inl refl
gate-IsRaw (suc (suc (suc j))) = inl refl

gate-IsBuilt : IsBuilt gate_cells
gate-IsBuilt zero lt = inl (refl, refl)
gate-IsBuilt (suc zero) lt = inl (refl, refl)
gate-IsBuilt (suc (suc zero)) lt = inr (refl, omega arith, (omega arith, (omega arith, tt)))
gate-IsBuilt (suc (suc (suc j))) lt = absurd (omega arith)

schedule-Schedules_example : Schedules gate_cells gate_steps 3
schedule-Schedules_example = schedule-Schedules gate_cells gate_steps 3 gate-IsRaw gate_scheduled

schedule-returns_example :
    (cells : List Cell) × (steps : ℕ) × (schedule gate_cells ≡ some (cells, steps))
    × Schedules gate_cells cells steps
schedule-returns_example = schedule-returns gate_cells gate-IsBuilt
