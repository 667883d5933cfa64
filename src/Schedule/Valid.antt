-- ===== src/Schedule/Valid.antt =====
-- What `schedule` (src/server/ROM.cpp) promises to the CPU: every write comes after its source is
-- settled, a cell takes its writes in different steps, and it is settled at its last one.
use hsq_over_nand.Base.{ℕ, ◌+◌, ◌≤◌, ◌<◌, ◌≡◌, some, List, [], ◌∷◌, length, get_elem?}
use hsq_over_nand.Netlist.{Write, Cell}
use hsq_over_nand.Schedule.{complete_at}

-- The writes come one by one after step `t`, each after its source, and the last at step `last`.
abbrev pub Timed : List Cell → ℕ → List Write → ℕ → Type 0
Timed cells t [] last = t ≡ last
Timed cells t (w ∷ ws) last =
    (t < w.step)
    × (complete_at cells w.src.cell < w.step)
    × (w.src.cell < length cells)
    × Timed cells w.step ws last

-- Inputs are settled at step 1, and no cell later than `steps`.
pub record IsScheduled (cells : List Cell) (steps : ℕ) : Type 0 where
  pub timed : (i : ℕ) (c : Cell) → get_elem? cells i ≡ some c → Timed cells 1 c.ins c.complete
  pub bounded : (i : ℕ) (c : Cell) → get_elem? cells i ≡ some c → c.complete ≤ steps

-- Cell `i` stands `i` bytes after the base of its page.
abbrev pub InPage : List Cell → ℕ → Type 0
InPage cells base = (i : ℕ) (c : Cell) → get_elem? cells i ≡ some c → c.addr ≡ base + i
