-- ===== src/Schedule.antt =====
-- `Netlist::schedule` of src/server/ROM.cpp: each write of a cell is given the step of the round in
-- which it is programmed. A source must be settled before it is read, and a cell takes one write a
-- step.
pub mod Valid
pub mod Count
pub mod Queue
pub mod Start
pub mod Writes
pub mod Settle
pub mod Loop
pub mod Correct
pub mod Returns
pub mod Evaluate
mod Tests
use hsq_over_nand.Base.{
  ℕ, zero, suc, ◌+◌, ◌-◌, Option, none, some, List, [], ◌∷◌, ◌++◌, length, get_or, modify,
  replicate, ltb, leb, ◌==◌, if◌then◌else◌, assert,
}
use Prim.Native.Nat.{max}
use hsq_over_nand.Netlist.{Write, Cell, unscheduled}

-- The locals of `schedule`.
pub record Sched : Type 0 where
  pub cells : List Cell
  pub readers : List (List ℕ)
  pub pend : List ℕ
  pub queue : List ℕ
  pub done : ℕ
  pub max_step : ℕ

abbrev pub cell_at : List Cell → ℕ → Cell
cell_at cells i = get_or cells i (record { addr = 0; ins = []; complete = unscheduled })

abbrev pub complete_at : List Cell → ℕ → ℕ
complete_at cells i = (cell_at cells i).complete

-- `readers[ins[j].src.cell].push_back(i)` for all `j`.
pub add_reader : ℕ → List Write → List (List ℕ) → List (List ℕ)
add_reader i [] readers = readers
add_reader i (w ∷ ws) readers = add_reader i ws (modify readers w.src.cell (λ rs. rs ++ i ∷ []))

-- The first loop, from cell `i` on. Inputs are queued; an assertion fails where an input has writes
-- or another cell has none.
pub enqueue_inputs : ℕ → List Cell → Sched → Option Sched
enqueue_inputs i [] s = some s
enqueue_inputs i (c ∷ cs) s =
    let is_input = c.complete == 1 in
    assert (if is_input then length c.ins == 0 else ltb 0 (length c.ins)) (
      enqueue_inputs (i + 1) cs (record s {
        readers = add_reader i c.ins s.readers;
        pend = s.pend ++ length c.ins ∷ [];
        queue = if is_input then s.queue ++ i ∷ [] else s.queue;
      }))

-- `std::stable_sort` by the completion of the source.
pub insert_write : List Cell → Write → List Write → List Write
insert_write cells w [] = w ∷ []
insert_write cells w (x ∷ xs) =
    if leb (complete_at cells w.src.cell) (complete_at cells x.src.cell)
    then w ∷ x ∷ xs
    else x ∷ insert_write cells w xs

pub stable_sort : List Cell → List Write → List Write
stable_sort cells [] = []
stable_sort cells (w ∷ ws) = insert_write cells w (stable_sort cells ws)

-- The loop over the sorted writes: their steps, and the last step given out.
pub assign_steps : List Cell → ℕ → List Write → List Write × ℕ
assign_steps cells t [] = ([], t)
assign_steps cells t (w ∷ ws) =
    let t' = max (complete_at cells w.src.cell) t + 1 in
    let (rest, last) = assign_steps cells t' ws in (record w { step = t' } ∷ rest, last)

-- `if(cells[c].complete < 0) { ... }`
pub settle : ℕ → Sched → Sched
unfolding insert_write stable_sort assign_steps
settle c s =
    let (ins, t) = assign_steps s.cells 1 (stable_sort s.cells (cell_at s.cells c).ins) in
    if complete_at s.cells c == unscheduled
    then record s {
      cells = modify s.cells c (λ x. record x { ins = ins; complete = t });
      max_step = max s.max_step t;
    }
    else s

-- `if(--pend[r] == 0) q.push_back(r);` for all readers.
pub release : List ℕ → Sched → Sched
release [] s = s
release (r ∷ rs) s =
    let left = get_or s.pend r 0 - 1 in
    release rs (record s {
      pend = modify s.pend r (λ _. left);
      queue = if left == 0 then s.queue ++ r ∷ [] else s.queue;
    })

-- The `while(!q.empty())` loop; `none` when the fuel runs out.
pub schedule_loop : ℕ → List ℕ → Sched → Option Sched
unfolding settle release
schedule_loop fuel [] s = some s
schedule_loop zero (c ∷ q) s = none
schedule_loop (suc fuel) (c ∷ q) s =
    let s' = settle c (record s { queue = q; done = s.done + 1 }) in
    let s'' = release (get_or s'.readers c []) s' in schedule_loop fuel s''.queue s''

-- Every cell enters the queue at most once, so a round for each cell is enough.
pub schedule : List Cell → Option (List Cell × ℕ)
unfolding add_reader enqueue_inputs schedule_loop
schedule cells =
    let n = length cells in
    let start : Sched = record {
      cells = cells;
      readers = replicate n [];
      pend = [];
      queue = [];
      done = 0;
      max_step = 1;
    } in
    elim (enqueue_inputs 0 cells start) [
      | none ↦ none
      | some s ↦ elim (schedule_loop n s.queue s) [
        | none ↦ none
        | some t ↦ assert (t.done == n) (some (t.cells, t.max_step))
      ]
    ]
