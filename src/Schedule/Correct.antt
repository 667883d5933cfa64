-- ===== src/Schedule/Correct.antt =====
-- `schedule` of src/server/ROM.cpp as a whole: what it returns is a schedule of the same netlist, its
-- queue loop ends with the fuel given, and it returns on every netlist whose cells read cells before
-- them.
use hsq_over_nand.Base.{
  ℕ, zero, suc, ◌+◌, ◌<◌, ◌≤◌, ◌≡◌, refl, sym, ap, ◌∙◌, Bool, true, false, inl, inr, Option, none,
  some, List, [], ◌∷◌, length, get_elem?, ◌==◌, assert-some, assert, arith, subst, Option-cases,
}
use hsq_over_nand.Netlist.{Write, Cell}
use hsq_over_nand.Netlist.Grow.{Earlier}
use hsq_over_nand.Schedule.{Sched, cell_at, complete_at, enqueue_inputs, schedule_loop, schedule}
use hsq_over_nand.Schedule.Valid.{Timed, IsScheduled}
use hsq_over_nand.Schedule.Count.{times, unpopped-all, unpopped-zero, waiting}
use hsq_over_nand.Schedule.Queue.{ins_at}
use hsq_over_nand.Schedule.Start.{entered, fits, enqueue_inputs-Started}
use hsq_over_nand.Schedule.Writes.{SameWrites}
use hsq_over_nand.Schedule.Loop.{
  IsRaw, Shaped, Running, start, start-Started, Started-Running, loop-Running,
}
use hsq_over_nand.Cpu.Step.{cell_at-eq, get_elem?-lt}

-- The cells after `schedule`: valid steps for the same cells with the same writes.
pub record Schedules (cells cells' : List Cell) (steps : ℕ) : Type 0 where
  pub scheduled : IsScheduled cells' steps
  pub long : length cells' ≡ length cells
  pub addr : (j : ℕ) → (cell_at cells' j).addr ≡ (cell_at cells j).addr
  pub same : (j : ℕ) → SameWrites (ins_at cells' j) (ins_at cells j)
  pub shaped : Shaped cells
  pub begins : 1 ≤ steps

-- What the loop leaves, whether or not the last assertion holds.
record Ended (cells : List Cell) (t : Sched) : Type 0 where
  marks : ℕ → Bool
  running : Running cells marks t
  empty : t.queue ≡ []

schedule_loop-Ended :
    (cells : List Cell) (s : Sched)
    → IsRaw cells
    → enqueue_inputs 0 cells (start cells) ≡ some s
    → Shaped cells × (t : Sched) × (schedule_loop (length cells) s.queue s ≡ some t) × Ended cells t
schedule_loop-Ended cells s raw e =
    let (h, e₁, e₂, e₃) =
      enqueue_inputs-Started cells 0 cells (start cells) s e (omega arith)
        (λ j. ap (cell_at cells) (omega arith)) (start-Started cells) in
    let R = Started-Running cells s e₁ e₂ e₃ h in
    let (t, r, p, R', q) =
      loop-Running cells raw h.inputs (length cells) s.queue (λ j. false) s refl
        (omega (arith, R.tally)) R in
    (h.inputs, t, r, record { marks = p; running = R'; empty = q })

Ended-Schedules :
    (cells : List Cell) (t : Sched)
    → Shaped cells
    → Ended cells t
    → t.done ≡ length cells
    → Schedules cells t.cells t.max_step
Ended-Schedules cells t shaped E all =
    let R = E.running in
    let S = R.settled in
    let popped = unpopped-zero E.marks (length cells) (omega (arith, R.tally, all)) in
    let inside = λ (i : ℕ) (c : Cell) (at : get_elem? t.cells i ≡ some c).
      popped i (omega (arith, get_elem?-lt t.cells i c at, S.long)) in
    record {
      scheduled = record {
        timed = λ i c at.
            subst (λ (d : Cell). Timed t.cells 1 d.ins d.complete) (cell_at-eq t.cells i c at)
              (S.timed i (inside i c at));
        bounded = λ i c at.
            subst (λ (d : Cell). d.complete ≤ t.max_step) (cell_at-eq t.cells i c at)
              (S.early i (inside i c at));
      };
      long = S.long;
      addr = S.addr;
      same = S.same;
      shaped = shaped;
      begins = R.big;
    }

-- What `schedule` does once the first loop has returned.
rest : List Cell → Sched → Option (List Cell × ℕ)
unfolding schedule_loop
rest cells s = elim (schedule_loop (length cells) s.queue s) [
  | none ↦ none
  | some t ↦ assert (t.done == length cells) (some (t.cells, t.max_step))
]

schedule-start :
    (cells : List Cell)
    → schedule cells
      ≡ elim (enqueue_inputs 0 cells (start cells)) [ none ↦ none | some s ↦ rest cells s ]
unfolding schedule rest
schedule-start cells = refl

-- The last assertion, after the loop has ended in the state `t`.
rest-eq :
    (cells : List Cell) (s t : Sched)
    → schedule_loop (length cells) s.queue s ≡ some t
    → rest cells s ≡ assert (t.done == length cells) (some (t.cells, t.max_step))
unfolding rest
rest-eq cells s t e = rw (e, rest) refl

schedule-eq :
    (cells : List Cell) (s : Sched)
    → enqueue_inputs 0 cells (start cells) ≡ some s
    → schedule cells ≡ rest cells s
schedule-eq cells s e = schedule-start cells ∙ rw e refl

schedule-none :
    (cells : List Cell) → enqueue_inputs 0 cells (start cells) ≡ none → schedule cells ≡ none
schedule-none cells e = schedule-start cells ∙ rw e refl

-- What `schedule` returns is a schedule of the netlist.
pub schedule-Schedules :
    (cells cells' : List Cell) (steps : ℕ)
    → IsRaw cells
    → schedule cells ≡ some (cells', steps)
    → Schedules cells cells' steps
schedule-Schedules cells cells' steps raw e =
    elim (Option-cases (enqueue_inputs 0 cells (start cells))) [
      | inl failed ↦ absurd (cc (e, schedule-none cells failed))
      | inr (s, begun) ↦
          let (shaped, t, ended, E) = schedule_loop-Ended cells s raw begun in
          let made = sym (rest-eq cells s t ended) ∙ sym (schedule-eq cells s begun) ∙ e in
          let (all, result) =
            assert-some (t.done == length cells) (some (t.cells, t.max_step)) (cells', steps)
              made in
          let same : t.cells ≡ cells' = cc result in
          let last : t.max_step ≡ steps = cc result in
          rw (← same, ← last) (Ended-Schedules cells t shaped E (ground arith))
    ]

-- Every write of a cell reads a cell before it.
abbrev pub IsOrdered : List Cell → Type 0
IsOrdered cells = (i : ℕ) → i < length cells → Earlier i (ins_at cells i)

waiting-Earlier :
    (p : ℕ → Bool) (i : ℕ) (ws : List Write)
    → Earlier i ws
    → ((j : ℕ) → j < i → p j ≡ true)
    → waiting p ws ≡ 0
waiting-Earlier p i [] h below = refl
waiting-Earlier p i (w ∷ ws) h below =
    ground (arith, below w.src.cell h.0, waiting-Earlier p i ws h.1 below)

-- When the queue is empty, no cell of an ordered netlist still waits.
Ended-popped :
    (cells : List Cell) (t : Sched) (E : Ended cells t)
    → IsOrdered cells
    → (k j : ℕ) → j < k
    → j < length cells
    → E.marks j ≡ true
Ended-popped cells t E order zero j lt jlt = absurd (omega arith)
Ended-popped cells t E order (suc k) j lt jlt =
    let C = E.running.counted in
    let none' =
      waiting-Earlier E.marks j (ins_at cells j) (order j jlt)
        λ i ilt. Ended-popped cells t E order k i (omega arith) (omega arith) in
    let q : times j t.queue ≡ 0 = ap (times j) E.empty in
    ground (arith, C.queued j, C.left j jlt, none', q)

-- The first loop returns where inputs, and only they, have no writes.
enqueue_inputs-returns :
    (i : ℕ) (cs : List Cell) (s : Sched)
    → ((j : ℕ) → j < length cs → (complete_at cs j == 1) ≡ (length (ins_at cs j) == 0))
    → (t : Sched) × (enqueue_inputs i cs s ≡ some t)
unfolding enqueue_inputs entered
enqueue_inputs-returns i [] s h = (s, refl)
enqueue_inputs-returns i (c ∷ cs) s h =
    let (t, e) =
      enqueue_inputs-returns (i + 1) cs (entered i c s) (λ j lt. h (suc j) (omega arith)) in
    let good : fits c ≡ true = ground (arith, h 0) in (t, rw good e)

-- `schedule` returns where the three loops of its code find what they expect.
pub schedule-ends :
    (cells : List Cell)
    → IsRaw cells
    → Shaped cells
    → IsOrdered cells
    → (cells' : List Cell) × (steps : ℕ) × (schedule cells ≡ some (cells', steps))
schedule-ends cells raw shaped order =
    let (s, begun) = enqueue_inputs-returns 0 cells (start cells) shaped in
    let (_, t, ended, E) = schedule_loop-Ended cells s raw begun in
    let none' =
      unpopped-all E.marks (length cells)
        (λ j lt. Ended-popped cells t E order (length cells) j lt lt) in
    let all : (t.done == length cells) ≡ true = ground (arith, E.running.tally, none') in
    (t.cells, t.max_step, schedule-eq cells s begun ∙ rest-eq cells s t ended ∙ rw all refl)
