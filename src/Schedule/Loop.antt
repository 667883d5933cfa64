-- ===== src/Schedule/Loop.antt =====
-- The queue loop of `schedule` (src/server/ROM.cpp): what holds at each of its turns.
use hsq_over_nand.Base.{
  ℕ, zero, suc, ◌+◌, ◌<◌, ◌≤◌, ◌≡◌, refl, ap, ◌∙◌, Bool, true, false, ◌⊎◌, some, List, [], ◌∷◌,
  length, get_or, replicate, ◌==◌, arith, subst,
}
use hsq_over_nand.Netlist.{Write, Cell}
use hsq_over_nand.Schedule.{Sched, complete_at, settle, release, schedule_loop}
use hsq_over_nand.Schedule.Count.{
  one, times, uses, waiting, unpopped, unpopped-update, get_or-replicate, length-replicate,
}
use hsq_over_nand.Schedule.Queue.{ins_at, Counted, Counted-range, release-Counted, pop-Counted}
use hsq_over_nand.Schedule.Start.{Started}
use hsq_over_nand.Schedule.Writes.{SameWrites-refl}
use hsq_over_nand.Schedule.Settle.{Settled, settle-rest, settle-Settled}
use hsq_over_nand.Cpu.{update}

-- A netlist as the builder leaves it: inputs are settled at step 1, no other cell is settled.
abbrev pub IsRaw : List Cell → Type 0
IsRaw cells = (j : ℕ) → (complete_at cells j ≡ 0) ⊎ (complete_at cells j ≡ 1)

module _ (cells : List Cell) where
  abbrev pub Shaped : Type 0
  Shaped = (j : ℕ) → j < length cells → (complete_at cells j == 1) ≡ (length (ins_at cells j) == 0)

  -- The state of the queue loop when the cells marked by `p` have left the queue.
  pub record Running (p : ℕ → Bool) (s : Sched) : Type 0 where
    pub counted : Counted cells p [] s.pend s.queue
    pub settled : Settled cells p s.cells s.max_step
    pub big : 1 ≤ s.max_step
    pub reads :
        (c : ℕ)
        → c < length cells
        → (j : ℕ) → j < length cells
        → times j (get_or s.readers c []) ≡ uses c (ins_at cells j)
    pub outside :
        (c : ℕ)
        → c < length cells
        → (j : ℕ) → length cells ≤ j
        → times j (get_or s.readers c []) ≡ 0
    pub tally : unpopped p (length cells) + s.done ≡ length cells

  module _ (raw : IsRaw cells) (shaped : Shaped) where
    abbrev turn : ℕ → List ℕ → Sched → Sched
    turn c q s =
        let s' = settle c (record s { queue = q; done = s.done + 1 }) in
        release (get_or s'.readers c []) s'

    turn-Running :
        (p : ℕ → Bool) (c : ℕ) (q : List ℕ) (s : Sched)
        → s.queue ≡ c ∷ q
        → Running p s
        → (p c ≡ false) × (c < length cells) × Running (update p c true) (turn c q s)
    turn-Running p c q s e R =
        let C : Counted cells p [] s.pend (c ∷ q) = subst (Counted cells p [] s.pend) e R.counted in
        let here : one (c == c) ≡ 1 = ground arith in
        let (lt, down) = Counted-range cells p [] s.pend (c ∷ q) c C (omega (arith, here)) in
        let (new, _, C') =
          pop-Counted cells p c q (get_or s.readers c []) s.pend C (R.reads c lt)
            (R.outside c lt) in
        let s₀ : Sched = record s { queue = q; done = s.done + 1 } in
        let inside = λ (j : ℕ) (h : p j ≡ true).
          (Counted-range cells p [] s.pend (c ∷ q) j C (ground arith)).0 in
        let ready : waiting p (ins_at cells c) ≡ 0 = omega (arith, C.left c lt, down) in
        let S =
          settle-Settled cells p c s₀ R.settled new lt inside ready (raw c) (shaped c lt) R.big in
        let (big, pend, queue, readers, done) = settle-rest c s₀ R.big in
        let counted : Counted cells (update p c true) (get_or (settle c s₀).readers c [])
            (settle c s₀).pend (settle c s₀).queue =
          rw (pend, queue, readers) C' in
        let (C'', cells', readers', done', step') =
          release-Counted cells (update p c true) (get_or (settle c s₀).readers c []) (settle c s₀)
            counted in
        (
          new,
          lt,
          record {
            counted = C'';
            settled = rw (cells', step') S;
            big = rw step' big;
            reads = λ d dlt j jlt. rw (readers' ∙ readers) (R.reads d dlt j jlt);
            outside = λ d dlt j jge. rw (readers' ∙ readers) (R.outside d dlt j jge);
            tally = omega (arith, R.tally, done' ∙ done, unpopped-update p c (length cells) new lt);
          },
        )

    -- The loop ends with a unit of fuel for each cell that has not left the queue.
    pub loop-Running :
        (fuel : ℕ) (q : List ℕ) (p : ℕ → Bool) (s : Sched)
        → s.queue ≡ q
        → unpopped p (length cells) ≤ fuel
        → Running p s
        → (t : Sched) × (schedule_loop fuel q s ≡ some t)
          × (p' : ℕ → Bool) × Running p' t
          × (t.queue ≡ [])
    unfolding schedule_loop
    loop-Running fuel [] p s e enough R = (s, refl, p, R, e)
    loop-Running zero (c ∷ q) p s e enough R =
        let (new, lt, R') = turn-Running p c q s e R in
        absurd (omega (arith, unpopped-update p c (length cells) new lt))
    loop-Running (suc fuel) (c ∷ q) p s e enough R =
        let (new, lt, R') = turn-Running p c q s e R in
        loop-Running fuel (turn c q s).queue (update p c true) (turn c q s) refl
          (omega (arith, unpopped-update p c (length cells) new lt)) R'

waiting-none : (ws : List Write) → waiting (λ j. false) ws ≡ length ws
waiting-none [] = refl
waiting-none (w ∷ ws) = omega (arith, waiting-none ws)

unpopped-none : (n : ℕ) → unpopped (λ j. false) n ≡ n
unpopped-none zero = refl
unpopped-none (suc n) = omega (arith, unpopped-none n)

module _ (cells : List Cell) where
  -- The locals before the first loop.
  abbrev pub start : Sched
  start = record {
    cells = cells;
    readers = replicate (length cells) [];
    pend = [];
    queue = [];
    done = 0;
    max_step = 1;
  }

  pub start-Started : Started cells 0 start
  start-Started = record {
    long = refl;
    counts = λ j h. absurd (omega arith);
    queued = λ j. refl;
    lists = length-replicate (length cells) [];
    reads = λ c j h. ap (times j) (get_or-replicate (length cells) c []) ∙ ground arith;
    inputs = λ j h. absurd (omega arith);
  }

  pub Started-Running :
      (s : Sched)
      → s.cells ≡ cells
      → s.done ≡ 0
      → s.max_step ≡ 1
      → Started cells (length cells) s
      → Running cells (λ j. false) s
  Started-Running s e d m h = record {
    counted = record {
      long = h.long;
      left = λ j lt. omega (arith, h.counts j lt, waiting-none (ins_at cells j));
      queued = λ j. omega (arith, h.queued j);
      inside = λ j ge. refl;
    };
    settled = rw e (record {
      long = refl;
      fresh = λ j k. refl;
      addr = λ j. refl;
      same = λ j. SameWrites-refl (ins_at cells j);
      timed = λ j k. absurd (cc k);
      early = λ j k. absurd (cc k);
      waits = λ j k. absurd (cc k);
    });
    big = omega (arith, m);
    reads = λ c lt j jlt. h.reads c j lt ∙ ground arith;
    outside = λ c lt j ge. h.reads c j lt ∙ ground arith;
    tally = omega (arith, d, unpopped-none (length cells));
  }
