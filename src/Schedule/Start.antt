-- ===== src/Schedule/Start.antt =====
-- The first loop of `schedule` (src/server/ROM.cpp): it counts the writes of each cell, enters the
-- cell with the readers of its sources, and queues the inputs.
use hsq_over_nand.Base.{
  ℕ, zero, suc, ◌+◌, ◌<◌, ◌≡◌, refl, sym, ap, ◌∙◌, Bool, true, some, List, [], ◌∷◌, ◌++◌, length,
  length-append, length-modify, get_or, modify, ◌==◌, ltb, if◌then◌else◌, Bool-cases, arith,
  ℕ_discrete, inl, inr, assert-some,
}
use hsq_over_nand.Netlist.{Write, Cell}
use hsq_over_nand.Schedule.{Sched, cell_at, add_reader, enqueue_inputs}
use hsq_over_nand.Schedule.Count.{
  one, times, uses, times-append, get_or-modify, get_or-past, modify-past,
}
use hsq_over_nand.Schedule.Queue.{ins_at, times-queue}

length-add_reader :
    (i : ℕ) (ws : List Write) (readers : List (List ℕ))
    → length (add_reader i ws readers) ≡ length readers
unfolding add_reader
length-add_reader i [] readers = refl
length-add_reader i (w ∷ ws) readers = length-add_reader i ws _ ∙ length-modify readers w.src.cell _

times-modify :
    (j c i k : ℕ) (readers : List (List ℕ))
    → c < length readers
    → times j (get_or (modify readers k (λ rs. rs ++ i ∷ [])) c [])
      ≡ times j (get_or readers c []) + (if k == c then one (j == i) else 0)
times-modify j c i k readers h = elim (Bool-cases (ltb k (length readers))) [
  | inl lt ↦
      ap (times j) (get_or-modify readers k c (λ rs. rs ++ i ∷ []) [] (ground arith))
      ∙ elim (ℕ_discrete k c) [
        | yes e ↦ rw e (ground (arith, times-append j (get_or readers c []) (i ∷ [])))
        | no e ↦ ground arith
      ]
  | inr ge ↦ rw (modify-past readers k (λ rs. rs ++ i ∷ []) (ground arith)) (ground arith)
]

-- The cell `i` is entered with each of its sources, as often as it reads it.
times-add_reader :
    (i : ℕ) (ws : List Write) (readers : List (List ℕ)) (j c : ℕ)
    → c < length readers
    → times j (get_or (add_reader i ws readers) c [])
      ≡ times j (get_or readers c []) + (if j == i then uses c ws else 0)
unfolding add_reader
times-add_reader i [] readers j c h = ground arith
times-add_reader i (w ∷ ws) readers j c h = ground (
  arith,
  times-add_reader i ws (modify readers w.src.cell (λ rs. rs ++ i ∷ [])) j c
      (omega (arith, h, length-modify readers w.src.cell (λ rs. rs ++ i ∷ []))),
  times-modify j c i w.src.cell readers h,
)

get_or-push :
    (xs : List ℕ) (a i : ℕ)
    → get_or (xs ++ a ∷ []) i 1
      ≡ (if ltb i (length xs) then get_or xs i 1 else (if i == length xs then a else 1))
get_or-push [] a zero = refl
get_or-push [] a (suc i) = ground arith
get_or-push (x ∷ xs) a zero = ground arith
get_or-push (x ∷ xs) a (suc i) = get_or-push xs a i ∙ ground arith

-- What the loop asserts of a cell, and the state after it.
abbrev pub fits : Cell → Bool
fits c = if c.complete == 1 then length c.ins == 0 else ltb 0 (length c.ins)

unfoldable pub entered : ℕ → Cell → Sched → Sched
unfolding add_reader
entered i c s = record s {
  readers = add_reader i c.ins s.readers;
  pend = s.pend ++ length c.ins ∷ [];
  queue = if c.complete == 1 then s.queue ++ i ∷ [] else s.queue;
}

module _ (cells : List Cell) where
  -- The cells before `i` are entered.
  pub record Started (i : ℕ) (s : Sched) : Type 0 where
    pub long : length s.pend ≡ i
    pub counts : (j : ℕ) → j < i → get_or s.pend j 1 ≡ length (ins_at cells j)
    pub queued : (j : ℕ) → times j s.queue ≡ one (get_or s.pend j 1 == 0)
    pub lists : length s.readers ≡ length cells
    pub reads :
        (c j : ℕ)
        → c < length cells
        → times j (get_or s.readers c []) ≡ (if ltb j i then uses c (ins_at cells j) else 0)
    pub inputs :
        (j : ℕ) → j < i → ((cell_at cells j).complete == 1) ≡ (length (ins_at cells j) == 0)

  Started-entered :
      (i : ℕ) (c : Cell) (s : Sched)
      → fits c ≡ true
      → cell_at cells i ≡ c
      → i < length cells
      → Started i s
      → Started (i + 1) (entered i c s)
  unfolding entered
  Started-entered i c s good at lt h =
      let count = λ (j : ℕ). get_or-push s.pend (length c.ins) j in
      record {
        long = length-append s.pend (length c.ins ∷ []) ∙ omega (arith, h.long);
        counts = λ j jlt. count j ∙ elim (ℕ_discrete j i) [
          | yes e ↦ ground (
            arith,
            h.long,
            ap (λ (k : ℕ). length (ins_at cells k)) e,
            ap (λ (d : Cell). length d.ins) at,
          )
          | no e ↦ ground (arith, h.long, h.counts j)
        ];
        queued = λ j. ground (
          arith,
          count j,
          times-queue cells j i (c.complete == 1) s.queue,
          h.queued j,
          h.long,
          get_or-past s.pend j 1,
          good,
        );
        lists = length-add_reader i c.ins s.readers ∙ h.lists;
        reads = λ d j dlt.
            times-add_reader i c.ins s.readers j d (omega (arith, dlt, h.lists))
            ∙ elim (ℕ_discrete j i) [
              | yes e ↦ ground (
                arith,
                h.reads d j dlt,
                ap (λ (k : ℕ). uses d (ins_at cells k)) e,
                ap (λ (x : Cell). uses d x.ins) at,
              )
              | no e ↦ ground (arith, h.reads d j dlt)
            ];
        inputs = λ j jlt. elim (ℕ_discrete j i) [
          | yes e ↦ rw (e, at) (ground (arith, good))
          | no e ↦ h.inputs j (omega arith)
        ];
      }

  -- The loop enters all cells, and changes none of them.
  pub enqueue_inputs-Started :
      (i : ℕ) (cs : List Cell) (s t : Sched)
      → enqueue_inputs i cs s ≡ some t
      → i + length cs ≡ length cells
      → ((j : ℕ) → cell_at cs j ≡ cell_at cells (i + j))
      → Started i s
      → Started (length cells) t
        × (t.cells ≡ s.cells)
        × (t.done ≡ s.done)
        × (t.max_step ≡ s.max_step)
  unfolding enqueue_inputs entered
  enqueue_inputs-Started i [] s t e len part h =
      let same : s ≡ t = cc e in
      let all : i ≡ length cells = omega (arith, len) in rw (← same, ← all) (h, refl, refl, refl)
  enqueue_inputs-Started i (c ∷ cs) s t e len part h =
      let (good, e') = assert-some (fits c) (enqueue_inputs (i + 1) cs (entered i c s)) t e in
      let first : i + 0 ≡ i = omega arith in
      let here : cell_at cells i ≡ c = ap (cell_at cells) (sym first) ∙ sym (part 0) in
      enqueue_inputs-Started (i + 1) cs (entered i c s) t e' (omega (arith, len))
        (λ j. part (suc j) ∙ ap (cell_at cells) (omega arith))
        (Started-entered i c s good here (omega (arith, len)) h)
