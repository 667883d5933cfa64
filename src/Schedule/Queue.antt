-- ===== src/Schedule/Queue.antt =====
-- The queue of `schedule` (src/server/ROM.cpp): a cell enters it once, when the last of its
-- sources has left it.
use hsq_over_nand.Base.{
  ℕ, ◌+◌, ◌-◌, ◌<◌, ◌≤◌, ◌≡◌, refl, ap, ◌∙◌, Bool, true, false, List, [], ◌∷◌, ◌++◌, length,
  length-modify, get_or, modify, ◌==◌, ltb, if◌then◌else◌, Bool-cases, arith, ℕ_discrete, inl, inr,
}
use hsq_over_nand.Netlist.{Write, Cell}
use hsq_over_nand.Schedule.{Sched, cell_at, release}
use hsq_over_nand.Schedule.Count.{
  one, times, uses, waiting, times-append, waiting-update, get_or-modify, get_or-past,
  get_or-default,
}
use hsq_over_nand.Cpu.{update}

module _ (cells : List Cell) where
  abbrev pub ins_at : ℕ → List Write
  ins_at i = (cell_at cells i).ins

  -- The cells marked by `p` have left the queue; the readers `rem` of the last one are still to be
  -- released. A cell waits in the queue or has left it exactly when its count is down at 0.
  pub record Counted (p : ℕ → Bool) (rem : List ℕ) (pend queue : List ℕ) : Type 0 where
    pub long : length pend ≡ length cells
    pub left : (j : ℕ) → j < length cells → get_or pend j 1 ≡ waiting p (ins_at j) + times j rem
    pub queued : (j : ℕ) → times j queue + one (p j) ≡ one (get_or pend j 1 == 0)
    pub inside : (j : ℕ) → length cells ≤ j → times j rem ≡ 0

  pub Counted-range :
      (p : ℕ → Bool) (rem pend queue : List ℕ) (j : ℕ)
      → Counted p rem pend queue
      → 1 ≤ times j queue + one (p j)
      → (j < length cells) × (get_or pend j 1 ≡ 0)
  Counted-range p rem pend queue j h some' =
      let q = h.queued j in
      let zero' : get_or pend j 1 ≡ 0 = ground arith in
      elim (Bool-cases (ltb j (length cells))) [
        | inl lt ↦ (ground arith, zero')
        | inr ge ↦ absurd (ground (arith, get_or-past pend j 1 (ground (arith, h.long)), zero'))
      ]

  pub times-queue :
      (j r : ℕ) (b : Bool) (queue : List ℕ)
      → times j (if b then queue ++ r ∷ [] else queue)
        ≡ times j queue + (if b then one (j == r) else 0)
  times-queue j r true queue = omega (arith, times-append j queue (r ∷ []))
  times-queue j r false queue = omega arith

  -- A reader `r` that is released waits for one source less, and is queued at its last one.
  release_one :
      (p : ℕ → Bool) (r : ℕ) (rs pend queue : List ℕ)
      → Counted p (r ∷ rs) pend queue
      → let left = get_or pend r 0 - 1 in
        Counted p rs (modify pend r (λ _. left)) (if left == 0 then queue ++ r ∷ [] else queue)
  release_one p r rs pend queue h =
      let left = get_or pend r 0 - 1 in
      let here : one (r == r) ≡ 1 = ground arith in
      let lt : r < length cells = elim (Bool-cases (ltb r (length cells))) [
        | inl lt ↦ ground arith
        | inr ge ↦ absurd (omega (arith, h.inside r (ground arith), here))
      ] in
      let lt' : r < length pend = omega (arith, lt, h.long) in
      let same : get_or pend r 0 ≡ get_or pend r 1 = get_or-default pend r 0 1 lt' in
      record {
        long = length-modify pend r (λ _. left) ∙ h.long;
        left = λ j jlt. get_or-modify pend r j (λ _. left) 1 lt' ∙ elim (ℕ_discrete r j) [
          | yes e ↦ rw (← e) (ground (arith, h.left r lt, same))
          | no e ↦ ground (arith, h.left j jlt)
        ];
        queued = λ j.
            let now = get_or-modify pend r j (λ _. left) 1 lt' in
            let more = times-queue j r (left == 0) queue in
            elim (ℕ_discrete r j) [
              | yes e ↦ ground (arith, now, more, h.queued j, h.left r lt, same, here, ap p e, e)
              | no e ↦ ground (arith, now, more, h.queued j)
            ];
        inside = λ j ge. omega (arith, h.inside j ge);
      }

  -- The loop over the readers touches the counts and the queue only.
  pub release-Counted :
      (p : ℕ → Bool) (rs : List ℕ) (s : Sched)
      → Counted p rs s.pend s.queue
      → let t = release rs s in
        Counted p [] t.pend t.queue
        × (t.cells ≡ s.cells)
        × (t.readers ≡ s.readers)
        × (t.done ≡ s.done)
        × (t.max_step ≡ s.max_step)
  unfolding release
  release-Counted p [] s h = (h, refl, refl, refl, refl)
  release-Counted p (r ∷ rs) s h = release-Counted p rs _ (release_one p r rs s.pend s.queue h)

  -- A cell that leaves the queue leaves its readers to be released.
  pub pop-Counted :
      (p : ℕ → Bool) (c : ℕ) (q rs pend : List ℕ)
      → Counted p [] pend (c ∷ q)
      → ((j : ℕ) → j < length cells → times j rs ≡ uses c (ins_at j))
      → ((j : ℕ) → length cells ≤ j → times j rs ≡ 0)
      → (p c ≡ false) × (c < length cells) × Counted (update p c true) rs pend q
  pop-Counted p c q rs pend h reads outside =
      let here : one (c == c) ≡ 1 = ground arith in
      let (lt, done) = Counted-range p [] pend (c ∷ q) c h (omega (arith, here)) in
      let new : p c ≡ false = ground (arith, h.queued c, here) in
      (
        new,
        lt,
        record {
          long = h.long;
          left =
              λ j jlt. omega (arith, h.left j jlt, waiting-update p c (ins_at j) new, reads j jlt);
          queued = λ j. elim (ℕ_discrete c j) [
            | yes e ↦ rw (← e) (ground (arith, h.queued c, here, done, new))
            | no e ↦ ground (arith, h.queued j)
          ];
          inside = outside;
        },
      )
