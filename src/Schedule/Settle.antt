-- ===== src/Schedule/Settle.antt =====
-- `if(cells[c].complete < 0)` in `schedule` (src/server/ROM.cpp): the writes of a cell whose sources
-- are settled are put in order and get their steps.
use Prim.Native.Nat.{max}
use hsq_over_nand.Base.{
  ℕ, ◌<◌, ◌≤◌, ◌≡◌, ◌≢◌, refl, sym, ap, ◌∙◌, Bool, true, false, ◌⊎◌, inl, inr, List, [], ◌∷◌, subst,
  length, length-modify, modify, ◌==◌, if◌then◌else◌, Bool-cases, arith, ℕ_discrete,
}
use hsq_over_nand.Netlist.{Write, Cell}
use hsq_over_nand.Schedule.{Sched, cell_at, complete_at, stable_sort, assign_steps, settle}
use hsq_over_nand.Schedule.Valid.{Timed}
use hsq_over_nand.Schedule.Count.{waiting, waiting-update, get_or-modify}
use hsq_over_nand.Schedule.Queue.{ins_at}
use hsq_over_nand.Cpu.{update}
use hsq_over_nand.Schedule.Writes.{
  SameWrites, SameWrites-trans, stable_sort-SameWrites, assign_steps-SameWrites, assign_steps-Timed,
}

-- The times of a cell rest on those of its sources.
Timed-same :
    (p : ℕ → Bool) (xs ys : List Cell) (t : ℕ) (ws : List Write) (last : ℕ)
    → length xs ≡ length ys
    → ((j : ℕ) → p j ≡ true → complete_at xs j ≡ complete_at ys j)
    → waiting p ws ≡ 0
    → Timed xs t ws last
    → Timed ys t ws last
Timed-same p xs ys t [] last e h w timed = timed
Timed-same p xs ys t (w ∷ ws) last e h z timed =
    let done : p w.src.cell ≡ true = ground arith in
    (
      timed.0,
      omega (arith, timed.1, h w.src.cell done),
      omega (arith, timed.2, e),
      Timed-same p xs ys w.step ws last e h (ground arith) timed.3,
    )

Timed-input : (cs : List Cell) (ws : List Write) → length ws ≡ 0 → Timed cs 1 ws 1
Timed-input cs [] h = refl
Timed-input cs (w ∷ ws) h = absurd (omega arith)

if-other {ℓ} : {A : Type ℓ} (i j : ℕ) → i ≢ j → (x y : A) → (if i == j then x else y) ≡ y
if-other i j h x y = let no' : (i == j) ≡ false = ground arith in rw no' refl

true-not-false : true ≢ false
true-not-false h = cc h

waiting-more :
    (p : ℕ → Bool) (c : ℕ) (ws : List Write)
    → p c ≡ false
    → waiting p ws ≡ 0
    → waiting (update p c true) ws ≡ 0
waiting-more p c ws h z = omega (arith, waiting-update p c ws h)

-- Nothing else changes.
pub settle-rest :
    (c : ℕ) (s : Sched)
    → 1 ≤ s.max_step
    → (1 ≤ (settle c s).max_step)
      × ((settle c s).pend ≡ s.pend)
      × ((settle c s).queue ≡ s.queue)
      × ((settle c s).readers ≡ s.readers)
      × ((settle c s).done ≡ s.done)
unfolding settle
settle-rest c s big = elim (Bool-cases (complete_at s.cells c == 0)) [
  | inl gate ↦ rw gate (omega arith, refl, refl, refl, refl)
  | inr input ↦ rw input (big, refl, refl, refl, refl)
]

module _ (cells : List Cell) where
  -- The cells marked by `p` have left the queue. They have their steps, each after its source, and
  -- the other cells are still as they were.
  pub record Settled (p : ℕ → Bool) (cs : List Cell) (max_step : ℕ) : Type 0 where
    pub long : length cs ≡ length cells
    pub fresh : (j : ℕ) → p j ≡ false → cell_at cs j ≡ cell_at cells j
    pub addr : (j : ℕ) → (cell_at cs j).addr ≡ (cell_at cells j).addr
    pub same : (j : ℕ) → SameWrites (ins_at cs j) (ins_at cells j)
    pub timed : (j : ℕ) → p j ≡ true → Timed cs 1 (ins_at cs j) (complete_at cs j)
    pub early : (j : ℕ) → p j ≡ true → complete_at cs j ≤ max_step
    pub waits : (j : ℕ) → p j ≡ true → waiting p (ins_at cells j) ≡ 0

  module _ (p : ℕ → Bool) (c : ℕ) (s : Sched) (S : Settled p s.cells s.max_step) (new : p c ≡ false)
      (lt : c < length cells) (inside : (j : ℕ) → p j ≡ true → j < length cells)
      (ready : waiting p (ins_at cells c) ≡ 0) where
    -- An input is settled as it stands.
    settle-input :
        complete_at cells c ≡ 1
        → length (ins_at cells c) ≡ 0
        → 1 ≤ s.max_step
        → Settled (update p c true) (settle c s).cells (settle c s).max_step
    unfolding settle
    settle-input one' none' big =
        let here : complete_at s.cells c ≡ 1 =
          ap (λ (d : Cell). d.complete) (S.fresh c new) ∙ one' in
        let bare : length (ins_at s.cells c) ≡ 0 = (S.same c).many ∙ none' in
        let done : (complete_at s.cells c == 0) ≡ false = ground arith in
        rw done (record {
          long = S.long;
          fresh = λ j h. S.fresh j (ground arith);
          addr = S.addr;
          same = S.same;
          timed = λ j h. elim (ℕ_discrete c j) [
            | yes e ↦ rw (← e, here) (Timed-input s.cells (ins_at s.cells c) bare)
            | no e ↦ S.timed j (ground arith)
          ];
          early = λ j h. elim (ℕ_discrete c j) [
            | yes e ↦ rw (← e, here) big
            | no e ↦ S.early j (ground arith)
          ];
          waits = λ j h.
              waiting-more p c (ins_at cells j) new (elim (ℕ_discrete c j) [
                | yes e ↦ rw (← e) ready
                | no e ↦ S.waits j (ground arith)
              ]);
        })

    Settled-set :
        (cs : List Cell) (d : Cell) (last : ℕ)
        → length cs ≡ length s.cells
        → cell_at cs c ≡ d
        → ((j : ℕ) → c ≢ j → cell_at cs j ≡ cell_at s.cells j)
        → d.addr ≡ (cell_at cells c).addr
        → SameWrites d.ins (ins_at cells c)
        → Timed s.cells 1 d.ins d.complete
        → d.complete ≤ last
        → s.max_step ≤ last
        → Settled (update p c true) cs last
    Settled-set cs d last size here other at alike steps le more =
        let kept = λ (j : ℕ) (h : p j ≡ true). sym (
          ap (λ (x : Cell). x.complete)
            (other j (λ e. true-not-false (sym h ∙ ap p (sym e) ∙ new)))) in
        let size' : length s.cells ≡ length cs = sym size in
        record {
          long = size ∙ S.long;
          fresh = λ j h. elim (ℕ_discrete c j) [
            | yes e ↦ absurd (ground arith)
            | no e ↦ other j e ∙ S.fresh j (ground arith)
          ];
          addr = λ j. elim (ℕ_discrete c j) [
            | yes e ↦ rw (← e, here) at
            | no e ↦ ap (λ (x : Cell). x.addr) (other j e) ∙ S.addr j
          ];
          same = λ j. elim (ℕ_discrete c j) [
            | yes e ↦
                rw (← e) (subst (λ (x : Cell). SameWrites x.ins (ins_at cells c)) (sym here) alike)
            | no e ↦
                subst (λ (x : Cell). SameWrites x.ins (ins_at cells j)) (sym (other j e)) (S.same j)
          ];
          timed = λ j h. elim (ℕ_discrete c j) [
            | yes e ↦ rw (← e) (
                subst (λ (x : Cell). Timed cs 1 x.ins x.complete) (sym here)
                  (Timed-same p s.cells cs 1 d.ins d.complete size' kept (alike.waits p ∙ ready)
                    steps))
            | no e ↦
                let done : p j ≡ true = ground arith in
                subst (λ (x : Cell). Timed cs 1 x.ins x.complete) (sym (other j e))
                  (Timed-same p s.cells cs 1 (ins_at s.cells j) (complete_at s.cells j) size' kept
                    ((S.same j).waits p ∙ S.waits j done) (S.timed j done))
          ];
          early = λ j h. elim (ℕ_discrete c j) [
            | yes e ↦ rw (← e) (subst (λ (x : Cell). x.complete ≤ last) (sym here) le)
            | no e ↦
                let before = S.early j (ground arith) in
                subst (λ (x : Cell). x.complete ≤ last) (sym (other j e))
                  (omega (arith, before, more))
          ];
          waits = λ j h.
              waiting-more p c (ins_at cells j) new (elim (ℕ_discrete c j) [
                | yes e ↦ rw (← e) ready
                | no e ↦ S.waits j (ground arith)
              ]);
        }

    -- Any other cell gets its steps.
    settle-gate :
        complete_at cells c ≡ 0 → Settled (update p c true) (settle c s).cells (settle c s).max_step
    unfolding settle
    settle-gate zero' =
        let was : complete_at s.cells c ≡ 0 =
          ap (λ (d : Cell). d.complete) (S.fresh c new) ∙ zero' in
        let open' : (complete_at s.cells c == 0) ≡ true = ground arith in
        let sorted = stable_sort s.cells (ins_at s.cells c) in
        let given = assign_steps s.cells 1 sorted in
        let f = λ (x : Cell). record x { ins = given.0; complete = given.1 } in
        let none' : Cell = record { addr = 0; ins = []; complete = 0 } in
        let lt' : c < length s.cells = omega (arith, lt, S.long) in
        let at = λ (j : ℕ). get_or-modify s.cells c j f none' lt' in
        let order = stable_sort-SameWrites s.cells (ins_at s.cells c) in
        let wait : waiting p sorted ≡ 0 = order.waits p ∙ (S.same c).waits p ∙ ready in
        rw open' (
          Settled-set (modify s.cells c f) (f (cell_at s.cells c)) (max s.max_step given.1)
            (length-modify s.cells c f) (at c ∙ ground arith)
            (λ j e. at j ∙ if-other c j e (f (cell_at s.cells c)) (cell_at s.cells j)) (S.addr c)
            (SameWrites-trans _ _ _ (assign_steps-SameWrites s.cells 1 sorted)
              (SameWrites-trans _ _ _ order (S.same c)))
            (assign_steps-Timed s.cells p 1 sorted (λ j h. omega (arith, inside j h, S.long)) wait)
            (omega arith) (omega arith))

    -- Either way, where an input has no writes and any other cell has not been scheduled.
    pub settle-Settled :
        (complete_at cells c ≡ 0) ⊎ (complete_at cells c ≡ 1)
        → (complete_at cells c == 1) ≡ (length (ins_at cells c) == 0)
        → 1 ≤ s.max_step
        → Settled (update p c true) (settle c s).cells (settle c s).max_step
    settle-Settled (inl gate) shape big = settle-gate gate
    settle-Settled (inr input) shape big = settle-input input (ground arith) big
