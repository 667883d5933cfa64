-- ===== src/Rom/Built.antt =====
-- The first half of `build_round` (src/server/ROM.cpp): both lanes fit into a page, and their netlist has a
-- schedule.
use hsq_over_nand.Base.{
  ℕ, zero, suc, ◌+◌, ◌-◌, ◌*◌, ◌≤◌, ◌<◌, ◌≡◌, refl, sym, ap, ◌∙◌, ◌⊎◌, some, List, [], ◌∷◌, ◌++◌,
  length, length-append, leb, arith, ◌>>=◌, true, get_elem?-append,
}
use hsq_over_nand.Netlist.{Write, Cell, Netlist}
use hsq_over_nand.Netlist.Grow.{IsInput, IsGate, Tidy, IsTidy}
use hsq_over_nand.Schedule.{cell_at}
use hsq_over_nand.Schedule.Correct.{Schedules}
use hsq_over_nand.Schedule.Returns.{schedule-returns}
use hsq_over_nand.Lane.{Lane, build_lane, index_at, digit}
use hsq_over_nand.Lane.Correct.{IsLane}
use hsq_over_nand.Lane.Subtraction.{build_lane-returns}
use hsq_over_nand.Lane.Inputs.{LaneBuilt, build_lane-LaneBuilt}
use hsq_over_nand.Cpu.Step.{cell_at-eq, get_elem?-cell_at, get_elem?-lt}
use hsq_over_nand.Cpu.Operands.{Rising}
use hsq_over_nand.Cpu.Round.{IsRound}
use hsq_over_nand.Rom.{ram, page_siz, Round, build_netlist}

-- What a tidy netlist has at an index.
Tidy-at :
    (base k : ℕ) (cs : List Cell) (j i : ℕ)
    → Tidy base k cs
    → j < length cs
    → k + j ≡ i
    → ((cell_at cs j).addr ≡ base + i) × (IsInput (cell_at cs j) ⊎ IsGate i (cell_at cs j))
Tidy-at base k [] j i h lt e = absurd (omega arith)
Tidy-at base k (c ∷ cs) zero i h lt e = let e' : k ≡ i = omega arith in rw (← e') (h.0, h.1)
Tidy-at base k (c ∷ cs) (suc j) i h lt e =
    Tidy-at base (k + 1) cs j i h.2 (omega arith) (omega arith)

module _ (base : ℕ) (cs : List Cell) (h : Tidy base 0 cs) where
  kind_at : (j : ℕ) → j < length cs → IsInput (cell_at cs j) ⊎ IsGate j (cell_at cs j)
  kind_at j lt = (Tidy-at base 0 cs j j h lt (omega arith)).1

-- A lane whose input cells stand in pairs from `k` on.
pairs-Rising :
    (l : Lane) (k hi : ℕ)
    → ((i : ℕ) → i < digit → index_at l.ain i ≡ k + 2 * i)
    → ((i : ℕ) → i < digit → index_at l.bin i ≡ k + 2 * i + 1)
    → (n i lo : ℕ) → i + n ≤ digit
    → lo ≤ k + 2 * i
    → k + 2 * (i + n) ≤ hi
    → Rising l lo hi i n
unfolding Rising
pairs-Rising l k hi a b zero i lo le low high = omega arith
pairs-Rising l k hi a b (suc n) i lo le low high =
    let x = a i (omega arith) in
    let y = b i (omega arith) in
    (
      omega (arith, x, low),
      omega (arith, x, y),
      pairs-Rising l k hi a b n (i + 1) (index_at l.bin i + 1) (omega arith) (omega (arith, y))
          (omega arith),
    )

length-zero : (ws : List Write) → length ws ≡ 0 → ws ≡ []
length-zero [] h = refl
length-zero (w ∷ ws) h = absurd (omega arith)

-- The round that `build_round` makes: its lanes one after another, and the schedule of their netlist.
pub record RoundBuilt (r : Round) : Type 0 where
  pub middle : Netlist
  pub whole : Netlist
  pub first_built : build_lane (record { cells = []; calc_addr = ram }) ≡ some (r.first, middle)
  pub second_built : build_lane middle ≡ some (r.second, whole)
  pub first_lane : IsLane r.first
  pub second_lane : IsLane r.second
  pub first : LaneBuilt ram (record { cells = []; calc_addr = ram }) middle r.first
  pub second : LaneBuilt ram middle whole r.second
  pub schedules : Schedules whole.cells r.cells r.steps
  pub base : r.page_base ≡ ram

-- The first half of `build_round` returns.
pub build_netlist-returns : (r : Round) × (build_netlist ram ≡ some r) × RoundBuilt r
unfolding build_netlist ◌>>=◌
build_netlist-returns =
    let n₀ : Netlist = record { cells = []; calc_addr = ram } in
    let t₀ : IsTidy ram n₀ = record { tidy = tt; counter = refl } in
    let (x, n₁, e₁, lane₁) = build_lane-returns n₀ in
    let B₁ = build_lane-LaneBuilt ram n₀ n₁ x t₀ (omega arith) e₁ in
    let len₁ : length n₁.cells ≡ length B₁.new = ap length B₁.grown in
    let (y, n₂, e₂, lane₂) = build_lane-returns n₁ in
    let B₂ = build_lane-LaneBuilt ram n₁ n₂ y B₁.tidy (omega (arith, len₁, B₁.size)) e₂ in
    let len₂ : length n₂.cells ≡ length n₁.cells + length B₂.new =
      ap length B₂.grown ∙ length-append n₁.cells B₂.new in
    let (cells, steps, e₃, schedules) =
      schedule-returns n₂.cells (kind_at ram n₂.cells B₂.tidy.tidy) in
    let fits : leb (n₂.calc_addr - ram) page_siz ≡ true =
      ground (arith, B₂.tidy.counter, len₂, len₁, B₁.size, B₂.size) in
    let r : Round = record {
      cells = cells;
      first = x;
      second = y;
      steps = steps;
      page_base = ram;
      calc_addr = n₂.calc_addr;
    } in
    (
      r,
      rw (e₁, e₂, e₃, fits) refl,
      record {
        middle = n₁;
        whole = n₂;
        first_built = e₁;
        second_built = e₂;
        first_lane = lane₁;
        second_lane = lane₂;
        first = B₁;
        second = B₂;
        schedules = schedules;
        base = refl;
      },
    )

module _ (r : Round) (B : RoundBuilt r) where
  length-middle : length B.middle.cells ≡ length B.first.new
  length-middle = ap length B.first.grown

  pub length-whole : length B.whole.cells ≡ length B.middle.cells + length B.second.new
  length-whole = ap length B.second.grown ∙ length-append B.middle.cells B.second.new

  -- An input of the netlist is none the less one after the scheduling.
  still_input : (j : ℕ) → (cell_at B.whole.cells j).ins ≡ [] → (cell_at r.cells j).ins ≡ []
  still_input j e = length-zero _ ((B.schedules.same j).many ∙ ap length e)

  -- The inputs of the first lane are not changed by the second one.
  first_inputs : (j : ℕ) → j < 128 → (cell_at B.whole.cells j).ins ≡ []
  first_inputs j lt =
      let there : j < length B.middle.cells = omega (arith, length-middle, B.first.many, lt) in
      let at =
        get_elem?-append B.middle.cells B.second.new j _
          (get_elem?-cell_at B.middle.cells j there) in
      ap (λ cs. (cell_at cs j).ins) B.second.grown
      ∙ ap (λ (c : Cell). c.ins) (cell_at-eq (B.middle.cells ++ B.second.new) j _ at)
      ∙ B.first.inputs j (omega arith) (omega (arith, lt))

  pub RoundBuilt-small : length r.cells ≤ page_siz
  RoundBuilt-small =
      omega (arith, B.schedules.long, length-whole, length-middle, B.first.size, B.second.size)

  -- The round that is built is one that the CPU can execute.
  pub RoundBuilt-IsRound : IsRound r
  RoundBuilt-IsRound = record {
    scheduled = B.schedules.scheduled;
    in_page = λ j c at.
        let lt : j < length B.whole.cells =
          omega (arith, get_elem?-lt r.cells j c at, B.schedules.long) in
        ap (λ (d : Cell). d.addr) (sym (cell_at-eq r.cells j c at))
        ∙ B.schedules.addr j
        ∙ (Tidy-at ram 0 B.whole.cells j j B.second.tidy.tidy lt (omega arith)).0;
    small = RoundBuilt-small;
    base = B.base;
    begins = B.schedules.begins;
    middle = length B.middle.cells;
    first_inputs = record {
      rising =
          pairs-Rising r.first 0 (length B.middle.cells) B.first.ain B.first.bin digit 0 0
            (omega arith) (omega arith) (omega (arith, length-middle, B.first.many));
      a_inputs = λ i lt. still_input _ (first_inputs _ (omega (arith, B.first.ain i lt, lt)));
      b_inputs = λ i lt. still_input _ (first_inputs _ (omega (arith, B.first.bin i lt, lt)));
    };
    second_inputs = record {
      rising =
          pairs-Rising r.second (length B.middle.cells) (length r.cells) B.second.ain B.second.bin
            digit 0 (length B.middle.cells) (omega arith) (omega arith)
            (omega (arith, B.schedules.long, length-whole, B.second.many));
      a_inputs = λ i lt. still_input _ (
          B.second.inputs _ (omega (arith, B.second.ain i lt))
            (omega (arith, B.second.ain i lt, lt)));
      b_inputs = λ i lt. still_input _ (
          B.second.inputs _ (omega (arith, B.second.bin i lt))
            (omega (arith, B.second.bin i lt, lt)));
    };
    first_sums = B.first_lane.sums;
    second_sums = B.second_lane.sums;
  }
