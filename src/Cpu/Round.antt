-- ===== src/Cpu/Round.antt =====
-- A whole round on the CPU: the instructions of `build_round` (src/server/ROM.cpp), from the CAP_IN to the
-- RAISE of the last lane, executed by src/server/cpu.cpp.
use hsq_over_nand.Base.{
  ℕ, ◌^◌, ◌≤◌, ◌<◌, ◌≡◌, ◌≢◌, refl, sym, ap, ◌∙◌, Bool, true, false, List, [], ◌∷◌, length, ◌==◌,
  arith,
}
use hsq_over_nand.Nand.{Nand, Buffer, blank}
use hsq_over_nand.Netlist.{Write, Cell}
use hsq_over_nand.Netlist.Meaning.{value, Sat}
use hsq_over_nand.Word.{word_of}
use hsq_over_nand.Word.Shift.{bit_at}
use hsq_over_nand.Schedule.{cell_at}
use hsq_over_nand.Schedule.Valid.{InPage, IsScheduled}
use hsq_over_nand.Schedule.Evaluate.{IsScheduled-satisfied}
use hsq_over_nand.Lane.{Lane, index_at, digit}
use hsq_over_nand.Lane.Lookahead.{values}
use hsq_over_nand.Lane.Correct.{operand}
use hsq_over_nand.Rom.{ram, page_siz, Round}
use hsq_over_nand.Cpu.{Cpu}
use hsq_over_nand.Cpu.Page.{byte_of}
use hsq_over_nand.Cpu.Load.{loaded, Inside}
use hsq_over_nand.Cpu.Operands.{
  Rising, Rising-between, IsBits, loaded-IsBits, loaded-other, loaded-outside, loaded-bits,
}

-- The input cells of a lane: they rise from `lo`, below `hi`, and are not written.
pub record Reads (cells : List Cell) (l : Lane) (lo hi : ℕ) : Type 0 where
  pub rising : Rising l lo hi 0 digit
  pub a_inputs : (i : ℕ) → i < digit → (cell_at cells (index_at l.ain i)).ins ≡ []
  pub b_inputs : (i : ℕ) → i < digit → (cell_at cells (index_at l.bin i)).ins ≡ []

-- A round whose netlist is scheduled and lies in the page behind the ROM.
pub record IsRound (r : Round) : Type 0 where
  pub scheduled : IsScheduled r.cells r.steps
  pub in_page : InPage r.cells ram
  pub small : length r.cells ≤ page_siz
  pub base : r.page_base ≡ ram
  pub begins : 1 ≤ r.steps
  pub middle : ℕ
  pub first_inputs : Reads r.cells r.first 0 middle
  pub second_inputs : Reads r.cells r.second middle (length r.cells)
  pub first_sums : length r.first.sum ≡ digit
  pub second_sums : length r.second.sum ≡ digit

-- The registers of the CPU are words of 64 bits.
pub record AreWords {N : Nand} (s : Cpu N) : Type 0 where
  pub in_a : (l : ℕ) → s.in_a l < 2 ^ 64
  pub in_b : (l : ℕ) → s.in_b l < 2 ^ 64
  pub out : (l : ℕ) → s.out l < 2 ^ 64

-- What the CPU `t` reports of the lane `l`, number `m`, is what the netlist computes from the operands that
-- the CPU `s` held, when its cells have the values `v`.
pub record Reports {N : Nand} (v : ℕ → Bool) (l : Lane) (m : ℕ) (s t : Cpu N) : Type 0 where
  pub operand_a : operand v l.ain ≡ s.in_a m
  pub operand_b : operand v l.bin ≡ s.in_b m
  pub sum : t.out m ≡ word_of (values v l.sum) 64
  pub jump : t.is_jmp m ≡ value v l.is_jmp

nil-not-cons : (w : Write) (ws : List Write) → ◌≢◌ {A = List Write} [] (w ∷ ws)
nil-not-cons w ws h = cc h

pub Reads-Inside :
    (cells : List Cell) (l : Lane) (lo hi : ℕ)
    → Reads cells l lo hi
    → hi ≤ length cells
    → Inside cells l
Reads-Inside cells l lo hi h le i lt =
    let b = Rising-between l lo hi 0 digit i i h.rising lt (omega arith) in
    (omega (arith, b.1, le), omega (arith, b.3, le))

pub byte_test : (b : Bool) → (byte_of b == 0xff) ≡ b
byte_test true = refl
byte_test false = refl

module _ (r : Round) (R : IsRound r) (a b a' b' : ℕ) where
  -- The page buffer after the GET_INs of the operands `a` and `b`, `a'` and `b'`.
  abbrev pub page_in : Buffer
  page_in = loaded r.second a' b' 0 digit (loaded r.first a b 0 digit blank)

  pub page_in-IsBits : IsBits page_in
  page_in-IsBits =
      loaded-IsBits r.second a' b' 0 digit _ (loaded-IsBits r.first a b 0 digit blank (λ j. refl))

  pub page_in-first :
      (i : ℕ)
      → i < digit
      → (page_in (index_at r.first.ain i) ≡ byte_of (bit_at a i))
        × (page_in (index_at r.first.bin i) ≡ byte_of (bit_at b i))
  page_in-first i lt =
      let B =
        Rising-between r.first 0 R.middle 0 digit i i R.first_inputs.rising lt (omega arith) in
      let L =
        loaded-bits r.first a b 0 R.middle 0 digit i i blank R.first_inputs.rising lt
          (omega arith) in
      let past = λ (j : ℕ) (below : j < R.middle).
        loaded-outside r.second a' b' R.middle (length r.cells) 0 digit j
          (loaded r.first a b 0 digit blank) R.second_inputs.rising below in
      (past _ B.1 ∙ L.0, past _ B.3 ∙ L.1)

  pub page_in-second :
      (i : ℕ)
      → i < digit
      → (page_in (index_at r.second.ain i) ≡ byte_of (bit_at a' i))
        × (page_in (index_at r.second.bin i) ≡ byte_of (bit_at b' i))
  page_in-second i lt =
      loaded-bits r.second a' b' R.middle (length r.cells) 0 digit i i _ R.second_inputs.rising lt
        (omega arith)

  -- The cells of the gates are left blank.
  pub page_in-gate :
      (j : ℕ) (w : Write) (ws : List Write) → (cell_at r.cells j).ins ≡ w ∷ ws → page_in j ≡ 0xff
  page_in-gate j w ws e =
      let apart = λ (k : ℕ) (input : (cell_at r.cells k).ins ≡ []) (same : k ≡ j).
        nil-not-cons w ws (sym input ∙ ap (λ (i : ℕ). (cell_at r.cells i).ins) same ∙ e) in
      loaded-other r.second a' b' 0 digit j _ (λ k le lt.
        (apart _ (R.second_inputs.a_inputs k lt), apart _ (R.second_inputs.b_inputs k lt)))
      ∙ loaded-other r.first a b 0 digit j blank (λ k le lt.
        (apart _ (R.first_inputs.a_inputs k lt), apart _ (R.first_inputs.b_inputs k lt)))

  -- Values of the cells that fit the netlist and the operands.
  pub record Fits (v : ℕ → Bool) : Type 0 where
    pub sat : Sat v r.cells
    pub inputs : (i : ℕ) → (cell_at r.cells i).ins ≡ [] → v i ≡ (page_in i == 0xff)

  pub fitting : (v : ℕ → Bool) × Fits v
  fitting =
      let (v, sat, inputs) =
        IsScheduled-satisfied r.cells (λ i. page_in i == 0xff) r.steps R.scheduled in
      (v, record { sat = sat; inputs = inputs })

  pub Fits-bit :
      (v : ℕ → Bool) (i : ℕ) (x : Bool)
      → Fits v
      → (cell_at r.cells i).ins ≡ []
      → page_in i ≡ byte_of x
      → v i ≡ x
  Fits-bit v i x F input e = F.inputs i input ∙ ap (λ (y : ℕ). y == 0xff) e ∙ byte_test x
