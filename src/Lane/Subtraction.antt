-- ===== src/Lane/Subtraction.antt =====
-- `build_lane` of src/server/ROM.cpp as a circuit: it is always built, and it subtracts.
use hsq_over_nand.Base.{ℕ, ◌≡◌, Bool, some, false, List}
use hsq_over_nand.Netlist.{Sig, Netlist}
use hsq_over_nand.Netlist.Meaning.{Sat, value, Any, Built, Builds-result}
use hsq_over_nand.Word.{word_of, sub64, is_non_positive}
use hsq_over_nand.Lane.{Lane, build_lane, cla_borrow}
use hsq_over_nand.Lane.Lookahead.{values, values_at, cla_borrow_lem}
use hsq_over_nand.Lane.Borrow.{borrow}
use hsq_over_nand.Lane.Correct.{IsLane, Subtracts, operand, build_lane_lem}

-- On every netlist `build_lane` runs to its end without a failed assertion, and leaves 64 inputs for
-- each operand, 64 sum signals and a jump signal that are read as they stand.
pub build_lane-returns :
    (n : Netlist) → (l : Lane) × (n' : Netlist) × (build_lane n ≡ some (l, n')) × IsLane l
build_lane-returns n = (o.result, o.after, o.returns, o.shape)
  where
    o : Built (λ i. false) IsLane (Subtracts (λ i. false)) n (build_lane n)
    o = build_lane_lem (λ i. false) n

-- Where every cell of the finished netlist holds the AND of its writes, the sum signals are the
-- 64-bit word `b - a`, modulo `2 ^ 64`, and the jump signal says whether it is zero or negative.
pub build_lane-subtracts :
    (v : ℕ → Bool) (n n' : Netlist) (l : Lane)
    → build_lane n ≡ some (l, n')
    → Sat v n'.cells
    → (word_of (values v l.sum) 64 ≡ sub64 (operand v l.ain) (operand v l.bin))
      × (value v l.is_jmp ≡ is_non_positive (sub64 (operand v l.ain) (operand v l.bin)))
build_lane-subtracts v n n' l e h =
    (Builds-result v IsLane (Subtracts v) build_lane n n' l (build_lane_lem v) e h).1

-- Where the cells hold the ANDs of their writes, `claBorrow` gives the borrow into place `k` of its
-- window that the place-by-place recursion gives.
pub cla_borrow-borrows :
    (v : ℕ → Bool) (g p : List Sig) (off : ℕ) (bor_in : Sig) (k : ℕ) (n n' : Netlist) (s : Sig)
    → cla_borrow g p off bor_in k n ≡ some (s, n')
    → Sat v n'.cells
    → value v s ≡ borrow (values_at v g off) (values_at v p off) (value v bor_in) k
cla_borrow-borrows v g p off bor_in k n n' s e h =
    (Builds-result v Any
      (λ s. value v s ≡ borrow (values_at v g off) (values_at v p off) (value v bor_in) k)
      (cla_borrow g p off bor_in k) n n' s (cla_borrow_lem v g p off bor_in k) e h).1
