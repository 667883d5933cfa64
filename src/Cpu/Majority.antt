-- ===== src/Cpu/Majority.antt =====
-- `majorityVote` of src/server/cpu.cpp against bits that have flipped on the flash.
use hsq_over_nand.Base.{
  ℕ, zero, suc, ◌+◌, ◌/◌, ◌%◌, ◌^◌, ◌≤◌, ◌<◌, ◌≡◌, refl, Bool, true, false, not, leb, ◌==◌,
  if◌then◌else◌, arith, all_below, all_below_lem,
}
use hsq_over_nand.Cpu.{count_bits, majority_vote}
use hsq_over_nand.Cpu.Page.{byte_of}

-- The number of the lowest `n` bits in which two numbers differ.
unfoldable pub differing : ℕ → ℕ → ℕ → ℕ
differing zero x y = 0
differing (suc n) x y = (if x % 2 == y % 2 then 0 else 1) + differing n (x / 2) (y / 2)

reads : Bool → ℕ → Bool
reads b x =
    if leb (differing 8 x (byte_of b)) 3
    then (if b then majority_vote x else not (majority_vote x))
    else true

reads_table : (b : Bool) → all_below 256 (reads b) ≡ true
unfolding reads all_below differing majority_vote count_bits
reads_table true = refl
reads_table false = refl

reads_lem :
    (b : Bool) (x : ℕ) → reads b x ≡ true → differing 8 x (byte_of b) ≤ 3 → majority_vote x ≡ b
unfolding reads
reads_lem true x h near = ground (arith, h, near)
reads_lem false x h near = ground (arith, h, near)

-- A byte that was written for a bit is read as this bit, where at most three of its eight bits have
-- changed since.
pub majority_vote-corrects :
    (b : Bool) (x : ℕ) → x < 2 ^ 8 → differing 8 x (byte_of b) ≤ 3 → majority_vote x ≡ b
majority_vote-corrects b x h near =
    reads_lem b x (all_below_lem 256 (reads b) x (reads_table b) (omega (arith, h))) near
