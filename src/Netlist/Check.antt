-- ===== src/Netlist/Check.antt =====
-- The test whether given values fit a netlist.
use hsq_over_nand.Base.{
  ℕ, zero, suc, ◌+◌, ◌≡◌, Bool, true, not, ◌&&◌, some, List, [], ◌∷◌, get_elem?, if◌then◌else◌,
  arith, and-elim,
}
use hsq_over_nand.Netlist.{Write, Cell}
use hsq_over_nand.Netlist.Meaning.{ins_value, Holds, Sat}

-- Equality of two bits.
unfoldable pub same : Bool → Bool → Bool
same x y = if x then y else not y

unfoldable pub holds : (ℕ → Bool) → ℕ → List Write → Bool
unfolding same
holds v i [] = true
holds v i (w ∷ ws) = same (v i) (ins_value v (w ∷ ws))

unfoldable pub all_hold : (ℕ → Bool) → ℕ → List Cell → Bool
unfolding holds
all_hold v i [] = true
all_hold v i (c ∷ cs) = holds v i c.ins && all_hold v (i + 1) cs

holds_lem : (v : ℕ → Bool) (i : ℕ) (ws : List Write) → holds v i ws ≡ true → Holds v i ws
unfolding holds same
holds_lem v i [] h = tt
holds_lem v i (w ∷ ws) h = ground (arith, h)

all_hold_lem :
    (v : ℕ → Bool) (i : ℕ) (cells : List Cell)
    → all_hold v i cells ≡ true
    → (j k : ℕ) (c : Cell) → get_elem? cells j ≡ some c
    → i + j ≡ k
    → Holds v k c.ins
unfolding all_hold
all_hold_lem v i [] h j k c e f = cc
all_hold_lem v i (d ∷ cs) h zero k c e f =
    let e' : d ≡ c = cc e in
    let f' : i ≡ k = omega (arith, f) in rw (← e', ← f') (holds_lem v i d.ins (and-elim _ _ h).0)
all_hold_lem v i (d ∷ cs) h (suc j) k c e f =
    all_hold_lem v (i + 1) cs (and-elim _ _ h).1 j k c e (omega (arith, f))

pub all_hold-Sat : (v : ℕ → Bool) (cells : List Cell) → all_hold v 0 cells ≡ true → Sat v cells
all_hold-Sat v cells h i c e = all_hold_lem v 0 cells h i i c e (omega arith)
