-- ===== src/Lane.antt =====
-- `build_lane` of src/server/ROM.cpp: the 64-bit subtraction `b - a` as a gate network, with a
-- borrow look-ahead of three levels (4 bits, 4 groups, 4 super groups).
pub mod Borrow
pub mod Lookahead
pub mod Collect
pub mod IsJmp
pub mod Levels
pub mod Correct
pub mod Subtraction
pub mod Grow
pub mod GrowParts
pub mod GrowLane
pub mod Inputs
mod Tests
use hsq_over_nand.Base.{
  ℕ, zero, suc, ◌+◌, ◌*◌, ◌/◌, ◌%◌, true, false, List, [], ◌∷◌, ◌++◌, map, get_or, ltb,
}
use hsq_over_nand.Netlist.{
  Sig, not_sig, Build, pure, ◌>>=◌, ◌>>◌, input, cell, wire, and_of, or_of, xor_of, buf,
}

abbrev pub digit : ℕ
digit = 64

-- A pointer into an array of signals is the array with an offset; every index that the code
-- forms lies within its array, so the default is never read.
abbrev pub sig_at : List Sig → ℕ → Sig
sig_at xs i = get_or xs i (record { cell = 0; inv = false })

-- `for(int i = from; i < from + n; i++) v.push_back(body(i));`
pub collect : {A : Type 0} → ℕ → ℕ → (ℕ → Build A) → Build (List A)
collect zero i body = pure []
collect (suc n) i body = do a ← body i; as' ← collect n (i + 1) body; pure (a ∷ as')

-- `for(int m = k - 1; m > j; m--) f.push_back(P[m]); f.push_back(last);`
pub factors : List Sig → ℕ → ℕ → ℕ → Sig → List Sig
factors p off zero j last = last ∷ []
factors p off (suc m) j last = elim (ltb j m) [
  | true ↦ sig_at p (off + m) ∷ factors p off m j last
  | false ↦ last ∷ []
]

-- The same down to `m = 0`.
pub all_factors : List Sig → ℕ → ℕ → Sig → List Sig
all_factors p off zero last = last ∷ []
all_factors p off (suc m) last = sig_at p (off + m) ∷ all_factors p off m last

-- The loop over `j` from `j - 1` down to 0 that collects the terms of a look-ahead of `k` places.
pub terms : List Sig → List Sig → ℕ → ℕ → ℕ → Build (List Sig)
terms g p off k zero = pure []
terms g p off k (suc j) = do
  t ← and_of (factors p off k j (sig_at g (off + j)))
  ts ← terms g p off k j
  pure (t ∷ ts)

-- `claBorrow(&G[off], &P[off], borIn, k)`.
pub cla_borrow : List Sig → List Sig → ℕ → Sig → ℕ → Build Sig
cla_borrow g p off bor_in zero = pure bor_in
cla_borrow g p off bor_in (suc k) = do
  ts ← terms g p off (suc k) (suc k)
  t ← and_of (all_factors p off (suc k) bor_in)
  or_of (ts ++ t ∷ [])

-- `claGroup(&G[off], &P[off], &gg, &gp)`.
pub cla_group : List Sig → List Sig → ℕ → Build (Sig × Sig)
cla_group g p off = do
  ts ← terms g p off 4 4
  gg ← or_of ts
  gp ←
      and_of
        (sig_at p (off + 3) ∷ sig_at p (off + 2) ∷ sig_at p (off + 1) ∷ sig_at p (off + 0) ∷ [])
  pure (gg, gp)

-- `x[i]` and `g[i]`.
pub half_adder : ℕ → ℕ → Build (Sig × Sig)
half_adder a b = do
  x ← xor_of (record { cell = a; inv = false }) (record { cell = b; inv = false })
  g ← and_of (record { cell = a; inv = false } ∷ record { cell = b; inv = true } ∷ [])
  pure (x, g)

-- `sum[i]`, with `k = i / 4` and `u = i % 4`; the lowest bit has no borrow.
pub sum_bit : List Sig → List Sig → List Sig → List Sig → ℕ → Build Sig
sum_bit x g p bgrp zero = pure (sig_at x 0)
sum_bit x g p bgrp (suc j) = do
  let i = suc j
  bor ← cla_borrow g p (4 * (i / 4)) (sig_at bgrp (i / 4)) (i % 4)
  xor_of (sig_at x i) bor

-- `for(int i = k; i < k + 8; i++) net.wire(acc, sum[i], true);`
pub wire_inverted : ℕ → List Sig → ℕ → ℕ → Build (Unit {0})
wire_inverted acc sum i zero = pure tt
wire_inverted acc sum i (suc n) = do wire acc (sig_at sum i) true; wire_inverted acc sum (i + 1) n

pub zero_byte : List Sig → ℕ → Build Sig
unfolding wire_inverted
zero_byte sum k = do
  acc ← cell
  wire_inverted acc sum (8 * k) 8
  pure (record { cell = acc; inv = false })

pub is_jmp_of : List Sig → Build Sig
is_jmp_of sum = do
  accs ← collect (digit / 8) 0 (zero_byte sum)
  all_zero ← and_of accs
  o ← or_of (all_zero ∷ sig_at sum 63 ∷ [])
  buf o

pub record Lane : Type 0 where
  pub ain : List ℕ
  pub bin : List ℕ
  pub sum : List Sig
  pub is_jmp : Sig

abbrev pub index_at : List ℕ → ℕ → ℕ
index_at xs i = get_or xs i 0

abbrev pub input_pair : Build (ℕ × ℕ)
input_pair = do a ← input; b ← input; pure (a, b)

-- The nested loops over groups and places run in the order of `i = 4 * k + u`.
pub build_lane : Build Lane
build_lane = do
  ins ← collect digit 0 (λ i. input_pair)
  let ain = map (λ q. q.0) ins
  let bin = map (λ q. q.1) ins
  zero_sig ← and_of (
      record { cell = index_at bin 0; inv = false }
      ∷ record { cell = index_at bin 0; inv = true }
      ∷ [])
  xg ← collect digit 0 (λ i. half_adder (index_at ain i) (index_at bin i))
  let x = map (λ q. q.0) xg
  let g = map (λ q. q.1) xg
  let p = map not_sig x
  g1 ← collect (digit / 4) 0 (λ k. cla_group g p (4 * k))
  let gg1 = map (λ q. q.0) g1
  let gp1 = map (λ q. q.1) g1
  g2 ← collect (digit / 16) 0 (λ s. cla_group gg1 gp1 (4 * s))
  let gg2 = map (λ q. q.0) g2
  let gp2 = map (λ q. q.1) g2
  bsup ← collect (digit / 16) 0 (λ s. cla_borrow gg2 gp2 0 zero_sig s)
  bgrp ← collect (digit / 4) 0 (λ i. cla_borrow gg1 gp1 (4 * (i / 4)) (sig_at bsup (i / 4)) (i % 4))
  sum ← collect digit 0 (sum_bit x g p bgrp)
  is_jmp ← is_jmp_of sum
  pure (record { ain = ain; bin = bin; sum = sum; is_jmp = is_jmp })
