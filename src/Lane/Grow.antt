-- ===== src/Lane/Grow.antt =====
-- The parts of `build_lane` (src/server/ROM.cpp) keep a netlist tidy, and take the cells counted here.
use hsq_over_nand.Base.{
  ℕ, zero, suc, ◌+◌, ◌*◌, ◌≤◌, ◌<◌, ◌≡◌, refl, false, inl, inr, List, [], ◌∷◌, ltb, Bool-cases,
  arith,
}
use hsq_over_nand.Netlist.{Sig, Build, pure, ◌>>=◌, and_of}
use hsq_over_nand.Netlist.Grow.{
  Grows, Grows-pure, Grows-bind, Grows-weaken, In, All, All-weaken, All-get_or,
}
use hsq_over_nand.Netlist.GrowGates.{and_of_one-Grows, and_of-Grows}
use hsq_over_nand.Lane.{sig_at, collect, factors, all_factors, terms}

pub sig_at-In : (k i : ℕ) (xs : List Sig) → 0 < k → All (In k) xs → In k (sig_at xs i)
sig_at-In k i xs lt h = All-get_or (In k) xs i (record { cell = 0; inv = false }) lt h

suc_times : (n c : ℕ) → suc n * c ≡ c + n * c
suc_times n c = grind arith

-- A loop of `n` rounds with at most `c` cells each.
pub collect-Grows :
    (base : ℕ) {A : Type 0} (body : ℕ → Build A) (c : ℕ) (S : ℕ → A → Type 0)
    → ((k j : ℕ) (a : A) → k ≤ j → S k a → S j a)
    → (n lo i : ℕ) → ((k j : ℕ) → lo ≤ k → i ≤ j → j < i + n → Grows base k (body j) c S)
    → Grows base lo (collect n i body) (n * c) (λ k l. All (S k) l)
unfolding collect
collect-Grows base body c S mono zero lo i h =
    Grows-weaken base lo lo 0 (0 * c) (pure []) (λ k l. All (S k) l) (λ k l. All (S k) l)
      (Grows-pure base lo [] (λ k l. All (S k) l) (λ k le. tt)) (omega arith) (omega arith)
      (λ k a le p. p)
collect-Grows base body c S mono (suc n) lo i h =
    let cost : c + (n * c + 0) ≤ suc n * c = omega (arith, suc_times n c) in
    Grows-weaken base lo lo (c + (n * c + 0)) (suc n * c) _ (λ k l. All (S k) l)
      (λ k l. All (S k) l)
      (Grows-bind base lo (body i) _ c (n * c + 0) S (λ k l. All (S k) l)
        (h lo i (omega arith) (omega arith) (omega arith))
        λ a k le ha.
          Grows-bind base k (collect n (i + 1) body) _ (n * c) 0 (λ k l. All (S k) l)
            (λ k l. All (S k) l)
            (collect-Grows base body c S mono n k (i + 1)
              (λ k' j le' low high. h k' j (omega arith) (omega arith) (omega arith)))
            λ l k' le' hl.
              Grows-pure base k' (a ∷ l) (λ k l. All (S k) l)
                λ k'' le''. (
                  mono k k'' a (omega arith) ha,
                  All-weaken (S k') (S k'') l (λ x p. mono k' k'' x le'' p) hl,
                ))
      (omega arith) cost (λ k a le p. p)

module _ (k : ℕ) (p : List Sig) (off : ℕ) (last : Sig) (some' : 0 < k) (hp : All (In k) p)
    (hl : In k last) where
  factors-In : (m j : ℕ) → All (In k) (factors p off m j last)
  unfolding factors
  factors-In zero j = (hl, tt)
  factors-In (suc m) j = elim (Bool-cases (ltb j m)) [
    | inl more ↦ rw (more, factors) (sig_at-In k (off + m) p some' hp, factors-In m j)
    | inr done ↦ rw (done, factors) (hl, tt)
  ]

  pub lookahead_factors-In : (m : ℕ) → All (In k) (all_factors p off m last)
  unfolding all_factors
  lookahead_factors-In zero = (hl, tt)
  lookahead_factors-In (suc m) = (sig_at-In k (off + m) p some' hp, lookahead_factors-In m)

-- The first term of all is a single signal.
factors-first : (p : List Sig) (off j : ℕ) (last : Sig) → factors p off (suc j) j last ≡ last ∷ []
unfolding factors
factors-first p off j last = let done : ltb j j ≡ false = ground arith in rw (done, factors) refl

module _ (base : ℕ) (g p : List Sig) (off : ℕ) where
  -- One term before the others.
  rest_terms :
      (k j lo : ℕ)
      → 0 < lo
      → All (In lo) g
      → All (In lo) p
      → ((lo' : ℕ) → lo ≤ lo' → Grows base lo' (terms g p off k j) j (λ k l. All (In k) l))
      → (t : Sig) (lo' : ℕ) → lo ≤ lo'
      → In lo' t
      → Grows base lo' (do ts ← terms g p off k j; pure (t ∷ ts)) (j + 0) (λ k l. All (In k) l)
  rest_terms k j lo some' hg hp ih t lo' le ht =
      Grows-bind base lo' _ _ j 0 (λ k l. All (In k) l) (λ k l. All (In k) l) (ih lo' le)
        λ ts k' le' hts.
          Grows-pure base k' (t ∷ ts) (λ k l. All (In k) l)
            λ k'' le''. (omega arith, All-weaken (In k') (In k'') ts (λ s q. omega arith) hts)

  terms-Grows :
      (k j lo : ℕ)
      → 0 < lo
      → All (In lo) g
      → All (In lo) p
      → Grows base lo (terms g p off k j) j (λ k l. All (In k) l)
  unfolding terms
  terms-Grows k zero lo some' hg hp = Grows-pure base lo [] (λ k l. All (In k) l) (λ k le. tt)
  terms-Grows k (suc j) lo some' hg hp =
      Grows-weaken base lo lo (1 + (j + 0)) (suc j) _ (λ k l. All (In k) l) (λ k l. All (In k) l)
        (Grows-bind base lo _ _ 1 (j + 0) (λ k s. In k s) (λ k l. All (In k) l)
          (and_of-Grows base lo (factors p off k j (sig_at g (off + j))) (
            factors-In lo p off (sig_at g (off + j)) some' hp (sig_at-In lo (off + j) g some' hg) k
              j))
          (rest_terms k j lo some' hg hp (λ lo' le.
            terms-Grows k j lo' (omega arith)
              (All-weaken (In lo) (In lo') g (λ s q. omega arith) hg)
              (All-weaken (In lo) (In lo') p (λ s q. omega arith) hp))))
        (omega arith) (omega arith) (λ k a le q. q)

  -- With the first term for nothing.
  pub lookahead_terms-Grows :
      (j lo : ℕ)
      → 0 < lo
      → All (In lo) g
      → All (In lo) p
      → Grows base lo (terms g p off (suc j) (suc j)) j (λ k l. All (In k) l)
  unfolding terms
  lookahead_terms-Grows j lo some' hg hp =
      let last = sig_at g (off + j) in
      let one' : Grows base lo (and_of (factors p off (suc j) j last)) 0 (λ k s. In k s) =
        rw (factors-first p off j last)
          (and_of_one-Grows base lo last (sig_at-In lo (off + j) g some' hg)) in
      Grows-weaken base lo lo (0 + (j + 0)) j _ (λ k l. All (In k) l) (λ k l. All (In k) l)
        (Grows-bind base lo _ _ 0 (j + 0) (λ k s. In k s) (λ k l. All (In k) l) one'
          (rest_terms (suc j) j lo some' hg hp (λ lo' le.
            terms-Grows (suc j) j lo' (omega arith)
              (All-weaken (In lo) (In lo') g (λ s q. omega arith) hg)
              (All-weaken (In lo) (In lo') p (λ s q. omega arith) hp))))
        (omega arith) (omega arith) (λ k a le q. q)
