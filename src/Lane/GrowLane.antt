-- ===== src/Lane/GrowLane.antt =====
-- `build_lane` of src/server/ROM.cpp keeps a netlist tidy, and takes 1024 cells at most: half of a page.
use hsq_over_nand.Base.{
  ℕ, ◌+◌, ◌*◌, ◌/◌, ◌%◌, ◌≤◌, ◌<◌, ◌≡◌, refl, true, false, List, [], ◌∷◌, map, arith,
}
use hsq_over_nand.Netlist.{Sig, not_sig, Build, pure, ◌>>=◌, and_of}
use hsq_over_nand.Netlist.Grow.{
  Grows, Grows-pure, Grows-bind, Grows-weaken, In, All, All-map, All-get_or,
}
use hsq_over_nand.Netlist.GrowGates.{and_of-Grows, input-Grows}
use hsq_over_nand.Lane.{
  sig_at, collect, cla_borrow, cla_group, half_adder, sum_bit, is_jmp_of, input_pair,
}
use hsq_over_nand.Lane.Grow.{collect-Grows, sig_at-In}
use hsq_over_nand.Lane.{Lane, build_lane, index_at}
use hsq_over_nand.Lane.GrowParts.{
  All-later, Pair-In, cla_borrow-Grows, cla_group-Grows, half_adder-Grows, sum_bit-Grows,
  is_jmp_of-Grows,
}

-- The signals of a lane are in scope, and its operands are the cells given.
abbrev pub LaneIn : List ℕ → List ℕ → ℕ → Lane → Type 0
LaneIn ain bin k l = All (In k) l.sum × In k l.is_jmp × (l.ain ≡ ain) × (l.bin ≡ bin)

abbrev pub Places : ℕ → ℕ × ℕ → Type 0
Places k q = (q.0 < k) × (q.1 < k)

Pairs-firsts : (k : ℕ) (l : List (Sig × Sig)) → All (Pair-In k) l → All (In k) (map (λ q. q.0) l)
Pairs-firsts k l h = All-map (Pair-In k) (In k) (λ q. q.0) l (λ q p. p.0) h

Pairs-seconds : (k : ℕ) (l : List (Sig × Sig)) → All (Pair-In k) l → All (In k) (map (λ q. q.1) l)
Pairs-seconds k l h = All-map (Pair-In k) (In k) (λ q. q.1) l (λ q p. p.1) h

Pair-later : (k j : ℕ) (q : Sig × Sig) → k ≤ j → Pair-In k q → Pair-In j q
Pair-later k j q le h = (omega (arith, h), omega (arith, h))

index_at-lt : (k i : ℕ) (xs : List ℕ) → 0 < k → All (λ x. x < k) xs → index_at xs i < k
index_at-lt k i xs lt h = All-get_or (λ x. x < k) xs i 0 lt h

module _ (base : ℕ) where
  pub input_pair-Grows : (lo : ℕ) → Grows base lo input_pair 2 Places
  input_pair-Grows lo =
      Grows-bind base lo _ _ 1 1 (λ k (i : ℕ). i < k) Places (input-Grows base lo)
        λ a k le ha.
          Grows-bind base k _ _ 1 0 (λ k (i : ℕ). i < k) Places (input-Grows base k)
            λ b j le' hb. Grows-pure base j (a, b) Places (λ m le₃. (omega arith, omega arith))

  -- `build_lane` from its first groups on.
  abbrev levels : List Sig → List Sig → List Sig → Sig → List ℕ → List ℕ → Build Lane
  levels x g p zero_sig ain bin = do
    g1 ← collect 16 0 (λ k. cla_group g p (4 * k))
    let gg1 = map (λ q. q.0) g1
    let gp1 = map (λ q. q.1) g1
    g2 ← collect 4 0 (λ s. cla_group gg1 gp1 (4 * s))
    bsup ← collect 4 0 (λ s. cla_borrow (map (λ q. q.0) g2) (map (λ q. q.1) g2) 0 zero_sig s)
    bgrp ← collect 16 0 (λ i. cla_borrow gg1 gp1 (4 * (i / 4)) (sig_at bsup (i / 4)) (i % 4))
    sum ← collect 64 0 (sum_bit x g p bgrp)
    is_jmp ← is_jmp_of sum
    pure (record { ain = ain; bin = bin; sum = sum; is_jmp = is_jmp })

  sums_grow :
      (x g p bgrp : List Sig) (ain bin : List ℕ) (lo : ℕ)
      → 0 < lo
      → All (In lo) x
      → All (In lo) g
      → All (In lo) p
      → All (In lo) bgrp
      → Grows base lo
          (do
            sum ← collect 64 0 (sum_bit x g p bgrp)
            is_jmp ← is_jmp_of sum
            pure (record { ain = ain; bin = bin; sum = sum; is_jmp = is_jmp }))
          459
          (LaneIn ain bin)
  sums_grow x g p bgrp ain bin lo some' hx hg hp hb =
      Grows-bind base lo _ _ 448 11 (λ k l. All (In k) l) (LaneIn ain bin)
        (collect-Grows base (sum_bit x g p bgrp) 7 (λ k s. In k s) (λ k j a le q. omega arith) 64 lo
          0
          λ k j le low high.
            sum_bit-Grows base x g p bgrp j k (omega arith) (All-later lo k x le hx)
              (All-later lo k g le hg) (All-later lo k p le hp) (All-later lo k bgrp le hb))
        λ sum k le hs.
          Grows-bind base k _ _ 11 0 (λ j s. In j s) (LaneIn ain bin)
            (is_jmp_of-Grows base sum k (omega arith) hs)
            λ is_jmp j le' hj.
              Grows-pure base j (record { ain = ain; bin = bin; sum = sum; is_jmp = is_jmp })
                (LaneIn ain bin)
                (λ m le₃. (All-later k m sum (omega arith) hs, omega arith, refl, refl))

  -- A look-ahead over less than four groups, in a loop.
  borrows_grow :
      (g p : List Sig) (off : ℕ → ℕ) (bor : ℕ → Sig) (k : ℕ → ℕ) (n lo : ℕ)
      → 0 < lo
      → All (In lo) g
      → All (In lo) p
      → ((i : ℕ) → In lo (bor i))
      → ((i : ℕ) → i < n → k i < 4)
      → Grows base lo
          (collect n 0 (λ i. cla_borrow g p (off i) (bor i) (k i)))
          (n * 4)
          (λ k l. All (In k) l)
  borrows_grow g p off bor k n lo some' hg hp hb small =
      collect-Grows base _ 4 (λ k s. In k s) (λ k j a le q. omega arith) n lo 0
        λ m i le low high.
          Grows-weaken base m m (k i + 1) 4 _ (λ k s. In k s) (λ k s. In k s)
            (cla_borrow-Grows base g p (off i) (bor i) (k i) m (omega arith)
              (All-later lo m g le hg) (All-later lo m p le hp) (omega (arith, hb i)))
            (omega arith) (omega (arith, small i (omega arith))) (λ k a le q. q)

  groups_grow :
      (g p : List Sig) (n lo : ℕ)
      → 0 < lo
      → All (In lo) g
      → All (In lo) p
      → Grows base lo (collect n 0 (λ k. cla_group g p (4 * k))) (n * 5) (λ k l. All (Pair-In k) l)
  groups_grow g p n lo some' hg hp =
      collect-Grows base _ 5 Pair-In (λ k j a le q. Pair-later k j a le q) n lo 0
        λ m i le low high.
          cla_group-Grows base g p (4 * i) m (omega arith) (All-later lo m g le hg)
            (All-later lo m p le hp)

  levels_grow :
      (x g p : List Sig) (zero_sig : Sig) (ain bin : List ℕ) (lo : ℕ)
      → 0 < lo
      → All (In lo) x
      → All (In lo) g
      → All (In lo) p
      → In lo zero_sig
      → Grows base lo (levels x g p zero_sig ain bin) 639 (LaneIn ain bin)
  levels_grow x g p zero_sig ain bin lo some' hx hg hp hz =
      Grows-bind base lo _ _ 80 559 (λ k l. All (Pair-In k) l) (LaneIn ain bin)
        (groups_grow g p 16 lo some' hg hp)
        λ g1 k le h1.
          let f = Pairs-firsts k g1 h1 in
          let s = Pairs-seconds k g1 h1 in
          Grows-bind base k _ _ 20 539 (λ k l. All (Pair-In k) l) (LaneIn ain bin)
            (groups_grow (map (λ q. q.0) g1) (map (λ q. q.1) g1) 4 k (omega arith) f s)
            λ g2 k₂ le₂ h2.
              Grows-bind base k₂ _ _ 16 523 (λ k l. All (In k) l) (LaneIn ain bin)
                (borrows_grow _ _ (λ i. 0) (λ i. zero_sig) (λ i. i) 4 k₂ (omega arith)
                  (Pairs-firsts k₂ g2 h2) (Pairs-seconds k₂ g2 h2) (λ i. omega arith) (λ i lt. lt))
                λ bsup k₃ le₃ h3.
                  Grows-bind base k₃ _ _ 64 459 (λ k l. All (In k) l) (LaneIn ain bin)
                    (borrows_grow _ _ (λ i. 4 * (i / 4)) (λ i. sig_at bsup (i / 4)) (λ i. i % 4) 16
                      k₃ (omega arith) (All-later k k₃ _ (omega arith) f)
                      (All-later k k₃ _ (omega arith) s)
                      (λ i. sig_at-In k₃ (i / 4) bsup (omega arith) h3) (λ i lt. omega arith))
                    λ bgrp k₄ le₄ h4.
                      sums_grow x g p bgrp ain bin k₄ (omega arith)
                        (All-later lo k₄ x (omega arith) hx) (All-later lo k₄ g (omega arith) hg)
                        (All-later lo k₄ p (omega arith) hp) h4

  -- `build_lane` behind its inputs.
  pub behind_inputs : List (ℕ × ℕ) → Build Lane
  behind_inputs ins = do
    let ain = map (λ q. q.0) ins
    let bin = map (λ q. q.1) ins
    zero_sig ← and_of (
        record { cell = index_at bin 0; inv = false }
        ∷ record { cell = index_at bin 0; inv = true }
        ∷ [])
    xg ← collect 64 0 (λ i. half_adder (index_at ain i) (index_at bin i))
    let x = map (λ q. q.0) xg
    levels x (map (λ q. q.1) xg) (map not_sig x) zero_sig ain bin

  pub build_lane-inputs : build_lane ≡ (λ n. ◌>>=◌ (collect 64 0 (λ i. input_pair)) behind_inputs n)
  unfolding build_lane behind_inputs
  build_lane-inputs = refl

  pub behind_inputs-Grows :
      (ins : List (ℕ × ℕ)) (lo : ℕ)
      → 0 < lo
      → All (Places lo) ins
      → Grows base lo (behind_inputs ins) 896 (LaneIn (map (λ q. q.0) ins) (map (λ q. q.1) ins))
  unfolding behind_inputs
  behind_inputs-Grows ins lo some' hi =
      let ain = map (λ (q : ℕ × ℕ). q.0) ins in
      let bin = map (λ (q : ℕ × ℕ). q.1) ins in
      let ha = All-map (Places lo) (λ (i : ℕ). i < lo) (λ q. q.0) ins (λ q p. p.0) hi in
      let hb = All-map (Places lo) (λ (i : ℕ). i < lo) (λ q. q.1) ins (λ q p. p.1) hi in
      let first = index_at-lt lo 0 bin some' hb in
      Grows-bind base lo _ _ 1 895 (λ k s. In k s) (LaneIn ain bin)
        (and_of-Grows base lo _ (first, (first, tt)))
        λ z k le hz.
          Grows-bind base k _ _ 256 639 (λ k l. All (Pair-In k) l) (LaneIn ain bin)
            (collect-Grows base _ 4 Pair-In (λ k j a le q. Pair-later k j a le q) 64 k 0
              λ m i le₂ low high.
                half_adder-Grows base (index_at ain i) (index_at bin i) m
                  (omega (arith, index_at-lt lo i ain some' ha))
                  (omega (arith, index_at-lt lo i bin some' hb)))
            λ xg k₂ le₂ hx.
              let x = Pairs-firsts k₂ xg hx in
              levels_grow _ _ _ z ain bin k₂ (omega arith) x (Pairs-seconds k₂ xg hx)
                (All-map (In k₂) (In k₂) not_sig (map (λ q. q.0) xg) (λ s p. p) x) (omega arith)
