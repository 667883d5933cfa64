-- ===== src/Lane/GrowParts.antt =====
-- The look-aheads, the sum bits and the jump signal of `build_lane` (src/server/ROM.cpp) keep a netlist tidy,
-- and take the cells counted here.
use hsq_over_nand.Base.{
  ℕ, zero, suc, ◌+◌, ◌*◌, ◌/◌, ◌%◌, ◌≤◌, ◌<◌, ◌≡◌, refl, sym, ◌∙◌, false, inr, some, List, [], ◌∷◌,
  ◌++◌, length, arith,
}
use hsq_over_nand.Netlist.{Netlist, Sig, pure, ◌>>=◌}
use hsq_over_nand.Netlist.Grow.{
  Earlier, Grows, Grows-pure, Grows-bind, Grows-weaken, Grown-cell, some-pair, In, All, All-weaken,
  All-append,
}
use hsq_over_nand.Netlist.Gates.{write_of, with_cell, cell-eq}
use hsq_over_nand.Netlist.GrowGates.{and_of-Grows, or_of-Grows, xor_of-Grows, buf-Grows}
use hsq_over_nand.Lane.{
  sig_at, all_factors, cla_borrow, cla_group, half_adder, sum_bit, zero_byte, is_jmp_of,
}
use hsq_over_nand.Lane.IsJmp.{inverted, wire_inverted-with_cell}
use hsq_over_nand.Lane.Grow.{collect-Grows, sig_at-In, lookahead_factors-In, lookahead_terms-Grows}

pub All-later : (k j : ℕ) (xs : List Sig) → k ≤ j → All (In k) xs → All (In j) xs
All-later k j xs le h = All-weaken (In k) (In j) xs (λ s q. omega arith) h

abbrev pub Pair-In : ℕ → Sig × Sig → Type 0
Pair-In k q = In k q.0 × In k q.1

module _ (base : ℕ) where
  pub cla_borrow-Grows :
      (g p : List Sig) (off : ℕ) (bor : Sig) (k lo : ℕ)
      → 0 < lo
      → All (In lo) g
      → All (In lo) p
      → In lo bor
      → Grows base lo (cla_borrow g p off bor k) (k + 1) (λ k s. In k s)
  unfolding cla_borrow
  cla_borrow-Grows g p off bor zero lo some' hg hp hb =
      Grows-weaken base lo lo 0 1 (pure bor) (λ k s. In k s) (λ k s. In k s)
        (Grows-pure base lo bor (λ k s. In k s) (λ k le. omega arith)) (omega arith) (omega arith)
        (λ k a le q. q)
  cla_borrow-Grows g p off bor (suc k) lo some' hg hp hb =
      Grows-weaken base lo lo (k + (1 + 1)) (suc k + 1) _ (λ k s. In k s) (λ k s. In k s)
        (Grows-bind base lo _ _ k (1 + 1) (λ k l. All (In k) l) (λ k s. In k s)
          (lookahead_terms-Grows base g p off k lo some' hg hp)
          λ ts j le hts.
            Grows-bind base j _ _ 1 1 (λ k s. In k s) (λ k s. In k s)
              (and_of-Grows base j (all_factors p off (suc k) bor) (
                lookahead_factors-In j p off bor (omega arith) (All-later lo j p le hp)
                  (omega arith) (suc k)))
              λ t j' le' ht.
                or_of-Grows base j' (ts ++ t ∷ [])
                  (All-append (In j') ts (t ∷ []) (All-later j j' ts le' hts) (ht, tt)))
        (omega arith) (omega arith) (λ k a le q. q)

  pub cla_group-Grows :
      (g p : List Sig) (off lo : ℕ)
      → 0 < lo
      → All (In lo) g
      → All (In lo) p
      → Grows base lo (cla_group g p off) 5 Pair-In
  unfolding cla_group
  cla_group-Grows g p off lo some' hg hp =
      Grows-bind base lo _ _ 3 2 (λ k l. All (In k) l) Pair-In
        (lookahead_terms-Grows base g p off 3 lo some' hg hp)
        λ ts j le hts.
          Grows-bind base j _ _ 1 1 (λ k s. In k s) Pair-In (or_of-Grows base j ts hts)
            λ gg j' le' hgg.
              let at = λ (i : ℕ).
                sig_at-In j' (off + i) p (omega arith) (All-later lo j' p (omega arith) hp) in
              Grows-bind base j' _ _ 1 0 (λ k s. In k s) Pair-In
                (and_of-Grows base j' _ (at 3, (at 2, (at 1, (at 0, tt)))))
                λ gp j'' le'' hgp.
                  Grows-pure base j'' (gg, gp) Pair-In (λ k le₃. (omega arith, omega arith))

  pub half_adder-Grows : (a b lo : ℕ) → a < lo → b < lo → Grows base lo (half_adder a b) 4 Pair-In
  unfolding half_adder
  half_adder-Grows a b lo ha hb =
      Grows-bind base lo _ _ 3 1 (λ k s. In k s) Pair-In (xor_of-Grows base lo _ _ ha hb)
        λ x j le hx.
          Grows-bind base j _ _ 1 0 (λ k s. In k s) Pair-In
            (and_of-Grows base j _ (omega arith, (omega arith, tt)))
            λ g j' le' hg. Grows-pure base j' (x, g) Pair-In (λ k le₃. (omega arith, omega arith))

  pub sum_bit-Grows :
      (x g p bgrp : List Sig) (i lo : ℕ)
      → 0 < lo
      → All (In lo) x
      → All (In lo) g
      → All (In lo) p
      → All (In lo) bgrp
      → Grows base lo (sum_bit x g p bgrp i) 7 (λ k s. In k s)
  unfolding sum_bit
  sum_bit-Grows x g p bgrp zero lo some' hx hg hp hb =
      Grows-weaken base lo lo 0 7 (pure (sig_at x 0)) (λ k s. In k s) (λ k s. In k s)
        (Grows-pure base lo (sig_at x 0) (λ k s. In k s)
          (λ k le. sig_at-In k 0 x (omega arith) (All-later lo k x le hx)))
        (omega arith) (omega arith) (λ k a le q. q)
  sum_bit-Grows x g p bgrp (suc j) lo some' hx hg hp hb =
      let i = suc j in
      Grows-weaken base lo lo (4 + 3) 7 _ (λ k s. In k s) (λ k s. In k s)
        (Grows-bind base lo _ _ 4 3 (λ k s. In k s) (λ k s. In k s)
          (Grows-weaken base lo lo (i % 4 + 1) 4 _ (λ k s. In k s) (λ k s. In k s)
            (cla_borrow-Grows g p (4 * (i / 4)) (sig_at bgrp (i / 4)) (i % 4) lo some' hg hp
              (sig_at-In lo (i / 4) bgrp some' hb))
            (omega arith) (omega arith) (λ k a le q. q))
          λ bor k le hbor.
            xor_of-Grows base k (sig_at x i) bor
              (sig_at-In k i x (omega arith) (All-later lo k x le hx)) hbor)
        (omega arith) (omega arith) (λ k a le q. q)

  Earlier-inverted :
      (sum : List Sig) (lo i m : ℕ)
      → 0 < lo
      → All (In lo) sum
      → Earlier lo (inverted (λ i. false) sum i m)
  unfolding inverted write_of
  Earlier-inverted sum lo i zero some' h = tt
  Earlier-inverted sum lo i (suc m) some' h =
      (sig_at-In lo i sum some' h, Earlier-inverted sum lo (i + 1) m some' h)

  zero_byte-eq :
      (sum : List Sig) (k : ℕ) (n : Netlist)
      → zero_byte sum k n
        ≡ some (
          record { cell = length n.cells; inv = false },
          with_cell n (inverted (λ i. false) sum (8 * k) 8),
        )
  unfolding zero_byte
  zero_byte-eq sum k n =
      rw (cell-eq n, wire_inverted-with_cell (λ i. false) sum n [] (8 * k) 8, ◌>>=◌) refl

  pub zero_byte-Grows :
      (sum : List Sig) (k lo : ℕ)
      → 0 < lo
      → All (In lo) sum
      → Grows base lo (zero_byte sum k) 1 (λ k s. In k s)
  unfolding zero_byte Grows inverted
  zero_byte-Grows sum k lo some' h n n' a t le room e =
      let ws = inverted (λ i. false) sum (8 * k) 8 in
      let (one', net) = some-pair _ a _ n' (sym (zero_byte-eq sum k n) ∙ e) in
      rw (← one', ← net)
        (Grown-cell base (λ k s. In k s) n (record { cell = length n.cells; inv = false }) ws 0 t
          room
          (inr (
            refl,
            omega arith,
            Earlier-inverted sum (length n.cells) (8 * k) 8 (omega arith)
                (All-later lo (length n.cells) sum le h),
          ))
          (omega arith))

  pub is_jmp_of-Grows :
      (sum : List Sig) (lo : ℕ)
      → 0 < lo
      → All (In lo) sum
      → Grows base lo (is_jmp_of sum) 11 (λ k s. In k s)
  unfolding is_jmp_of
  is_jmp_of-Grows sum lo some' h =
      Grows-bind base lo _ _ 8 3 (λ k l. All (In k) l) (λ k s. In k s)
        (collect-Grows base (zero_byte sum) 1 (λ k s. In k s) (λ k j a le p. omega arith) 8 lo 0
          λ k j le low high. zero_byte-Grows sum j k (omega arith) (All-later lo k sum le h))
        λ accs k le ha.
          Grows-bind base k _ _ 1 2 (λ k s. In k s) (λ k s. In k s) (and_of-Grows base k accs ha)
            λ all_zero k' le' hz.
              Grows-bind base k' _ _ 1 1 (λ k s. In k s) (λ k s. In k s)
                (or_of-Grows base k' (all_zero ∷ sig_at sum 63 ∷ []) (
                  hz,
                  (sig_at-In k' 63 sum (omega arith) (All-later lo k' sum (omega arith) h), tt),
                ))
                λ o k'' le'' ho. buf-Grows base k'' o ho
