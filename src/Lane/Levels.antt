-- ===== src/Lane/Levels.antt =====
-- The levels of `build_lane` (src/server/ROM.cpp): half adders, groups, super groups and sum bits,
-- by the values of their signals.
use hsq_over_nand.Base.{
  ℕ, zero, suc, ◌*◌, ◌/◌, ◌%◌, ◌<◌, ◌≤◌, ◌≡◌, refl, ap, ap₂, fun_ext, ◌∙◌, Bool, false, not, xor,
  ◌&&◌, ◌||◌, List, map, length, arith,
}
use hsq_over_nand.Netlist.{Sig, not_sig}
use hsq_over_nand.Netlist.Meaning.{value, Builds, Builds-pure, Builds-bind, Builds-weaken}
use hsq_over_nand.Netlist.Gates.{value-not_sig, and_of_lem, xor_of_lem}
use hsq_over_nand.Word.{word_of, word_of-lt, sub64, sub64-eq, ripple}
use hsq_over_nand.Lane.{sig_at, index_at, half_adder, sum_bit}
use hsq_over_nand.Lane.Borrow.{borrow, span, borrow-groups, borrow-in_group}
use hsq_over_nand.Lane.Collect.{Each, Each-map, Each-get_or, length-map, Each-weaken}
use hsq_over_nand.Lane.Lookahead.{values, values_at, cla_borrow_lem}

module _ (v : ℕ → Bool) where
  -- The values of an array of input cells.
  abbrev pub bits : List ℕ → ℕ → Bool
  bits cells i = v (index_at cells i)

  pub half_adder_lem :
      (a b : ℕ)
      → Builds v
          (half_adder a b)
          (λ q. q.0.inv ≡ false)
          (λ q. (value v q.0 ≡ xor (v a) (v b)) × (value v q.1 ≡ (v a && not (v b))))
  unfolding half_adder
  half_adder_lem a b = Builds-bind v _ _ _ _ _ _ (xor_of_lem v _ _) λ x rx.
      Builds-bind v _ _ _ _ _ _ (and_of_lem v _ _)
        λ g _. Builds-pure v _ _ (x, g) rx λ eg ex. (ex, eg ∙ ap (λ t. v a && t) (ground arith))

  values_at-zero : (xs : List Sig) → values_at v xs 0 ≡ values v xs
  values_at-zero xs = fun_ext λ j. ap (values v xs) (omega arith)

  -- What `claGroup` says of the groups of four signals that it is called on.
  abbrev pub Groups : List Sig → List Sig → ℕ → Sig × Sig → Type 0
  Groups g p k q =
      (value v q.0 ≡ borrow (values_at v g (4 * k)) (values_at v p (4 * k)) false 4)
      × (value v q.1 ≡ span (values_at v p (4 * k)) 0 4)

  -- One level up: the borrow over groups.
  level :
      (g p : List Sig) (q : List (Sig × Sig))
      → Each (Groups g p) 0 q
      → (c : Bool) (k : ℕ) → k ≤ length q
      → borrow (values v (map (λ t. t.0) q)) (values v (map (λ t. t.1) q)) c k
        ≡ borrow (values v g) (values v p) c (4 * k)
  level g p q h c k le = borrow-groups (values v g) (values v p) _ _ c k λ j lt. (
    Each-get_or (λ i s. value v s ≡ borrow (values_at v g (4 * i)) (values_at v p (4 * i)) false 4)
        _ 0 (map (λ t. t.0) q) (Each-map _ (λ t. t.0) 0 q (Each-weaken _ _ 0 q (λ i a r. r.0) h)) j
        j (omega (arith, length-map (λ (t : Sig × Sig). t.0) q)) (omega arith),
    Each-get_or (λ i s. value v s ≡ span (values_at v p (4 * i)) 0 4) _ 0 (map (λ t. t.1) q)
        (Each-map _ (λ t. t.1) 0 q (Each-weaken _ _ 0 q (λ i a r. r.1) h)) j j
        (omega (arith, length-map (λ (t : Sig × Sig). t.1) q)) (omega arith),
  )

  -- A borrow inside a group, from the borrow into the group.
  in_group :
      (g p : List Sig) (c : Bool) (i : ℕ) (b : Sig)
      → value v b ≡ borrow (values v g) (values v p) c (4 * (i / 4))
      → borrow (values_at v g (4 * (i / 4))) (values_at v p (4 * (i / 4))) (value v b) (i % 4)
        ≡ borrow (values v g) (values v p) c i
  in_group g p c i b e = rw e (borrow-in_group (values v g) (values v p) c i)

  pub sum_bit_lem :
      (x g p bgrp : List Sig) (i : ℕ)
      → (sig_at x 0).inv ≡ false
      → Builds v
          (sum_bit x g p bgrp i)
          (λ s. s.inv ≡ false)
          (λ s.
            value v (sig_at bgrp (i / 4)) ≡ borrow (values v g) (values v p) false (4 * (i / 4))
            → value v s ≡ xor (values v x i) (borrow (values v g) (values v p) false i))
  unfolding sum_bit borrow xor
  sum_bit_lem x g p bgrp zero pos = Builds-pure v _ _ _ pos λ e. ground arith
  sum_bit_lem x g p bgrp (suc j) pos =
      let i = suc j in
      Builds-bind v _ _ _ _ _ _ (cla_borrow_lem v g p (4 * (i / 4)) (sig_at bgrp (i / 4)) (i % 4))
        λ bor _.
          Builds-weaken v _ _ _ _ _ (xor_of_lem v (sig_at x i) bor) (λ s r. r)
            λ s r e eb h. e ∙ ap (xor (values v x i)) (eb ∙ in_group g p false i _ h)

  abbrev pub Adder : List ℕ → List ℕ → ℕ → Sig × Sig → Type 0
  Adder ain bin i q =
      (value v q.0 ≡ xor (bits ain i) (bits bin i))
      × (value v q.1 ≡ (bits ain i && not (bits bin i)))

  -- The places of the subtraction, from the half adders.
  module _ (ain bin : List ℕ) (xg : List (Sig × Sig)) (h : Each (Adder ain bin) 0 xg) where
    abbrev pub xs : List Sig
    xs = map (λ q. q.0) xg

    abbrev pub gs : List Sig
    gs = map (λ q. q.1) xg

    abbrev pub ps : List Sig
    ps = map not_sig xs

    x_eq : (i : ℕ) → i < length xg → values v xs i ≡ xor (bits ain i) (bits bin i)
    x_eq i lt =
        Each-get_or (λ j s. value v s ≡ xor (bits ain j) (bits bin j)) _ 0 xs
          (Each-map _ (λ q. q.0) 0 xg (Each-weaken _ _ 0 xg (λ j a r. r.0) h)) i i
          (omega (arith, length-map (λ (q : Sig × Sig). q.0) xg)) (omega arith)

    g_eq : (i : ℕ) → i < length xg → values v gs i ≡ (bits ain i && not (bits bin i))
    g_eq i lt =
        Each-get_or (λ j s. value v s ≡ (bits ain j && not (bits bin j))) _ 0 gs
          (Each-map _ (λ q. q.1) 0 xg (Each-weaken _ _ 0 xg (λ j a r. r.1) h)) i i
          (omega (arith, length-map (λ (q : Sig × Sig). q.1) xg)) (omega arith)

    p_eq : (i : ℕ) → i < length xg → values v ps i ≡ not (xor (bits ain i) (bits bin i))
    p_eq i lt =
        Each-get_or (λ j s. value v s ≡ not (xor (bits ain j) (bits bin j))) _ 0 ps
          (Each-map _ not_sig 0 xs (
            Each-map _ (λ q. q.0) 0 xg
              (Each-weaken _ _ 0 xg (λ j a r. value-not_sig v a.0 ∙ ap not r.0) h)))
          i i (omega (arith, length-map not_sig xs, length-map (λ (q : Sig × Sig). q.0) xg))
          (omega arith)

    -- Sum bits with the right borrows are the bits of the difference.
    pub difference :
        (sum : List Sig)
        → length xg ≡ 64
        → ((i : ℕ)
            → i < 64
            → values v sum i ≡ xor (values v xs i) (borrow (values v gs) (values v ps) false i))
        → word_of (values v sum) 64 ≡ sub64 (word_of (bits ain) 64) (word_of (bits bin) 64)
    difference sum n s = sub64-eq _ _ _ _ (word_of-lt _ 64) (word_of-lt _ 64) (word_of-lt _ 64) (
        ripple (bits ain) (bits bin) (values v sum) (borrow (values v gs) (values v ps) false) 64
          (unfold borrow in refl)
          λ i lt. (
            s i lt
                ∙ ap (λ t. xor t (borrow (values v gs) (values v ps) false i))
                    (x_eq i (omega arith)),
            unfold borrow in
                ap₂ ◌||◌ (g_eq i (omega arith)) (
                  ap (λ t. t && borrow (values v gs) (values v ps) false i) (p_eq i (omega arith))),
          ))

  -- The borrows of the three levels meet at the bits.
  module _ (g p : List Sig) (g1 g2 : List (Sig × Sig)) (bsup bgrp : List Sig) (zero_sig : Sig)
      (h1 : Each (Groups g p) 0 g1) (n1 : length g1 ≡ 16) (n2 : length g2 ≡ 4)
      (ns : length bsup ≡ 4) (ng : length bgrp ≡ 16) (z : value v zero_sig ≡ false) where
    abbrev pub gg1 : List Sig
    gg1 = map (λ q. q.0) g1

    abbrev pub gp1 : List Sig
    gp1 = map (λ q. q.1) g1

    abbrev pub gg2 : List Sig
    gg2 = map (λ q. q.0) g2

    abbrev pub gp2 : List Sig
    gp2 = map (λ q. q.1) g2

    pub bsup_eq :
        Each (Groups gg1 gp1) 0 g2
        → Each
            (λ s b. value v b ≡ borrow (values_at v gg2 0) (values_at v gp2 0) (value v zero_sig) s)
            0
            bsup
        → (s : ℕ) → s < 4
        → values v bsup s ≡ borrow (values v gg1) (values v gp1) false (4 * s)
    bsup_eq h2 hs s lt =
        Each-get_or _ _ 0 bsup hs s s (omega arith) (omega arith)
        ∙ rw (z, values_at-zero gg2, values_at-zero gp2) (level gg1 gp1 g2 h2 false s (omega arith))

    pub bgrp_eq :
        ((s : ℕ) → s < 4 → values v bsup s ≡ borrow (values v gg1) (values v gp1) false (4 * s))
        → Each
            (λ i b.
              value v b
              ≡ borrow
                  (values_at v gg1 (4 * (i / 4)))
                  (values_at v gp1 (4 * (i / 4)))
                  (value v (sig_at bsup (i / 4)))
                  (i % 4))
            0
            bgrp
        → (k : ℕ) → k < 16
        → values v bgrp k ≡ borrow (values v g) (values v p) false (4 * k)
    bgrp_eq sup hb k lt =
        Each-get_or _ _ 0 bgrp hb k k (omega arith) (omega arith)
        ∙ in_group gg1 gp1 false k (sig_at bsup (k / 4)) (sup (k / 4) (omega arith))
        ∙ level g p g1 h1 false k (omega arith)
