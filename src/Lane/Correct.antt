-- ===== src/Lane/Correct.antt =====
-- `build_lane` of src/server/ROM.cpp subtracts: where the cells of its netlist hold the ANDs of
-- their writes, the sum signals are the bits of `b - a` and `isJmp` is its jump test.
use hsq_over_nand.Base.{
  ℕ, ◌*◌, ◌/◌, ◌%◌, ◌≡◌, ap, ◌∙◌, Bool, true, false, not, xor, ◌&&◌, List, map, length, arith,
}
use hsq_over_nand.Netlist.{Sig, not_sig}
use hsq_over_nand.Netlist.Meaning.{value, Builds, Any, Builds-pure, Builds-bind}
use hsq_over_nand.Netlist.Gates.{input_lem, and_of_lem}
use hsq_over_nand.Word.{word_of, sub64, is_non_positive}
use hsq_over_nand.Lane.{sig_at, index_at, input_pair, Lane, build_lane}
use hsq_over_nand.Lane.Borrow.{borrow}
use hsq_over_nand.Lane.Collect.{Each, collect_lem, Each-map, Each-get_or, length-map}
use hsq_over_nand.Lane.Lookahead.{values, values_at, cla_borrow_lem, cla_group_lem}
use hsq_over_nand.Lane.IsJmp.{is_jmp_of_lem}
use hsq_over_nand.Lane.Levels.{
  bits, half_adder_lem, Groups, Adder, sum_bit_lem, gs, ps, difference, bsup_eq, bgrp_eq,
}

-- A lane has 64 input cells for each operand and 64 sum signals, and the signals that PUSH_OUT and
-- RAISE read are not inverted.
pub record IsLane (l : Lane) : Type 0 where
  pub ains : length l.ain ≡ 64
  pub bins : length l.bin ≡ 64
  pub sums : length l.sum ≡ 64
  pub straight : Each (λ i s. s.inv ≡ false) 0 l.sum
  pub jmp_straight : l.is_jmp.inv ≡ false

-- The operands of a lane, its difference and its jump signal, where the cells have the values `v`.
abbrev pub operand : (ℕ → Bool) → List ℕ → ℕ
operand v cells = word_of (bits v cells) 64

abbrev pub Subtracts : (ℕ → Bool) → Lane → Type 0
Subtracts v l =
    let c = sub64 (operand v l.ain) (operand v l.bin) in
    (word_of (values v l.sum) 64 ≡ c) × (value v l.is_jmp ≡ is_non_positive c)

first_straight :
    (xg : List (Sig × Sig))
    → length xg ≡ 64
    → Each (λ i q. q.0.inv ≡ false) 0 xg
    → (sig_at (map (λ q. q.0) xg) 0).inv ≡ false
first_straight xg n h =
    Each-get_or (λ i s. s.inv ≡ false) _ 0 (map (λ q. q.0) xg) (Each-map _ (λ q. q.0) 0 xg h) 0 0
      (omega (arith, n, length-map (λ (q : Sig × Sig). q.0) xg)) (omega arith)

never :
    (v : ℕ → Bool) (z : Sig) (c : ℕ) → value v z ≡ (v c && (not (v c) && true)) → value v z ≡ false
never v z c e = ground arith

module _ (v : ℕ → Bool) where
  -- The levels together.
  lane_difference :
      (ain bin : List ℕ) (xg g1 g2 : List (Sig × Sig)) (bsup bgrp sum : List Sig) (z : Sig)
      → length xg ≡ 64
      → length g1 ≡ 16
      → length g2 ≡ 4
      → length bsup ≡ 4
      → length bgrp ≡ 16
      → length sum ≡ 64
      → value v z ≡ false
      → Each (Adder v ain bin) 0 xg
      → (let g = map (λ q. q.1) xg in
          let x = map (λ q. q.0) xg in
          let p = map not_sig x in
          let gg1 = map (λ q. q.0) g1 in
          let gp1 = map (λ q. q.1) g1 in
          Each (Groups v g p) 0 g1
          → Each (Groups v gg1 gp1) 0 g2
          → Each
              (λ s b.
                value v b
                ≡ borrow
                    (values_at v (map (λ q. q.0) g2) 0)
                    (values_at v (map (λ q. q.1) g2) 0)
                    (value v z)
                    s)
              0
              bsup
          → Each
              (λ i b.
                value v b
                ≡ borrow
                    (values_at v gg1 (4 * (i / 4)))
                    (values_at v gp1 (4 * (i / 4)))
                    (value v (sig_at bsup (i / 4)))
                    (i % 4))
              0
              bgrp
          → Each
              (λ i s.
                value v (sig_at bgrp (i / 4)) ≡ borrow (values v g) (values v p) false (4 * (i / 4))
                → value v s ≡ xor (values v x i) (borrow (values v g) (values v p) false i))
              0
              sum
          → word_of (values v sum) 64 ≡ sub64 (operand v ain) (operand v bin))
  lane_difference ain bin xg g1 g2 bsup bgrp sum z nx n1 n2 ns ng nsum ez ex e1 e2 eb eg es =
      let g = gs v ain bin xg ex in
      let p = ps v ain bin xg ex in
      let sup = bsup_eq v g p g1 g2 bsup bgrp z e1 n1 n2 ns ng ez e2 eb in
      let grp = bgrp_eq v g p g1 g2 bsup bgrp z e1 n1 n2 ns ng ez sup eg in
      difference v ain bin xg ex sum nx
        λ i lt. Each-get_or _ _ 0 sum es i i (omega arith) (omega arith) (grp (i / 4) (omega arith))

  input_pair_lem : Builds v input_pair Any Any
  input_pair_lem =
      Builds-bind v _ _ _ _ _ _ (input_lem v)
        λ a _. Builds-bind v _ _ _ _ _ _ (input_lem v) λ b _. Builds-pure v _ _ (a, b) tt λ _ _. tt

  pub build_lane_lem : Builds v build_lane IsLane (Subtracts v)
  unfolding build_lane
  build_lane_lem =
      Builds-bind v _ _ _ _ _ _
        (collect_lem v (λ i q. Unit) (λ i q. Unit) _ (λ i. input_pair_lem) 64 0)
        λ ins ri.
          let ain = map (λ (q : ℕ × ℕ). q.0) ins in
          let bin = map (λ (q : ℕ × ℕ). q.1) ins in
          Builds-bind v _ _ _ _ _ _ (and_of_lem v _ _) λ zero_sig _.
            Builds-bind v _ _ _ _ _ _
              (collect_lem v (λ i q. q.0.inv ≡ false) (Adder v ain bin) _
                (λ i. half_adder_lem v _ _) 64 0)
              λ xg rx.
                let x = map (λ (q : Sig × Sig). q.0) xg in
                let g = map (λ (q : Sig × Sig). q.1) xg in
                let p = map not_sig x in
                Builds-bind v _ _ _ _ _ _
                  (collect_lem v (λ i q. Unit) (Groups v g p) _ (λ k. cla_group_lem v g p (4 * k))
                    16 0)
                  λ g1 r1.
                    let gg1 = map (λ (q : Sig × Sig). q.0) g1 in
                    let gp1 = map (λ (q : Sig × Sig). q.1) g1 in
                    Builds-bind v _ _ _ _ _ _
                      (collect_lem v (λ i q. Unit) (Groups v gg1 gp1) _
                        (λ k. cla_group_lem v gg1 gp1 (4 * k)) 4 0)
                      λ g2 r2.
                        let gg2 = map (λ (q : Sig × Sig). q.0) g2 in
                        let gp2 = map (λ (q : Sig × Sig). q.1) g2 in
                        Builds-bind v _ _ _ _ _ _
                          (collect_lem v (λ i q. Unit) _ _
                            (λ s. cla_borrow_lem v gg2 gp2 0 zero_sig s) 4 0)
                          λ bsup rs.
                            Builds-bind v _ _ _ _ _ _
                              (collect_lem v (λ i q. Unit) _ _
                                (λ i.
                                  cla_borrow_lem v gg1 gp1 (4 * (i / 4)) (sig_at bsup (i / 4))
                                    (i % 4))
                                16 0)
                              λ bgrp rg.
                                Builds-bind v _ _ _ _ _ _
                                  (collect_lem v (λ i s. s.inv ≡ false) _ _
                                    (λ i. sum_bit_lem v x g p bgrp i (first_straight xg rx.0 rx.1))
                                    64 0)
                                  λ sum rsum.
                                    Builds-bind v _ _ _ _ _ _ (is_jmp_of_lem v sum) λ is_jmp rj.
                                      Builds-pure v _ _
                                        (record {
                                          ain = ain;
                                          bin = bin;
                                          sum = sum;
                                          is_jmp = is_jmp;
                                        })
                                        (record {
                                          ains = length-map (λ (q : ℕ × ℕ). q.0) ins ∙ ri.0;
                                          bins = length-map (λ (q : ℕ × ℕ). q.1) ins ∙ ri.0;
                                          sums = rsum.0;
                                          straight = rsum.1;
                                          jmp_straight = rj;
                                        })
                                        λ ej es eg eb e2 e1 ex ez ei.
                                          let d =
                                            lane_difference ain bin xg g1 g2 bsup bgrp sum zero_sig
                                              rx.0 r1.0 r2.0 rs.0 rg.0 rsum.0
                                              (never v zero_sig (index_at bin 0) ez) ex e1 e2 eb eg
                                              es in
                                          (d, ej ∙ ap is_non_positive d)
