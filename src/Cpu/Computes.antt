-- ===== src/Cpu/Computes.antt =====
-- A whole round on the CPU: what the instructions of `build_round` (src/server/ROM.cpp), from the CAP_IN
-- to the RAISE of the last lane, leave in the registers of src/server/cpu.cpp.
use hsq_over_nand.Base.{
  ℕ, ◌^◌, ◌<◌, ◌≡◌, sym, ap, ◌∙◌, Bool, true, some, List, ◌++◌, bind-some, arith,
}
use hsq_over_nand.Nand.{Nand}
use hsq_over_nand.Netlist.Meaning.{value, Sat}
use hsq_over_nand.Word.{word_of, word_of-same}
use hsq_over_nand.Word.Shift.{bit_at, word_of-bit_at, Pushed-zero, Pushed-all}
use hsq_over_nand.Lane.{index_at, sig_at, digit}
use hsq_over_nand.Lane.Levels.{bits}
use hsq_over_nand.Lane.Lookahead.{values}
use hsq_over_nand.Lane.Correct.{operand}
use hsq_over_nand.Rom.{Op, Round, program_ops, output_ops, round_ops}
use hsq_over_nand.Cpu.{Cpu}
use hsq_over_nand.Cpu.Page.{run_ops, run_ops-append}
use hsq_over_nand.Cpu.Inputs.{Fresh}
use hsq_over_nand.Cpu.Output.{run-push_out_ops, run-raise_ops}
use hsq_over_nand.Cpu.Round.{
  IsRound, AreWords, Reports, page_in-first, page_in-second, Fits, fitting, Fits-bit,
}
use hsq_over_nand.Cpu.Settled.{settled, settled-shows, settled-out, run-program_ops}

-- The operands of a lane, read from the values of its input cells.
operand-bits :
    (v : ℕ → Bool) (ks : List ℕ) (a : ℕ)
    → a < 2 ^ 64
    → ((i : ℕ) → i < digit → v (index_at ks i) ≡ bit_at a i)
    → operand v ks ≡ a
operand-bits v ks a lt h = word_of-same (bits v ks) (bit_at a) 64 h ∙ word_of-bit_at a lt

module _ (N : Nand) (r : Round) (R : IsRound r) (s : Cpu N) (F : Fresh N s) (W : AreWords s)
    (v : ℕ → Bool) (V : Fits r R (s.in_a 0) (s.in_b 0) (s.in_a 1) (s.in_b 1) v) where
  operands :
      (operand v r.first.ain ≡ s.in_a 0)
      × (operand v r.first.bin ≡ s.in_b 0)
      × (operand v r.second.ain ≡ s.in_a 1)
      × (operand v r.second.bin ≡ s.in_b 1)
  operands =
      let bit =
        λ (i : ℕ) (x : Bool). Fits-bit r R (s.in_a 0) (s.in_b 0) (s.in_a 1) (s.in_b 1) v i x V in
      let first = page_in-first r R (s.in_a 0) (s.in_b 0) (s.in_a 1) (s.in_b 1) in
      let second = page_in-second r R (s.in_a 0) (s.in_b 0) (s.in_a 1) (s.in_b 1) in
      (
        operand-bits v r.first.ain (s.in_a 0) (W.in_a 0)
            (λ i lt. bit _ _ (R.first_inputs.a_inputs i lt) (first i lt).0),
        operand-bits v r.first.bin (s.in_b 0) (W.in_b 0)
            (λ i lt. bit _ _ (R.first_inputs.b_inputs i lt) (first i lt).1),
        operand-bits v r.second.ain (s.in_a 1) (W.in_a 1)
            (λ i lt. bit _ _ (R.second_inputs.a_inputs i lt) (second i lt).0),
        operand-bits v r.second.bin (s.in_b 1) (W.in_b 1)
            (λ i lt. bit _ _ (R.second_inputs.b_inputs i lt) (second i lt).1),
      )

  -- PUSH_OUT and RAISE, after the last step.
  run-output_ops :
      (o : List Op)
      → output_ops r ≡ some o
      → let t = run_ops N o (settled N r R s F W v V) in
        (t.out 0 ≡ word_of (values v r.first.sum) 64)
        × (t.out 1 ≡ word_of (values v r.second.sum) 64)
        × (t.is_jmp 0 ≡ value v r.first.is_jmp)
        × (t.is_jmp 1 ≡ value v r.second.is_jmp)
        × (t.signal ≡ true)
  unfolding output_ops
  run-output_ops o e =
      let (o₀, e₀, k₀) = bind-some _ _ o e in
      let (o₁, e₁, k₁) = bind-some _ _ o k₀ in
      let (j, e₂, k₂) = bind-some _ _ o k₁ in
      let whole : o₀ ++ (o₁ ++ j) ≡ o = cc k₂ in
      let words = λ (l : ℕ).
        let lt : (settled N r R s F W v V).out l < 2 ^ 64 =
          omega (arith, W.out l, ap (λ f. f l) (settled-out N r R s F W v V)) in
        lt in
      let (out₀, ran₀, all₀, others₀) =
        run-push_out_ops N r.cells v R.small R.in_page 0 0 r.first.sum r.first.sum o₀
          (settled N r R s F W v V) e₀ (λ k. ap (sig_at r.first.sum) (omega arith))
          (omega (arith, R.first_sums)) (omega arith) (settled-shows N r R s F W v V)
          (Pushed-zero _ _ (words 0)) in
      let st₀ : Cpu N = record (settled N r R s F W v V) { out = out₀ } in
      let (out₁, ran₁, all₁, others₁) =
        run-push_out_ops N r.cells v R.small R.in_page 1 0 r.second.sum r.second.sum o₁ st₀ e₁
          (λ k. ap (sig_at r.second.sum) (omega arith)) (omega (arith, R.second_sums)) (omega arith)
          (settled-shows N r R s F W v V) (Pushed-zero _ _ (omega (arith, others₀ 1, words 1))) in
      let st₁ : Cpu N = record (settled N r R s F W v V) { out = out₁ } in
      let (out, jump₀, jump₁, signal) =
        run-raise_ops N r.cells v R.small R.in_page r.first r.second j st₁ e₂
          (settled-shows N r R s F W v V) in
      let path : run_ops N o (settled N r R s F W v V) ≡ run_ops N j st₁ =
        ap (λ os'. run_ops N os' (settled N r R s F W v V)) (sym whole)
        ∙ run_ops-append N o₀ (o₁ ++ j) (settled N r R s F W v V)
        ∙ ap (run_ops N (o₁ ++ j)) ran₀
        ∙ run_ops-append N o₁ j st₀
        ∙ ap (run_ops N j) ran₁ in
      (
        ap (λ t. t.out 0) path
            ∙ ap (λ f. f 0) out
            ∙ others₁ 0 (λ e. absurd (omega arith))
            ∙ Pushed-all _ _ all₀,
        ap (λ t. t.out 1) path ∙ ap (λ f. f 1) out ∙ Pushed-all _ _ all₁,
        ap (λ t. t.is_jmp 0) path ∙ jump₀,
        ap (λ t. t.is_jmp 1) path ∙ jump₁,
        ap (λ t. t.signal) path ∙ signal,
      )

-- A round on the CPU computes what its netlist says: from a fresh page the instructions of the round leave
-- in `out` and `is_jmp`, for both lanes, the sum and jump signals of a netlist whose cells hold the ANDs of
-- their writes and whose inputs are the operands of the lane, and raise the signal. The netlist is
-- scheduled, lies in the page behind the ROM, and has its input cells in the order of the GET_INs.
pub round-computes :
    (N : Nand) (r : Round) (os : List Op) (s : Cpu N)
    → IsRound r
    → round_ops r ≡ some os
    → Fresh N s
    → AreWords s
    → let t = run_ops N os s in
      (v : ℕ → Bool) × Sat v r.cells
      × Reports v r.first 0 s t
      × Reports v r.second 1 s t
      × (t.signal ≡ true)
unfolding round_ops
round-computes N r os s R e F W =
    let (o, e₀, e₁) = bind-some _ _ os e in
    let whole : program_ops r ++ o ≡ os = cc e₁ in
    let (v, V) = fitting r R (s.in_a 0) (s.in_b 0) (s.in_a 1) (s.in_b 1) in
    let (a, b, a', b') = operands N r R s F W v V in
    let (sum, sum', jump, jump', signal) = run-output_ops N r R s F W v V o e₀ in
    let path : run_ops N os s ≡ run_ops N o (settled N r R s F W v V) =
      ap (λ os'. run_ops N os' s) (sym whole)
      ∙ run_ops-append N (program_ops r) o s
      ∙ ap (run_ops N o) (run-program_ops N r R s F W v V) in
    (
      v,
      V.sat,
      record {
        operand_a = a;
        operand_b = b;
        sum = ap (λ t. t.out 0) path ∙ sum;
        jump = ap (λ t. t.is_jmp 0) path ∙ jump;
      },
      record {
        operand_a = a';
        operand_b = b';
        sum = ap (λ t. t.out 1) path ∙ sum';
        jump = ap (λ t. t.is_jmp 1) path ∙ jump';
      },
      ap (λ t. t.signal) path ∙ signal,
    )
