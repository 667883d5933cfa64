-- ===== src/Lane/IsJmp.antt =====
-- The jump signal of `build_lane` (src/server/ROM.cpp): the difference is 0 or its sign bit is set.
use mathlib.Core.List.{append_assoc, append-nil}
use hsq_over_nand.Base.{
  ℕ, zero, suc, ◌+◌, ◌*◌, ◌≡◌, refl, ap, ◌∙◌, xor, some, Bool, true, false, List, [], ◌∷◌, ◌++◌,
  length, arith,
}
use hsq_over_nand.Netlist.{Sig, Write, Netlist, ◌>>=◌, buf}
use hsq_over_nand.Netlist.Meaning.{
  value, ins_value, Built, Builds, Any, Builds-bind, Builds-weaken, Sat-prefix, Sat-last,
}
use hsq_over_nand.Netlist.Gates.{
  all_value, write_of, with_cell, cell-eq, wire-with_cell, and_of_list, or_of_lem, buf_lem,
}
use hsq_over_nand.Word.{zeros, zeros-add, word_of, zeros-word_of, top_bit, is_non_positive}
use hsq_over_nand.Lane.{sig_at, wire_inverted, zero_byte, is_jmp_of}
use hsq_over_nand.Lane.Collect.{Each, collect_lem}
use hsq_over_nand.Lane.Lookahead.{values}

module _ (v : ℕ → Bool) (sum : List Sig) where
  -- The writes of the loop over `m` signals from `i` on.
  unfoldable pub inverted : ℕ → ℕ → List Write
  inverted i zero = []
  inverted i (suc m) = write_of true (sig_at sum i) ∷ inverted (i + 1) m

  pub wire_inverted-with_cell :
      (n : Netlist) (ws : List Write) (i m : ℕ)
      → wire_inverted (length n.cells) sum i m (with_cell n ws)
        ≡ some (tt, with_cell n (ws ++ inverted i m))
  unfolding wire_inverted inverted
  wire_inverted-with_cell n ws i zero = rw append-nil
  wire_inverted-with_cell n ws i (suc m) =
      rw (wire-with_cell n ws (sig_at sum i) true, ◌>>=◌)
        (wire_inverted-with_cell n (ws ++ write_of true (sig_at sum i) ∷ []) (i + 1) m
          ∙ ap (λ l. some (tt, with_cell n l)) (append_assoc ws _ _))

  ins_value-inverted : (i m : ℕ) → ins_value v (inverted i m) ≡ zeros (values v sum) i m
  unfolding inverted zeros write_of xor
  ins_value-inverted i zero = refl
  ins_value-inverted i (suc m) = ground (arith, ins_value-inverted (i + 1) m)

  Built-inverted :
      (n : Netlist) (i m : ℕ)
      → Built v {A = Sig} Any
          (λ s. value v s ≡ ins_value v (inverted i (suc m)))
          n
          (some (record { cell = length n.cells; inv = false }, with_cell n (inverted i (suc m))))
  unfolding inverted
  Built-inverted n i m = record {
    result = record { cell = length n.cells; inv = false };
    after = with_cell n (inverted i (suc m));
    returns = refl;
    shape = tt;
    meaning = λ h. (Sat-prefix v n.cells _ h, Sat-last v n.cells _ h);
  }

  -- One cell of the loop over bytes: the eight bits of byte `k` are 0.
  zero_byte_lem :
      (k : ℕ) → Builds v (zero_byte sum k) Any (λ s. value v s ≡ zeros (values v sum) (8 * k) 8)
  unfolding zero_byte
  zero_byte_lem k n =
      rw (cell-eq n, wire_inverted-with_cell n [] (8 * k) 8, ◌>>=◌, ← ins_value-inverted (8 * k) 8)
        (Built-inverted n (8 * k) 7)

  all_value-bytes :
      (k : ℕ) (l : List Sig)
      → Each (λ j s. value v s ≡ zeros (values v sum) (8 * j) 8) k l
      → all_value v l ≡ zeros (values v sum) (8 * k) (8 * length l)
  all_value-bytes k [] h = unfold zeros in refl
  all_value-bytes k (s ∷ l) h =
      let e : 8 * suc (length l) ≡ 8 + 8 * length l = omega arith in
      let e' : 8 * k + 8 ≡ 8 * (k + 1) = omega arith in
      rw (e, zeros-add, e', ← all_value-bytes (k + 1) l h.1, h.0)

  all_zero_eq :
      (l : List Sig)
      → length l ≡ 8
      → Each (λ j s. value v s ≡ zeros (values v sum) (8 * j) 8) 0 l
      → all_value v l ≡ zeros (values v sum) 0 64
  all_zero_eq l n h = all_value-bytes 0 l h ∙ ap (λ (m : ℕ). zeros (values v sum) 0 (8 * m)) n

  -- `isJmp` is the jump test of the difference.
  pub is_jmp_of_lem :
      Builds v
        (is_jmp_of sum)
        (λ s. s.inv ≡ false)
        (λ s. value v s ≡ is_non_positive (word_of (values v sum) 64))
  unfolding is_jmp_of is_non_positive
  is_jmp_of_lem =
      Builds-bind v _ _ _ _ _ _ (collect_lem v (λ i s. Unit) _ (zero_byte sum) zero_byte_lem 8 0)
        λ accs r. Builds-bind v _ _ _ _ _ _ (and_of_list v accs (omega (arith, r.0))) λ all_zero _.
          Builds-bind v _ _ _ _ _ _ (or_of_lem v all_zero (sig_at sum 63) []) λ o _.
            Builds-weaken v _ _ _ _ (buf o) (buf_lem v o) (λ s h. h)
              λ s h e eo ea es. ground (
                arith,
                all_zero_eq accs r.0 es,
                zeros-word_of (values v sum) 64,
                top_bit (values v sum) 63,
              )
