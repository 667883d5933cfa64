-- ===== src/Lane/Lookahead.antt =====
-- `claBorrow` and `claGroup` of src/server/ROM.cpp leave gates whose signals are the borrow.
use hsq_over_nand.Base.{
  ℕ, zero, suc, ◌+◌, ◌≤◌, ◌≡◌, refl, ap, ap₂, ◌∙◌, Bool, true, false, ◌&&◌, ◌||◌, List, [], ◌∷◌,
  ◌++◌, length, length-append, arith,
}
use hsq_over_nand.Netlist.{Sig, or_of}
use hsq_over_nand.Netlist.Meaning.{value, Builds, Any, Builds-pure, Builds-bind, Builds-weaken}
use hsq_over_nand.Netlist.Gates.{all_value, any_value, and_of_lem, and_of_list, or_of_list}
use hsq_over_nand.Lane.{sig_at, factors, all_factors, terms, cla_borrow, cla_group}
use hsq_over_nand.Lane.Borrow.{borrow, span, made, made-all, made-borrow_all}

span-four : (f : ℕ → Bool) → (f 3 && (f 2 && (f 1 && (f 0 && true)))) ≡ span f 0 4
unfolding span
span-four f = refl

-- The values of an array of signals, and of one from an offset on.
abbrev pub values : (ℕ → Bool) → List Sig → ℕ → Bool
values v xs j = value v (sig_at xs j)

abbrev pub values_at : (ℕ → Bool) → List Sig → ℕ → ℕ → Bool
values_at v xs off j = value v (sig_at xs (off + j))

any_value-append :
    (v : ℕ → Bool) (xs ys : List Sig) → any_value v (xs ++ ys) ≡ (any_value v xs || any_value v ys)
any_value-append v [] ys = refl
any_value-append v (x ∷ xs) ys = ground (arith, any_value-append v xs ys)

module _ (v : ℕ → Bool) (g p : List Sig) (off : ℕ) where
  factors-eq :
      (k j : ℕ) (last : Sig)
      → all_value v (factors p off k j last) ≡ (span (values_at v p off) (suc j) k && value v last)
  unfolding factors span
  factors-eq zero j last = ground arith
  factors-eq (suc m) j last = ground (arith, factors-eq m j last)

  all_factors-eq :
      (k : ℕ) (last : Sig)
      → all_value v (all_factors p off k last) ≡ (span (values_at v p off) 0 k && value v last)
  unfolding all_factors span
  all_factors-eq zero last = ground arith
  all_factors-eq (suc m) last = ground (arith, all_factors-eq m last)

  factors-length : (k j : ℕ) (last : Sig) → 1 ≤ length (factors p off k j last)
  unfolding factors
  factors-length zero j last = omega arith
  factors-length (suc m) j last = ground arith

  all_factors-length : (k : ℕ) (last : Sig) → 1 ≤ length (all_factors p off k last)
  unfolding all_factors
  all_factors-length zero last = omega arith
  all_factors-length (suc m) last = omega arith

  terms_lem :
      (k n : ℕ)
      → Builds v
          (terms g p off k n)
          (λ ts. length ts ≡ n)
          (λ ts. any_value v ts ≡ made (values_at v g off) (values_at v p off) k n)
  unfolding terms made
  terms_lem k zero = Builds-pure v _ _ [] refl refl
  terms_lem k (suc j) =
      Builds-bind v _ _ _ _ _ _
        (and_of_list v (factors p off k j (sig_at g (off + j))) (factors-length k j _))
        λ t _. Builds-bind v _ _ _ _ _ _ (terms_lem k j) λ ts l.
          Builds-pure v _ _ (t ∷ ts) (ap suc l)
            λ es et. ap₂ ◌||◌ (et ∙ factors-eq k j (sig_at g (off + j))) es

  -- `claBorrow` gives the borrow into place `k` of the window.
  pub cla_borrow_lem :
      (bor_in : Sig) (k : ℕ)
      → Builds v
          (cla_borrow g p off bor_in k)
          Any
          (λ s. value v s ≡ borrow (values_at v g off) (values_at v p off) (value v bor_in) k)
  unfolding cla_borrow borrow
  cla_borrow_lem bor_in zero = Builds-pure v _ _ bor_in tt refl
  cla_borrow_lem bor_in (suc k) = Builds-bind v _ _ _ _ _ _ (terms_lem (suc k) (suc k)) λ ts l.
      Builds-bind v _ _ _ _ _ _
        (and_of_list v (all_factors p off (suc k) bor_in) (all_factors-length (suc k) bor_in))
        λ t _.
          Builds-weaken v _ _ _ _ (or_of (ts ++ t ∷ []))
            (or_of_list v (ts ++ t ∷ []) (omega (arith, length-append ts (t ∷ []), l))) (λ s r. tt)
            λ s r e et es. ground (
              arith,
              any_value-append v ts (t ∷ []),
              all_factors-eq (suc k) bor_in,
              made-borrow_all (values_at v g off) (values_at v p off) (value v bor_in) (suc k),
            )

  -- `claGroup` gives the borrow that four places make, and whether all of them hand one on.
  pub cla_group_lem : Builds v (cla_group g p off) Any (λ q.
      (value v q.0 ≡ borrow (values_at v g off) (values_at v p off) false 4)
      × (value v q.1 ≡ span (values_at v p off) 0 4))
  unfolding cla_group
  cla_group_lem = Builds-bind v _ _ _ _ _ _ (terms_lem 4 4) λ ts l.
      Builds-bind v _ _ _ _ _ _ (or_of_list v ts (omega (arith, l))) λ gg _.
        Builds-bind v _ _ _ _ _ _ (and_of_lem v _ _) λ gp _.
          Builds-pure v _ _ (gg, gp) tt
            λ ep eg es. (
              eg ∙ es ∙ made-all (values_at v g off) (values_at v p off) 4,
              ep ∙ span-four (values_at v p off),
            )
