-- ===== src/Netlist/GrowGates.antt =====
-- The gates of src/server/ROM.cpp keep a netlist tidy, and take the cells counted here.
use hsq_over_nand.Base.{
  ℕ, ◌<◌, refl, sym, ◌∙◌, Bool, true, false, inl, inr, List, [], ◌∷◌, map, length, arith,
  assert-some, leb,
}
use hsq_over_nand.Netlist.{Sig, not_sig, pure, input, and_of, or_of, xor_of, buf}
use hsq_over_nand.Netlist.Gates.{write_of, writes, gate, gate-eq, buf_inverted-eq}
use hsq_over_nand.Netlist.Grow.{
  Grows, Grows-pure, Grows-bind, Grows-weaken, Grown-cell, some-pair, In, All, All-map, All-weaken,
  Earlier-writes,
}

module _ (base lo : ℕ) where
  -- A gate of one signal or more.
  gate-Grows :
      (inv : Bool) (x : Sig) (xs : List Sig)
      → All (In lo) (x ∷ xs)
      → Grows base lo (gate inv (x ∷ xs)) 1 (λ k s. In k s)
  unfolding Grows writes write_of
  gate-Grows inv x xs h n n' a t le room e =
      let (one, net) = some-pair _ a _ n' (sym (gate-eq inv (x ∷ xs) n) ∙ e) in
      rw (← one, ← net)
        (Grown-cell base (λ k s. In k s) n _ (writes (x ∷ xs)) 0 t room
          (inr (
            refl,
            omega arith,
            Earlier-writes (length n.cells) (x ∷ xs)
                (All-weaken (In lo) (In (length n.cells)) (x ∷ xs) (λ s p. omega arith) h),
          ))
          (omega arith))

  -- A single signal is passed on.
  pub and_of_one-Grows : (x : Sig) → In lo x → Grows base lo (and_of (x ∷ [])) 0 (λ k s. In k s)
  unfolding and_of
  and_of_one-Grows x h = Grows-pure base lo x (λ k s. In k s) (λ k le. omega (arith, h))

  pub and_of-Grows : (xs : List Sig) → All (In lo) xs → Grows base lo (and_of xs) 1 (λ k s. In k s)
  unfolding and_of gate Grows
  and_of-Grows [] h = λ n n' a t le room e. absurd (cc e)
  and_of-Grows (x ∷ []) h =
      Grows-weaken base lo lo 0 1 (pure x) (λ k s. In k s) (λ k s. In k s) (and_of_one-Grows x h.0)
        (omega arith) (omega arith) (λ k a le p. p)
  and_of-Grows (x ∷ y ∷ xs) h = gate-Grows false x (y ∷ xs) h

  pub or_of-Grows : (xs : List Sig) → All (In lo) xs → Grows base lo (or_of xs) 1 (λ k s. In k s)
  unfolding or_of gate Grows
  or_of-Grows [] h = λ n n' a t le room e. absurd (cc e)
  or_of-Grows (x ∷ xs) h = λ n n' a t le room e.
      let (big, e') =
        assert-some (leb 2 (length (x ∷ xs))) (gate true (map not_sig (x ∷ xs)) n) (a, n') e in
      gate-Grows true (not_sig x) (map not_sig xs)
        (All-map (In lo) (In lo) not_sig (x ∷ xs) (λ s p. p) h) n n' a t le room e'

  pub input-Grows : Grows base lo input 1 (λ k (i : ℕ). i < k)
  unfolding input Grows
  input-Grows n n' a t le room e =
      let (one, net) = some-pair (length n.cells) a _ n' e in
      rw (← one, ← net)
        (Grown-cell base (λ k (i : ℕ). i < k) n (length n.cells) [] 1 t room (inl (refl, refl))
          (omega arith))

pub xor_of-Grows :
    (base lo : ℕ) (a b : Sig) → In lo a → In lo b → Grows base lo (xor_of a b) 3 (λ k s. In k s)
unfolding xor_of
xor_of-Grows base lo a b ha hb =
    Grows-bind base lo _ _ 1 2 (λ k s. In k s) (λ k s. In k s)
      (and_of-Grows base lo (a ∷ b ∷ []) (ha, (hb, tt)))
      λ hi k le hh.
        Grows-bind base k _ _ 1 1 (λ k s. In k s) (λ k s. In k s)
          (and_of-Grows base k (not_sig a ∷ not_sig b ∷ []) (omega arith, (omega arith, tt)))
          λ lo' k' le' hl.
            Grows-bind base k' _ _ 1 0 (λ k s. In k s) (λ k s. In k s)
              (or_of-Grows base k' (hi ∷ lo' ∷ []) (omega arith, (hl, tt)))
              λ o k'' le'' ho.
                Grows-pure base k'' (not_sig o) (λ k s. In k s) (λ j jle. omega arith)

buf_cases-Grows :
    (base lo c : ℕ) (inv : Bool)
    → c < lo
    → Grows base lo (buf (record { cell = c; inv = inv })) 1 (λ k s. In k s)
unfolding buf Grows
buf_cases-Grows base lo c false lt =
    Grows-weaken base lo lo 0 1 (pure (record { cell = c; inv = false })) (λ k s. In k s)
      (λ k s. In k s) (Grows-pure base lo _ (λ k s. In k s) (λ k le. omega arith)) (omega arith)
      (omega arith) (λ k a le p. p)
buf_cases-Grows base lo c true lt = λ n n' a t le room e.
    gate-Grows base lo false (record { cell = c; inv = true }) [] (lt, tt) n n' a t le room
      (sym (buf_inverted-eq c n) ∙ e)

pub buf-Grows : (base lo : ℕ) (s : Sig) → In lo s → Grows base lo (buf s) 1 (λ k s. In k s)
buf-Grows base lo s h = buf_cases-Grows base lo s.cell s.inv h
