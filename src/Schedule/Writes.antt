-- ===== src/Schedule/Writes.antt =====
-- The writes of a cell in `schedule` (src/server/ROM.cpp): sorting them and giving them their steps changes neither
-- what they say of the cell, nor what they wait for.
use Prim.Native.Nat.{max}
use hsq_over_nand.Base.{
  ℕ, suc, ◌+◌, ◌<◌, ◌≡◌, refl, ap, ◌∙◌, Bool, true, inl, inr, List, [], ◌∷◌, ◌&&◌, length, leb,
  Bool-cases, arith,
}
use hsq_over_nand.Netlist.{Write, Cell}
use hsq_over_nand.Netlist.Meaning.{value, ins_value}
use hsq_over_nand.Schedule.{complete_at, insert_write, stable_sort, assign_steps}
use hsq_over_nand.Schedule.Valid.{Timed}
use hsq_over_nand.Schedule.Count.{waiting}

-- The same writes, up to their order and their steps, as far as a cell's value goes.
pub record SameWrites (ws ws' : List Write) : Type 0 where
  pub many : length ws ≡ length ws'
  pub values : (v : ℕ → Bool) → ins_value v ws ≡ ins_value v ws'
  pub waits : (p : ℕ → Bool) → waiting p ws ≡ waiting p ws'

pub SameWrites-refl : (ws : List Write) → SameWrites ws ws
SameWrites-refl ws = record { many = refl; values = λ v. refl; waits = λ p. refl }

pub SameWrites-trans :
    (xs ys zs : List Write) → SameWrites xs ys → SameWrites ys zs → SameWrites xs zs
SameWrites-trans xs ys zs a b = record {
  many = a.many ∙ b.many;
  values = λ v. a.values v ∙ b.values v;
  waits = λ p. a.waits p ∙ b.waits p;
}

SameWrites-cons :
    (w w' : Write) (xs ys : List Write)
    → w.src ≡ w'.src
    → SameWrites xs ys
    → SameWrites (w ∷ xs) (w' ∷ ys)
SameWrites-cons w w' xs ys e h = record {
  many = ap suc h.many;
  values = λ v. ground (arith, h.values v, ap (value v) e);
  waits = λ p. ground (arith, h.waits p, ap (λ s. p s.cell) e);
}

SameWrites-swap : (w x : Write) (xs : List Write) → SameWrites (x ∷ (w ∷ xs)) (w ∷ (x ∷ xs))
SameWrites-swap w x xs = record {
  many = refl;
  values = λ v. swap_and (value v x.src) (value v w.src) (ins_value v xs);
  waits = λ p. omega arith;
}
  where
    swap_and : (a b c : Bool) → (a && (b && c)) ≡ (b && (a && c))
    swap_and a b c = ground arith

module _ (cells : List Cell) where
  pub insert_write-SameWrites :
      (w : Write) (xs : List Write) → SameWrites (insert_write cells w xs) (w ∷ xs)
  unfolding insert_write
  insert_write-SameWrites w [] = SameWrites-refl _
  insert_write-SameWrites w (x ∷ xs) =
      elim (Bool-cases (leb (complete_at cells w.src.cell) (complete_at cells x.src.cell))) [
        | inl first ↦ rw first (SameWrites-refl _)
        | inr later ↦ rw later (
            SameWrites-trans _ _ _ (SameWrites-cons x x _ _ refl (insert_write-SameWrites w xs))
              (SameWrites-swap w x xs))
      ]

  pub stable_sort-SameWrites : (ws : List Write) → SameWrites (stable_sort cells ws) ws
  unfolding stable_sort
  stable_sort-SameWrites [] = SameWrites-refl []
  stable_sort-SameWrites (w ∷ ws) =
      SameWrites-trans _ _ _ (insert_write-SameWrites w (stable_sort cells ws))
        (SameWrites-cons w w _ _ refl (stable_sort-SameWrites ws))

  pub assign_steps-SameWrites :
      (t : ℕ) (ws : List Write) → SameWrites (assign_steps cells t ws).0 ws
  unfolding assign_steps
  assign_steps-SameWrites t [] = SameWrites-refl []
  assign_steps-SameWrites t (w ∷ ws) =
      SameWrites-cons _ w _ ws refl
        (assign_steps-SameWrites (max (complete_at cells w.src.cell) t + 1) ws)

  -- The steps come one after another, each behind its source.
  pub assign_steps-Timed :
      (p : ℕ → Bool) (t : ℕ) (ws : List Write)
      → ((j : ℕ) → p j ≡ true → j < length cells)
      → waiting p ws ≡ 0
      → Timed cells t (assign_steps cells t ws).0 (assign_steps cells t ws).1
  unfolding assign_steps
  assign_steps-Timed p t [] inside h = refl
  assign_steps-Timed p t (w ∷ ws) inside h = (
    ground arith,
    ground arith,
    inside w.src.cell (ground arith),
    assign_steps-Timed p (max (complete_at cells w.src.cell) t + 1) ws inside (ground arith),
  )
