-- ===== src/Lane/Collect.antt =====
-- The loop rule for the loops that push one result a round.
use hsq_over_nand.Base.{
  ℕ, zero, suc, ◌+◌, ◌<◌, ◌≡◌, refl, ap, Bool, List, [], ◌∷◌, map, length, get_or, get_elem?, some,
  arith,
}
use hsq_over_nand.Netlist.{Build}
use hsq_over_nand.Netlist.Meaning.{Builds, Builds-pure, Builds-bind}
use hsq_over_nand.Lane.{collect}

-- `P` holds of each element, at its index counted from `i`.
abbrev pub Each : {A : Type 0} → (ℕ → A → Type 0) → ℕ → List A → Type 0
Each P i [] = Unit
Each P i (a ∷ as') = P i a × Each P (i + 1) as'

-- As many elements as rounds, each of the shape `R`.
abbrev pub Rounds : {A : Type 0} → (ℕ → A → Type 0) → ℕ → ℕ → List A → Type 0
Rounds R n i l = (length l ≡ n) × Each R i l

pub collect_lem :
    (v : ℕ → Bool) {A : Type 0} (R P : ℕ → A → Type 0) (body : ℕ → Build A)
    → ((i : ℕ) → Builds v (body i) (R i) (P i))
    → (n i : ℕ) → Builds v (collect n i body) (Rounds R n i) (Each P i)
unfolding collect
collect_lem v R P body h zero i = Builds-pure v _ _ [] (refl, tt) tt
collect_lem v R P body h (suc n) i = Builds-bind v _ _ _ _ _ _ (h i) λ a r.
    Builds-bind v _ _ _ _ _ _ (collect_lem v R P body h n (i + 1))
      λ l s. Builds-pure v _ _ (a ∷ l) (ap suc s.0, (r, s.1)) λ ps p. (p, ps)

-- The array of one component, and the element at an index.
pub Each-map :
    {A B : Type 0} (Q : ℕ → B → Type 0) (f : A → B) (i : ℕ) (l : List A)
    → Each (λ k a. Q k (f a)) i l
    → Each Q i (map f l)
Each-map Q f i [] h = tt
Each-map Q f i (a ∷ l) h = (h.0, Each-map Q f (i + 1) l h.1)

pub Each-weaken :
    {A : Type 0} (P Q : ℕ → A → Type 0) (i : ℕ) (l : List A)
    → ((k : ℕ) (a : A) → P k a → Q k a)
    → Each P i l
    → Each Q i l
Each-weaken P Q i [] f h = tt
Each-weaken P Q i (a ∷ l) f h = (f i a h.0, Each-weaken P Q (i + 1) l f h.1)

pub Each-get_or :
    {A : Type 0} (P : ℕ → A → Type 0) (d : A) (i : ℕ) (l : List A)
    → Each P i l
    → (j k : ℕ) → j < length l
    → i + j ≡ k
    → P k (get_or l j d)
Each-get_or P d i [] h j k lt e = absurd (omega arith)
Each-get_or P d i (a ∷ l) h zero k lt e = let e' : i ≡ k = omega arith in rw (← e') h.0
Each-get_or P d i (a ∷ l) h (suc j) k lt e =
    Each-get_or P d (i + 1) l h.1 j k (omega arith) (omega arith)

pub length-map : {A B : Type 0} (f : A → B) (l : List A) → length (map f l) ≡ length l
length-map f [] = refl
length-map f (a ∷ l) = ap suc (length-map f l)

pub Each-get_elem? :
    {A : Type 0} (P : ℕ → A → Type 0) (i : ℕ) (l : List A)
    → Each P i l
    → (j k : ℕ) (a : A) → get_elem? l j ≡ some a
    → i + j ≡ k
    → P k a
Each-get_elem? P i [] h j k a at e = cc
Each-get_elem? P i (b ∷ l) h zero k a at e =
    let e' : i ≡ k = omega arith in let same : b ≡ a = cc in rw (← e', ← same) h.0
Each-get_elem? P i (b ∷ l) h (suc j) k a at e =
    Each-get_elem? P (i + 1) l h.1 j k a at (omega arith)
