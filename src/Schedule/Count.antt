-- ===== src/Schedule/Count.antt =====
-- Counting in the vectors of `schedule` (src/server/ROM.cpp): how often a cell stands in a list of
-- indices, how many writes of a cell read another one, and how many still wait for their source.
use hsq_over_nand.Base.{
  ℕ, zero, suc, ◌+◌, ◌<◌, ◌≤◌, ◌≡◌, refl, ap, ◌∙◌, Bool, true, false, List, [], ◌∷◌, ◌++◌, length,
  get_or, modify, replicate, ◌==◌, if◌then◌else◌, arith, ℕ_discrete,
}
use hsq_over_nand.Netlist.{Write}
use hsq_over_nand.Cpu.{update}

abbrev pub one : Bool → ℕ
one b = if b then 1 else 0

abbrev pub times : ℕ → List ℕ → ℕ
times j [] = 0
times j (x ∷ xs) = one (j == x) + times j xs

-- The writes whose source is cell `c`.
abbrev pub uses : ℕ → List Write → ℕ
uses c [] = 0
uses c (w ∷ ws) = one (w.src.cell == c) + uses c ws

-- The writes whose source is not yet through the queue.
abbrev pub waiting : (ℕ → Bool) → List Write → ℕ
waiting p [] = 0
waiting p (w ∷ ws) = (if p w.src.cell then 0 else 1) + waiting p ws

abbrev pub unpopped : (ℕ → Bool) → ℕ → ℕ
unpopped p zero = 0
unpopped p (suc n) = (if p n then 0 else 1) + unpopped p n

pub times-append : (j : ℕ) (xs ys : List ℕ) → times j (xs ++ ys) ≡ times j xs + times j ys
times-append j [] ys = omega arith
times-append j (x ∷ xs) ys = omega (arith, times-append j xs ys)

-- Once cell `c` is through the queue, its reads wait no longer.
pub waiting-update :
    (p : ℕ → Bool) (c : ℕ) (ws : List Write)
    → p c ≡ false
    → waiting p ws ≡ waiting (update p c true) ws + uses c ws
waiting-update p c [] h = omega arith
waiting-update p c (w ∷ ws) h = elim (ℕ_discrete c w.src.cell) [
  | yes e ↦ rw (← e) (ground (arith, waiting-update p c ws h))
  | no e ↦ ground (arith, waiting-update p c ws h)
]

unpopped-above : (p : ℕ → Bool) (c n : ℕ) → n ≤ c → unpopped (update p c true) n ≡ unpopped p n
unpopped-above p c zero h = refl
unpopped-above p c (suc n) h = ground (arith, unpopped-above p c n (omega arith))

pub unpopped-update :
    (p : ℕ → Bool) (c n : ℕ) → p c ≡ false → c < n → unpopped p n ≡ unpopped (update p c true) n + 1
unpopped-update p c zero h lt = absurd (omega arith)
unpopped-update p c (suc n) h lt = elim (ℕ_discrete c n) [
  | yes e ↦ rw (← e) (ground (arith, unpopped-above p c c (omega arith)))
  | no e ↦ ground (arith, unpopped-update p c n h (omega arith))
]

pub unpopped-zero : (p : ℕ → Bool) (n : ℕ) → unpopped p n ≡ 0 → (j : ℕ) → j < n → p j ≡ true
unpopped-zero p zero h j lt = absurd (omega arith)
unpopped-zero p (suc n) h j lt = elim (ℕ_discrete j n) [
  | yes e ↦ rw e (ground arith)
  | no e ↦ unpopped-zero p n (ground arith) j (omega arith)
]

pub unpopped-all : (p : ℕ → Bool) (n : ℕ) → ((j : ℕ) → j < n → p j ≡ true) → unpopped p n ≡ 0
unpopped-all p zero h = refl
unpopped-all p (suc n) h =
    ground (arith, h n (omega arith), unpopped-all p n (λ j lt. h j (omega arith)))

module _ {ℓ} {A : Type ℓ} where
  pub get_or-modify :
      (xs : List A) (i j : ℕ) (f : A → A) (d : A)
      → i < length xs
      → get_or (modify xs i f) j d ≡ (if i == j then f (get_or xs i d) else get_or xs j d)
  get_or-modify [] i j f d h = absurd (omega arith)
  get_or-modify (x ∷ xs) zero zero f d h = refl
  get_or-modify (x ∷ xs) zero (suc j) f d h = ground arith
  get_or-modify (x ∷ xs) (suc i) zero f d h = ground arith
  get_or-modify (x ∷ xs) (suc i) (suc j) f d h =
      get_or-modify xs i j f d (omega arith) ∙ ground arith

  -- Out of range nothing is read or changed.
  pub get_or-past : (xs : List A) (i : ℕ) (d : A) → length xs ≤ i → get_or xs i d ≡ d
  get_or-past [] i d h = refl
  get_or-past (x ∷ xs) zero d h = absurd (omega arith)
  get_or-past (x ∷ xs) (suc i) d h = get_or-past xs i d (omega arith)

  pub get_or-default :
      (xs : List A) (i : ℕ) (d e : A) → i < length xs → get_or xs i d ≡ get_or xs i e
  get_or-default [] i d e h = absurd (omega arith)
  get_or-default (x ∷ xs) zero d e h = refl
  get_or-default (x ∷ xs) (suc i) d e h = get_or-default xs i d e (omega arith)

  pub modify-past : (xs : List A) (i : ℕ) (f : A → A) → length xs ≤ i → modify xs i f ≡ xs
  modify-past [] i f h = refl
  modify-past (x ∷ xs) zero f h = absurd (omega arith)
  modify-past (x ∷ xs) (suc i) f h = ap (λ l. x ∷ l) (modify-past xs i f (omega arith))

  pub get_or-replicate : (n i : ℕ) (a : A) → get_or (replicate n a) i a ≡ a
  get_or-replicate zero i a = refl
  get_or-replicate (suc n) zero a = refl
  get_or-replicate (suc n) (suc i) a = get_or-replicate n i a

  pub length-replicate : (n : ℕ) (a : A) → length (replicate n a) ≡ n
  length-replicate zero a = refl
  length-replicate (suc n) a = ap suc (length-replicate n a)
