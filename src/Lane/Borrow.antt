-- ===== src/Lane/Borrow.antt =====
-- The borrow of a subtraction, bit by bit, and why the look-ahead of `claBorrow` and `claGroup`
-- (src/server/ROM.cpp) finds it. `g j` is a borrow made at place `j`, `p j` one handed on.
use hsq_over_nand.Base.{
  ℕ, zero, suc, ◌+◌, ◌*◌, ◌/◌, ◌%◌, ◌≤◌, ◌<◌, ◌≡◌, refl, sym, ap, ap₂, ◌∙◌, Bool, true, false, ◌&&◌,
  ◌||◌, ltb, if◌then◌else◌, arith, dec_lt,
}

-- The borrow into place `k`, with the borrow `c` into place 0.
unfoldable pub borrow : (ℕ → Bool) → (ℕ → Bool) → Bool → ℕ → Bool
borrow g p c zero = c
borrow g p c (suc k) = g k || (p k && borrow g p c k)

-- Places `n` to `k - 1` all hand on.
unfoldable pub span : (ℕ → Bool) → ℕ → ℕ → Bool
span p n zero = true
span p n (suc m) = if ltb m n then true else (p m && span p n m)

-- The first `n` terms of the look-ahead over `k` places.
unfoldable pub made : (ℕ → Bool) → (ℕ → Bool) → ℕ → ℕ → Bool
made g p k zero = false
made g p k (suc j) = (span p (suc j) k && g j) || made g p k j

span-of_le : (p : ℕ → Bool) (n k : ℕ) → k ≤ n → span p n k ≡ true
unfolding span
span-of_le p n zero h = refl
span-of_le p n (suc m) h = ground arith

span-suc : (p : ℕ → Bool) (n k : ℕ) → n < k → span p n k ≡ (span p (suc n) k && p n)
unfolding span
span-suc p n zero h = elim h [ ]
span-suc p n (suc m) h = elim (dec_lt n m) [
  | yes below ↦ ground (arith, span-suc p n m below)
  | no last ↦
      let e : n ≡ m = omega arith in
      ground (arith, span-of_le p n m (omega arith), span-of_le p (suc n) m (omega arith), ap p e)
]

module _ (g p : ℕ → Bool) (c : Bool) where
  made-borrow :
      (k n : ℕ) → n ≤ k → (made g p k n || (span p 0 k && c)) ≡ (span p n k && borrow g p c n)
  unfolding made borrow
  made-borrow k zero h = refl
  made-borrow k (suc n) h = ground (arith, made-borrow k n (omega arith), span-suc p n k h)

  -- The terms and the borrow that passes through all places make up the borrow.
  pub made-borrow_all : (k : ℕ) → (made g p k k || (span p 0 k && c)) ≡ borrow g p c k
  made-borrow_all k = ground (arith, made-borrow k k (omega arith), span-of_le p k k (omega arith))

-- Without the last term: the borrow with none coming in.
pub made-all : (g p : ℕ → Bool) (k : ℕ) → made g p k k ≡ borrow g p false k
made-all g p k = ground (arith, made-borrow_all g p false k)

pub borrow-split :
    (g p : ℕ → Bool) (c : Bool) (k : ℕ) → (borrow g p false k || (span p 0 k && c)) ≡ borrow g p c k
borrow-split g p c k = ground (arith, made-borrow_all g p c k, made-all g p k)

pub borrow-add :
    (g p : ℕ → Bool) (c : Bool) (m u : ℕ)
    → borrow (λ j. g (m + j)) (λ j. p (m + j)) (borrow g p c m) u ≡ borrow g p c (m + u)
unfolding borrow
borrow-add g p c m zero = ap (borrow g p c) (omega arith)
borrow-add g p c m (suc u) =
    let e : m + suc u ≡ suc (m + u) = omega arith in rw e (rw (borrow-add g p c m u))

pub borrow-congr :
    (g p g' p' : ℕ → Bool) (c : Bool) (k : ℕ)
    → ((j : ℕ) → j < k → (g j ≡ g' j) × (p j ≡ p' j))
    → borrow g p c k ≡ borrow g' p' c k
unfolding borrow
borrow-congr g p g' p' c zero h = refl
borrow-congr g p g' p' c (suc k) h =
    ground (arith, h k (omega arith), borrow-congr g p g' p' c k (λ j l. h j (omega arith)))

-- Groups of four places: the borrow over groups is the borrow over places.
pub borrow-groups :
    (g p gg gp : ℕ → Bool) (c : Bool) (k : ℕ)
    → ((j : ℕ)
        → j < k
        → (gg j ≡ borrow (λ u. g (4 * j + u)) (λ u. p (4 * j + u)) false 4)
          × (gp j ≡ span (λ u. p (4 * j + u)) 0 4))
    → borrow gg gp c k ≡ borrow g p c (4 * k)
unfolding borrow
borrow-groups g p gg gp c zero h = refl
borrow-groups g p gg gp c (suc k) h =
    let ih = borrow-groups g p gg gp c k (λ j l. h j (omega arith)) in
    let e : 4 * suc k ≡ 4 * k + 4 = omega arith in
    let one = borrow-split (λ u. g (4 * k + u)) (λ u. p (4 * k + u)) (borrow g p c (4 * k)) 4 in
    ap₂ ◌||◌ (h k (omega arith)).0 (ap₂ ◌&&◌ (h k (omega arith)).1 ih)
    ∙ one
    ∙ borrow-add g p c (4 * k) 4
    ∙ ap (borrow g p c) (sym e)

-- Place `i` by the group that it stands in.
pub borrow-in_group :
    (g p : ℕ → Bool) (c : Bool) (i : ℕ)
    → borrow
        (λ u. g (4 * (i / 4) + u))
        (λ u. p (4 * (i / 4) + u))
        (borrow g p c (4 * (i / 4)))
        (i % 4)
      ≡ borrow g p c i
borrow-in_group g p c i = borrow-add g p c (4 * (i / 4)) (i % 4) ∙ ap (borrow g p c) (omega arith)
