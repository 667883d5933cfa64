-- ===== src/Cpu/Operands.antt =====
-- What the GET_INs of a round (src/server/cpu.cpp) leave in the page buffer: the bits of the operands in
-- the input cells, and 0xff in all others.
use hsq_over_nand.Base.{ℕ, zero, suc, ◌+◌, ◌-◌, ◌≤◌, ◌<◌, ◌≡◌, ◌≢◌, refl, ◌∙◌, Bool, ◌==◌, arith}
use hsq_over_nand.Nand.{Buffer}
use hsq_over_nand.Word.Shift.{bit_at}
use hsq_over_nand.Lane.{Lane, index_at}
use hsq_over_nand.Cpu.{update}
use hsq_over_nand.Cpu.Page.{byte_of}
use hsq_over_nand.Cpu.Load.{loaded}

-- The input cells of a lane from bit `i` on rise from `lo`, below `hi`, in the order of the GET_INs.
unfoldable pub Rising : Lane → ℕ → ℕ → ℕ → ℕ → Type 0
Rising l lo hi i zero = lo ≤ hi
Rising l lo hi i (suc n) =
    (lo ≤ index_at l.ain i)
    × (index_at l.ain i < index_at l.bin i)
    × Rising l (index_at l.bin i + 1) hi (i + 1) n

pub Rising-le : (l : Lane) (lo hi i n : ℕ) → Rising l lo hi i n → lo ≤ hi
unfolding Rising
Rising-le l lo hi i zero h = h
Rising-le l lo hi i (suc n) h =
    omega (arith, h, Rising-le l (index_at l.bin i + 1) hi (i + 1) n h.2)

-- Each input cell lies between the bounds.
pub Rising-between :
    (l : Lane) (lo hi i n k j : ℕ)
    → Rising l lo hi i n
    → k < n
    → i + k ≡ j
    → (lo ≤ index_at l.ain j)
      × (index_at l.ain j < hi)
      × (lo ≤ index_at l.bin j)
      × (index_at l.bin j < hi)
unfolding Rising
Rising-between l lo hi i zero k j h lt e = absurd (omega arith)
Rising-between l lo hi i (suc n) zero j h lt e =
    let e' : i ≡ j = omega arith in
    let top = Rising-le l (index_at l.bin i + 1) hi (i + 1) n h.2 in
    rw (← e') (omega (arith, h, top))
Rising-between l lo hi i (suc n) (suc k) j h lt e = omega (
  arith,
  h,
  Rising-between l (index_at l.bin i + 1) hi (i + 1) n k j h.2 (omega arith) (omega arith),
)

-- Every byte of the page stands for a bit.
abbrev pub IsBits : Buffer → Type 0
IsBits p = (j : ℕ) → p j ≡ byte_of (p j == 0xff)

IsBits-update : (p : Buffer) (x : ℕ) (b : Bool) → IsBits p → IsBits (update p x (byte_of b))
IsBits-update p x b h j = ground (arith, h j)

module _ (l : Lane) (a b : ℕ) where
  pub loaded-IsBits : (i n : ℕ) (p : Buffer) → IsBits p → IsBits (loaded l a b i n p)
  unfolding loaded
  loaded-IsBits i zero p h = h
  loaded-IsBits i (suc n) p h = loaded-IsBits (i + 1) n _ (
      IsBits-update _ (index_at l.bin i) (bit_at b i)
        (IsBits-update p (index_at l.ain i) (bit_at a i) h))

  -- Other cells are left alone.
  pub loaded-other :
      (i n j : ℕ) (p : Buffer)
      → ((k : ℕ) → i ≤ k → k < i + n → (index_at l.ain k ≢ j) × (index_at l.bin k ≢ j))
      → loaded l a b i n p j ≡ p j
  unfolding loaded
  loaded-other i zero j p h = refl
  loaded-other i (suc n) j p h =
      loaded-other (i + 1) n j _ (λ k le lt. h k (omega arith) (omega arith))
      ∙ ground (arith, (h i (omega arith) (omega arith)).0, (h i (omega arith) (omega arith)).1)

  pub loaded-outside :
      (lo hi i n j : ℕ) (p : Buffer) → Rising l lo hi i n → j < lo → loaded l a b i n p j ≡ p j
  loaded-outside lo hi i n j p h lt = loaded-other i n j p λ k le klt.
      let r = Rising-between l lo hi i n (k - i) k h (omega arith) (omega arith) in
      ((λ e. absurd (omega (arith, e, r.0))), (λ e. absurd (omega (arith, e, r.2))))

  -- Each input cell holds its bit.
  pub loaded-bits :
      (lo hi i n k j : ℕ) (p : Buffer)
      → Rising l lo hi i n
      → k < n
      → i + k ≡ j
      → (loaded l a b i n p (index_at l.ain j) ≡ byte_of (bit_at a j))
        × (loaded l a b i n p (index_at l.bin j) ≡ byte_of (bit_at b j))
  unfolding loaded Rising
  loaded-bits lo hi i zero k j p h lt e = absurd (omega arith)
  loaded-bits lo hi i (suc n) zero j p h lt e =
      let e' : i ≡ j = omega arith in
      let keeps = λ (x : ℕ) (below : x < index_at l.bin i + 1) (q : Buffer).
        loaded-outside (index_at l.bin i + 1) hi (i + 1) n x q h.2 below in
      rw (← e') (
        (keeps (index_at l.ain i) (omega (arith, h)) _ ∙ ground (arith, h.1)),
        (keeps (index_at l.bin i) (omega arith) _ ∙ ground arith),
      )
  loaded-bits lo hi i (suc n) (suc k) j p h lt e =
      loaded-bits (index_at l.bin i + 1) hi (i + 1) n k j _ h.2 (omega arith) (omega arith)
