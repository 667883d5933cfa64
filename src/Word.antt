-- ===== src/Word.antt =====
-- 64-bit words: the number that an array of bits stands for, the wrapping subtraction of SUBLEQ and
-- its jump test. The last two are what `process_requests` (src/server/server.cpp) computes in boost
-- mode and what `test` of src/client/main.cpp expects.
pub mod Shift
use native.Mathlib.Nat.{pow-suc, one-le-pow}
use hsq_over_nand.Base.{
  ℕ, zero, suc, ◌+◌, ◌-◌, ◌*◌, ◌^◌, ◌<◌, ◌≡◌, refl, ap, ◌∙◌, Bool, true, false, not, xor, ◌&&◌,
  ◌||◌, leb, ◌==◌, if◌then◌else◌, arith, u64,
}

-- The word whose bit `i` is `f i`, for `i < n`.
unfoldable pub word_of : (ℕ → Bool) → ℕ → ℕ
word_of f zero = 0
word_of f (suc n) = word_of f n + (if f n then 2 ^ n else 0)

-- `(uint64_t)b - (uint64_t)a`.
unfoldable pub sub64 : ℕ → ℕ → ℕ
sub64 a b = u64 (b + 2 ^ 64 - a)

-- `c <= 0` for the `int64_t` with the bits of `c`.
unfoldable pub is_non_positive : ℕ → Bool
is_non_positive c = c == 0 || leb (2 ^ 63) c

pub word_of-lt : (f : ℕ → Bool) (n : ℕ) → word_of f n < 2 ^ n
unfolding word_of
word_of-lt f zero = omega arith
word_of-lt f (suc n) = ground (arith, word_of-lt f n, pow-suc 2 n)

pub word_of-same :
    (f g : ℕ → Bool) (n : ℕ) → ((i : ℕ) → i < n → f i ≡ g i) → word_of f n ≡ word_of g n
unfolding word_of
word_of-same f g zero h = refl
word_of-same f g (suc n) h =
    ground (arith, h n (omega arith), word_of-same f g n (λ i lt. h i (omega arith)))

-- A full subtractor: `s` is the difference bit, `o` the borrow out of the place.
full_subtractor :
    (x y c s o : Bool) (t : ℕ)
    → s ≡ xor (xor x y) c
    → o ≡ ((x && not y) || (not (xor x y) && c))
    → (if s then t else 0) + (if x then t else 0) + (if c then t else 0)
      ≡ (if y then t else 0) + (if o then 2 * t else 0)
unfolding xor
full_subtractor x y c s o t es eo = ground arith

two_pow-suc : (b : Bool) (n : ℕ) → (if b then 2 ^ suc n else 0) ≡ (if b then 2 * 2 ^ n else 0)
two_pow-suc b n = ground (arith, pow-suc 2 n)

-- Bits that are full subtractors, chained by their borrows, subtract words.
pub ripple :
    (x y s c : ℕ → Bool) (n : ℕ)
    → c 0 ≡ false
    → ((i : ℕ)
        → i < n
        → (s i ≡ xor (xor (x i) (y i)) (c i))
          × (c (suc i) ≡ ((x i && not (y i)) || (not (xor (x i) (y i)) && c i))))
    → word_of s n + word_of x n ≡ word_of y n + (if c n then 2 ^ n else 0)
unfolding word_of
ripple x y s c zero h0 h = ground arith
ripple x y s c (suc n) h0 h = omega (
  arith,
  ripple x y s c n h0 (λ i l. h i (omega arith)),
  full_subtractor (x n) (y n) (c n) (s n) (c (suc n)) (2 ^ n) (h n (omega arith)).0
      (h n (omega arith)).1,
  two_pow-suc (c (suc n)) n,
)

-- A word of 64 bits that satisfies the equation of `ripple` is the wrapping difference.
pub sub64-eq :
    (s x y : ℕ) (c : Bool)
    → s < 2 ^ 64
    → x < 2 ^ 64
    → y < 2 ^ 64
    → s + x ≡ y + (if c then 2 ^ 64 else 0)
    → s ≡ sub64 x y
unfolding sub64
sub64-eq s x y c hs hx hy e = ground arith

-- The `n` bits from `i` on are all 0.
unfoldable pub zeros : (ℕ → Bool) → ℕ → ℕ → Bool
zeros f i zero = true
zeros f i (suc n) = not (f i) && zeros f (i + 1) n

pub zeros-add : (f : ℕ → Bool) (i m n : ℕ) → zeros f i (m + n) ≡ (zeros f i m && zeros f (i + m) n)
unfolding zeros
zeros-add f i zero n =
    let e : 0 + n ≡ n = omega arith in let e' : i + 0 ≡ i = omega arith in rw (e, e')
zeros-add f i (suc m) n =
    let e : suc m + n ≡ suc (m + n) = omega arith in
    let e' : i + suc m ≡ i + 1 + m = omega arith in
    rw (e, e') (ground (arith, zeros-add f (i + 1) m n))

-- A word is 0 exactly when all its bits are.
pub zeros-word_of : (f : ℕ → Bool) (n : ℕ) → zeros f 0 n ≡ (word_of f n == 0)
unfolding zeros word_of
zeros-word_of f zero = refl
zeros-word_of f (suc n) =
    let e : suc n ≡ n + 1 = omega arith in
    let e' : 0 + n ≡ n = omega arith in
    ap (zeros f 0) e
    ∙ zeros-add f 0 n 1
    ∙ ground (arith, zeros-word_of f n, ap f e', one-le-pow n 2)

-- The top bit tells the words from `2 ^ n` on.
pub top_bit : (f : ℕ → Bool) (n : ℕ) → f n ≡ leb (2 ^ n) (word_of f (suc n))
unfolding word_of
top_bit f n = ground (arith, word_of-lt f n)
