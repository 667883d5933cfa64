-- ===== src/Word/Shift.antt =====
-- Words through shift registers: GET_IN of src/server/cpu.cpp takes the bits of an operand from its low
-- end, and PUSH_OUT pushes the bits of a result in at the top.
use native.Mathlib.Nat.{pow-suc}
use hsq_over_nand.Base.{
  ℕ, zero, suc, ◌+◌, ◌*◌, ◌/◌, ◌%◌, ◌^◌, ◌<◌, ◌≡◌, refl, ap, ◌∙◌, Bool, true, false, ◌==◌,
  if◌then◌else◌, arith, Bool-cases, inl, inr,
}
use hsq_over_nand.Word.{word_of, word_of-lt}

-- The operand after `n` shifts, and the bit that comes then.
unfoldable pub halves : ℕ → ℕ → ℕ
halves a zero = a
halves a (suc n) = halves a n / 2

abbrev pub bit_at : ℕ → ℕ → Bool
bit_at a i = halves a i % 2 == 1

double : (n : ℕ) → 2 ^ suc n ≡ 2 * 2 ^ n
double n = omega (arith, pow-suc 2 n)

assoc : (a b : ℕ) → 2 * a * b ≡ 2 * (a * b)
assoc a b = grind arith

swap : (a b : ℕ) → a * (2 * b) ≡ 2 * (a * b)
swap a b = grind arith

-- One more bit of the operand, with the place value `p`.
halves_step :
    (p h w a : ℕ) → w + p * h ≡ a → w + (if h % 2 == 1 then p else 0) + 2 * p * (h / 2) ≡ a
halves_step p h w a e = elim (Bool-cases (h % 2 == 1)) [
  | inl odd ↦
      let split : h ≡ 2 * (h / 2) + 1 = ground arith in
      rw odd (omega (arith, e, ap (λ (t : ℕ). p * t) split))
  | inr even ↦
      let split : h ≡ 2 * (h / 2) = ground arith in
      rw even (omega (arith, e, ap (λ (t : ℕ). p * t) split))
]

word_of-halves : (a n : ℕ) → word_of (bit_at a) n + 2 ^ n * halves a n ≡ a
unfolding word_of halves
word_of-halves a zero = omega arith
word_of-halves a (suc n) =
    let e : 2 ^ suc n ≡ 2 * 2 ^ n = double n in
    rw e (halves_step (2 ^ n) (halves a n) (word_of (bit_at a) n) a (word_of-halves a n))

-- The bits that come are those of the operand.
pub word_of-bit_at : (a : ℕ) → a < 2 ^ 64 → word_of (bit_at a) 64 ≡ a
word_of-bit_at a lt = grind (arith, word_of-halves a 64, word_of-lt (bit_at a) 64)

-- `out >>= 1; out |= (uint64_t)b << 63`.
abbrev pub push : ℕ → Bool → ℕ
push r b = r / 2 + (if b then 2 ^ 63 else 0)

-- After `n` bits the register holds them at its top, above the `left` bits of its old content.
pub record Pushed (f : ℕ → Bool) (n r : ℕ) : Type 0 where
  pub old : ℕ
  pub left : ℕ
  pub all : n + left ≡ 64
  pub whole : 2 ^ left * 2 ^ n ≡ 2 ^ 64
  pub small : old < 2 ^ left
  pub value : r ≡ old + word_of f n * 2 ^ left

pub Pushed-zero : (f : ℕ → Bool) (r : ℕ) → r < 2 ^ 64 → Pushed f 0 r
unfolding word_of
Pushed-zero f r h = record {
  old = r;
  left = 64;
  all = refl;
  whole = refl;
  small = h;
  value = omega arith;
}

pub Pushed-all : (f : ℕ → Bool) (r : ℕ) → Pushed f 64 r → r ≡ word_of f 64
Pushed-all f r h =
    let none' : h.left ≡ 0 = omega (arith, h.all) in
    let one' : 2 ^ h.left ≡ 1 = ap (λ (k : ℕ). 2 ^ k) none' in
    omega (arith, h.value, h.small, one', ap (λ (k : ℕ). word_of f 64 * k) one')

-- The register after one more bit, by the place values `u` of the bit and `t` of the lowest one.
push_step :
    (u t w old r : ℕ) (b : Bool)
    → t * u ≡ 2 ^ 63
    → r ≡ old + w * (2 * t)
    → push r b ≡ old / 2 + (w + (if b then u else 0)) * t
push_step u t w old r true whole e =
    let twice : w * (2 * t) ≡ 2 * (w * t) = swap w t in
    let spread : (w + u) * t ≡ w * t + t * u = grind arith in omega (arith, whole, e, twice, spread)
push_step u t w old r false whole e =
    let twice : w * (2 * t) ≡ 2 * (w * t) = swap w t in
    let same : w + 0 ≡ w = omega arith in rw same (omega (arith, e, twice))

pub Pushed-suc : (f : ℕ → Bool) (n r : ℕ) → n < 64 → Pushed f n r → Pushed f (suc n) (push r (f n))
unfolding word_of
Pushed-suc f n r lt h = more h.left h.all h.whole h.small h.value
  where
    more :
        (left : ℕ)
        → n + left ≡ 64
        → 2 ^ left * 2 ^ n ≡ 2 ^ 64
        → h.old < 2 ^ left
        → r ≡ h.old + word_of f n * 2 ^ left
        → Pushed f (suc n) (push r (f n))
    more zero all whole small value = absurd (omega arith)
    more (suc k) all whole small value =
        let e : 2 ^ suc k ≡ 2 * 2 ^ k = double k in
        let e' : 2 ^ suc n ≡ 2 * 2 ^ n = double n in
        let half : 2 ^ k * 2 ^ n ≡ 2 ^ 63 =
          omega (arith, whole, ap (λ (t : ℕ). t * 2 ^ n) e, assoc (2 ^ k) (2 ^ n)) in
        record {
          old = h.old / 2;
          left = k;
          all = omega arith;
          whole = ap (λ (t : ℕ). 2 ^ k * t) e' ∙ omega (arith, half, swap (2 ^ k) (2 ^ n));
          small = omega (arith, e);
          value =
              push_step (2 ^ n) (2 ^ k) (word_of f n) h.old r (f n) half
                (value ∙ ap (λ (t : ℕ). h.old + word_of f n * t) e);
        }
