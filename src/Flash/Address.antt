-- ===== src/Flash/Address.antt =====
-- Where the byte of an address lies: its page goes round the chips, `chipIndexOf` and `physPageOf` of
-- include/W25NSpiFlashDevice.hpp.
use hsq_over_nand.Base.{
  ℕ, ◌+◌, ◌-◌, ◌*◌, ◌/◌, ◌%◌, ◌<◌, ◌≡◌, refl, sym, ap, ap₂, ◌∙◌, arith, true, ◌==◌, if◌then◌else◌,
  Bool-cases, inl, inr,
}
use hsq_over_nand.Cpu.{update}
use native.Mathlib.Nat.{div-add-mod', div-lt_iff_lt-mul}
use hsq_over_nand.Nand.{Buffer}
use hsq_over_nand.Flash.{Chips}
use hsq_over_nand.Flash.Contract.{Driver, Works, page_size, total_size, num_pages}

-- The byte of a chip that an address stands for.
abbrev pub within : ℕ → ℕ → ℕ
within n a = a / page_size / n * page_size + a % page_size

-- What the chips hold, as one device.
abbrev pub whole : {C : Driver} → Works C → (n : ℕ) → Chips C n → Buffer
whole W n ds a = W.contents (ds (a / page_size % n)) (within n a)

pub phys_lt : (n a : ℕ) → 0 < n → a < total_size * n → a / page_size / n < num_pages
phys_lt n a pos h = (div-lt_iff_lt-mul pos).1 (omega arith)

pub same_page :
    (a j : ℕ)
    → a % page_size + j < page_size
    → ((a + j) / page_size ≡ a / page_size) × ((a + j) % page_size ≡ a % page_size + j)
same_page a j h = (omega arith, omega arith)

-- The chip and the page on the chip give the page back.
pub page-inj : (n p q : ℕ) → p % n ≡ q % n → p / n ≡ q / n → p ≡ q
page-inj n p q h k = sym (div-add-mod' p n) ∙ ap₂ (λ x y. x * n + y) k h ∙ div-add-mod' q n

pub ==-true : (c i : ℕ) → (c == i) ≡ true → c ≡ i
==-true c i e = ground arith

pub within-page : (n a : ℕ) → within n a / page_size ≡ a / page_size / n
within-page n a = let x = a / page_size / n in omega arith

pub within-col : (n a : ℕ) → within n a - a / page_size / n * page_size ≡ a % page_size
within-col n a = omega arith

-- A chip in whose place another stands, seen through what it holds.
pub update-ap :
    {D : Type 0} (g : D → ℕ) (ds : ℕ → D) (c : ℕ) (d : D) (i : ℕ)
    → g (update ds c d i) ≡ (if c == i then g d else g (ds i))
update-ap g ds c d i = elim (Bool-cases (c == i)) [ inl e ↦ rw e refl | inr e ↦ rw e refl ]

pub whole-update :
    {C : Driver} (W : Works C) (n : ℕ) (ds : Chips C n) (c : ℕ) (d : C.Dev) (a : ℕ)
    → whole W n (update ds c d) a
      ≡ (if c == a / page_size % n then W.contents d (within n a) else whole W n ds a)
whole-update W n ds c d a = update-ap (λ d'. W.contents d' (within n a)) ds c d (a / page_size % n)

-- A chip in whose place one stands that holds the same.
pub whole-same :
    {C : Driver} (W : Works C) (n : ℕ) (ds : Chips C n) (c : ℕ) (d : C.Dev)
    → ((x : ℕ) → W.contents d x ≡ W.contents (ds c) x)
    → (a : ℕ) → whole W n (update ds c d) a ≡ whole W n ds a
whole-same W n ds c d h a =
    let i = a / page_size % n in
    whole-update W n ds c d a ∙ (elim (Bool-cases (c == i)) [
      | inl e ↦ rw e (h (within n a) ∙ ap (λ j. W.contents (ds j) (within n a)) (==-true c i e))
      | inr e ↦ rw e refl
    ])

-- The bytes of a page, by their place on the page.
pub whole-page :
    {C : Driver} (W : Works C) (n : ℕ) (ds : Chips C n) (a j : ℕ)
    → a % page_size + j < page_size
    → W.contents (ds (a / page_size % n)) (a / page_size / n * page_size + (a % page_size + j))
      ≡ whole W n ds (a + j)
whole-page W n ds a j h =
    let s = same_page a j h in
    ap₂ (λ p c. W.contents (ds (p % n)) (p / n * page_size + c)) (sym s.0) (sym s.1)
