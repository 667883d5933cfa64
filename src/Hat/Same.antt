-- ===== src/Hat/Same.antt =====
-- `W25NFlashDevice` (include/W25NFlashDevice.hpp) does what `W25NSpiFlashDevice` does with one chip.
use hsq_over_nand.Base.{
  ℕ, zero, suc, ◌+◌, ◌-◌, ◌/◌, ◌%◌, ◌≡◌, refl, ◌∙◌, Bool, true, false, not, leb, ◌==◌, ◌||◌, u32,
  Bool-cases, inl, inr, arith,
}
use hsq_over_nand.Nand.{Buffer}
use hsq_over_nand.Cpu.{update}
use hsq_over_nand.Flash.{Chips, chunk, read_chunk, read_loop, read, erase_chips, erase_loop, erase}
use hsq_over_nand.Flash.Contract.{Driver, page_size, block_size}
use hsq_over_nand.Hat.{Pio, hat_read_chunk, hat_read_loop, hat_read, hat_erase_loop, hat_erase}

-- The driver of the HAT as that of the SPI device: the page of an issued program is kept until the wait.
abbrev pub as_driver : Pio → Driver
as_driver P = record {
  Dev = P.Dev × ℕ;
  page_read = λ d page. let r = P.page_read d.0 page in (r.0, (r.1, d.1));
  read_buf = λ d col b n. let r = P.read_buf d.0 col b n in (r.0, r.1, (r.2, d.1));
  program_load = λ d col b n. let r = P.program_begin d.0 col b n in (r.0, (r.1, d.1));
  program_issue = λ d page. (true, (d.0, page));
  program_wait = λ d. let r = P.program_commit d.0 d.1 in (r.0, (r.1, d.1));
  block_erase = λ d page. let r = P.block_erase d.0 page in (r.0, (r.1, d.1));
}

module _ (P : Pio) where
  -- The same status, the same bytes, and the same state of the chip.
  abbrev pub Same : (Bool × Buffer × P.Dev) → (Bool × Buffer × Chips (as_driver P) 1) → Type 0
  Same h r = (h.0 ≡ r.0) × (h.1 ≡ r.1) × (h.2 ≡ (r.2 0).0)

  read_chunk-Same :
      (ds : Chips (as_driver P) 1) (offset : ℕ) (b : Buffer) (pos k : ℕ)
      → Same
          (hat_read_chunk P (ds 0).0 offset b pos k)
          (read_chunk (as_driver P) 1 ds offset b pos k)
  unfolding hat_read_chunk read_chunk
  read_chunk-Same ds offset b pos k =
      let m : offset / page_size % 1 ≡ 0 = omega arith in
      let q : offset / page_size / 1 ≡ offset / page_size = omega arith in
      elim (Bool-cases (P.page_read (ds 0).0 (offset / page_size)).0) [
        | inl e ↦ rw (m, q, e) (refl, refl, refl)
        | inr e ↦ rw (m, q, e) (refl, refl, refl)
      ]

  read_loop-Same :
      (f : ℕ) (ds : Chips (as_driver P) 1) (offset : ℕ) (b : Buffer) (pos length : ℕ)
      → Same
          (hat_read_loop P f (ds 0).0 offset b pos length)
          (read_loop (as_driver P) 1 f ds offset b pos length)
  unfolding hat_read_loop read_loop
  read_loop-Same zero ds offset b pos length = (refl, refl, refl)
  read_loop-Same (suc f) ds offset b pos length =
      let k = chunk (offset % page_size) length in
      let h = hat_read_chunk P (ds 0).0 offset b pos k in
      let r = read_chunk (as_driver P) 1 ds offset b pos k in
      let c = read_chunk-Same ds offset b pos k in
      let next = read_loop-Same f r.2 (u32 (offset + k)) r.1 (pos + k) (length - k) in
      elim (Bool-cases (length == 0)) [
        | inl e ↦ rw e (refl, refl, refl)
        | inr e ↦ elim (Bool-cases r.0) [
          | inl g ↦ let g' : h.0 ≡ true = c.0 ∙ g in rw (e, g, g', c.1, c.2) next
          | inr g ↦ let g' : h.0 ≡ false = c.0 ∙ g in rw (e, g, g') (refl, c.1, c.2)
        ]
      ]

  -- The same status and the same state of the chip.
  abbrev pub Alike : (Bool × P.Dev) → (Bool × Chips (as_driver P) 1) → Type 0
  Alike h r = (h.0 ≡ r.0) × (h.1 ≡ (r.1 0).0)

  erase_loop-Alike :
      (f off stop : ℕ) (ds : Chips (as_driver P) 1)
      → Alike (hat_erase_loop P f off stop (ds 0).0) (erase_loop (as_driver P) 1 f off stop ds)
  unfolding hat_erase_loop erase_loop erase_chips
  erase_loop-Alike zero off stop ds = (refl, refl)
  erase_loop-Alike (suc f) off stop ds =
      let q : off / page_size / 1 ≡ off / page_size = omega arith in
      let r = P.block_erase (ds 0).0 (off / page_size) in
      let ds' = update ds 0 (r.1, (ds 0).1) in
      let next = erase_loop-Alike f (u32 (off + block_size)) stop ds' in
      elim (Bool-cases (leb stop off)) [
        | inl e ↦ rw e (refl, refl)
        | inr e ↦ elim (Bool-cases r.0) [
          | inl g ↦ rw (e, q, g) next
          | inr g ↦ rw (e, q, g) (refl, refl)
        ]
      ]

  pub hat-Same :
      (ds : Chips (as_driver P) 1) (offset : ℕ) (b : Buffer) (length : ℕ)
      → Same (hat_read P (ds 0).0 offset b length) (read (as_driver P) 1 ds offset b length)
        × Alike (hat_erase P (ds 0).0 offset length) (erase (as_driver P) 1 ds offset length)
  unfolding hat_read read hat_erase erase
  hat-Same ds offset b length = (
    read_loop-Same length ds offset b 0 length,
    (elim (Bool-cases (not (offset % block_size == 0) || not (length % block_size == 0))) [
      | inl e ↦ rw e (refl, refl)
      | inr e ↦ rw e (erase_loop-Alike length offset (u32 (offset + length)) ds)
    ]),
  )
