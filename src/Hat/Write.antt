-- ===== src/Hat/Write.antt =====
-- `write` of `W25NFlashDevice` (include/W25NFlashDevice.hpp) does what that of `W25NSpiFlashDevice` does with
-- one chip, whose waits come later.
use hsq_over_nand.Base.{
  ℕ, zero, suc, ◌+◌, ◌-◌, ◌/◌, ◌%◌, ◌≡◌, refl, sym, subst, ◌∙◌, Bool, true, false, ◌&&◌, ◌==◌,
  if◌then◌else◌, u32, Bool-cases, inl, inr, arith,
}
use hsq_over_nand.Nand.{Buffer}
use hsq_over_nand.Flash.{
  Chips, Issued, chunk, wait_chip, wait_all, write_chunk, write_loop, write, read, erase,
}
use hsq_over_nand.Flash.Contract.{page_size}
use hsq_over_nand.Hat.{Pio, hat_write_chunk, hat_write_loop, hat_write, hat_read, hat_erase}
use hsq_over_nand.Hat.Same.{as_driver, Same, Alike, hat-Same}

and_true : (t : Bool) → (t && true) ≡ t
and_true true = refl
and_true false = refl

and_false : (t : Bool) → (t && false) ≡ false
and_false true = refl
and_false false = refl

module _ (P : Pio) where
  -- What a wait for the chip gives.
  abbrev settle : Issued (as_driver P) 1 → Bool × P.Dev
  settle s =
      if s.pending 0 then P.program_commit (s.devs 0).0 (s.devs 0).1 else (true, (s.devs 0).0)

  -- A chunk after a wait that has succeeded, or has not.
  abbrev chunk_after : (Bool × P.Dev) → ℕ → Buffer → ℕ → ℕ → Bool × P.Dev
  chunk_after e offset b pos k = if e.0 then hat_write_chunk P e.1 offset b pos k else e

  -- The chunk of the other device: its own status with the wait that follows.
  chunk-settles :
      (s : Issued (as_driver P) 1) (offset : ℕ) (b : Buffer) (pos k : ℕ)
      → let r = write_chunk (as_driver P) 1 s offset b pos k in
        let h = chunk_after (settle s) offset b pos k in
        (((settle r.1).0 && r.0) ≡ h.0) × ((settle r.1).1 ≡ h.1) × (r.0 ≡ true → settle r.1 ≡ h)
  unfolding write_chunk wait_chip hat_write_chunk
  chunk-settles s offset b pos k =
      let m : offset / page_size % 1 ≡ 0 = omega arith in
      let q : offset / page_size / 1 ≡ offset / page_size = omega arith in
      let d = (s.devs 0).0 in
      let e = P.program_commit d (s.devs 0).1 in
      let l = P.program_begin d (offset % page_size) (λ i. b (pos + i)) k in
      let l' = P.program_begin e.1 (offset % page_size) (λ i. b (pos + i)) k in
      elim (Bool-cases (s.pending 0)) [
        | inr g ↦ elim (Bool-cases l.0) [
          | inl h ↦ rw (m, q, g, h) (and_true _, refl, λ t. refl)
          | inr h ↦ rw (m, q, g, h, g) (refl, refl, λ t. cc)
        ]
        | inl g ↦ elim (Bool-cases e.0) [
          | inl f ↦ elim (Bool-cases l'.0) [
            | inl h ↦ rw (m, q, g, f, h) (and_true _, refl, λ t. refl)
            | inr h ↦ rw (m, q, g, f, h) (refl, refl, λ t. cc)
          ]
          | inr f ↦ rw (m, q, g, f) (refl, refl, λ t. cc)
        ]
      ]

  loop_after : (Bool × P.Dev) → ℕ → ℕ → Buffer → ℕ → ℕ → Bool × P.Dev
  loop_after e f offset b pos length = if e.0 then hat_write_loop P f e.1 offset b pos length else e

  write_loop-settles :
      (f : ℕ) (s : Issued (as_driver P) 1) (offset : ℕ) (b : Buffer) (pos length : ℕ)
      → let r = write_loop (as_driver P) 1 f s offset b pos length in
        let h = loop_after (settle s) f offset b pos length in
        (((settle r.1).0 && r.0) ≡ h.0) × ((settle r.1).1 ≡ h.1)
  unfolding write_loop hat_write_loop loop_after
  write_loop-settles zero s offset b pos length = elim (Bool-cases (settle s).0) [
    | inl g ↦ rw g (refl, refl)
    | inr g ↦ rw g (sym g, refl)
  ]
  write_loop-settles (suc f) s offset b pos length =
      let k = chunk (offset % page_size) length in
      let e = settle s in
      let r = write_chunk (as_driver P) 1 s offset b pos k in
      let c = chunk-settles s offset b pos k in
      let next = write_loop-settles f r.1 (u32 (offset + k)) b (pos + k) (length - k) in
      elim (Bool-cases (length == 0)) [
        | inl g ↦ elim (Bool-cases e.0) [
          | inl h ↦ rw (g, h) (refl, refl)
          | inr h ↦ rw (g, h) (sym h, refl)
        ]
        | inr g ↦ elim (Bool-cases r.0) [
          | inl h ↦
              let w =
                write_loop (as_driver P) 1 f r.1 (u32 (offset + k)) b (pos + k) (length - k) in
              let after =
                λ (x : Bool × P.Dev). loop_after x f (u32 (offset + k)) b (pos + k) (length - k) in
              let n =
                subst
                  (λ (x : Bool × P.Dev).
                    (((settle w.1).0 && w.0) ≡ (after x).0) × ((settle w.1).1 ≡ (after x).1))
                  (c.2 h) next in
              elim (Bool-cases e.0) [
                | inl t ↦ rw (g, h, t) (rw t at n)
                | inr t ↦ rw (g, h, t) (rw (t, t) at n)
              ]
          | inr h ↦ elim (Bool-cases e.0) [
            | inl t ↦
                let hc = hat_write_chunk P e.1 offset b pos k in
                let c' : ((settle r.1).0 && false) ≡ hc.0 = (rw (h, t) at (c.0)) in
                let failed : hc.0 ≡ false = sym c' ∙ and_false (settle r.1).0 in
                rw (g, h, t, failed) (and_false (settle r.1).0, (rw t at (c.1)))
            | inr t ↦ rw (g, h, t) ((rw (h, t) at (c.0)), (rw t at (c.1)))
          ]
        ]
      ]

  wait_all-settles :
      (t : Bool) (s : Issued (as_driver P) 1)
      → let a = wait_all (as_driver P) 1 1 0 t s in
        (a.0 ≡ ((settle s).0 && t)) × (((a.1.devs 0).0) ≡ (settle s).1)
  unfolding wait_all wait_chip
  wait_all-settles t s = elim (Bool-cases (s.pending 0)) [
    | inl g ↦ rw g (refl, refl)
    | inr g ↦ rw g (refl, refl)
  ]

  hat_write-Alike :
      (ds : Chips (as_driver P) 1) (offset : ℕ) (b : Buffer) (length : ℕ)
      → Alike P (hat_write P (ds 0).0 offset b length) (write (as_driver P) 1 ds offset b length)
  unfolding hat_write write loop_after
  hat_write-Alike ds offset b length =
      let s : Issued (as_driver P) 1 = record { devs = ds; pending = λ i. false } in
      let r = write_loop (as_driver P) 1 length s offset b 0 length in
      let l = write_loop-settles length s offset b 0 length in
      let a = wait_all-settles r.0 r.1 in (sym (a.0 ∙ l.0), sym (a.1 ∙ l.1))

  -- `W25NFlashDevice` reads, erases and writes like `W25NSpiFlashDevice` with one chip, although this one
  -- waits for a program only before the next one and at the end: the same status, the same buffer and the
  -- same state of the chip, on errors as well.
  pub hat-Alike :
      (ds : Chips (as_driver P) 1) (offset : ℕ) (b : Buffer) (length : ℕ)
      → Same P (hat_read P (ds 0).0 offset b length) (read (as_driver P) 1 ds offset b length)
        × Alike P (hat_erase P (ds 0).0 offset length) (erase (as_driver P) 1 ds offset length)
        × Alike P (hat_write P (ds 0).0 offset b length) (write (as_driver P) 1 ds offset b length)
  hat-Alike ds offset b length =
      let s = hat-Same P ds offset b length in (s.0, s.1, hat_write-Alike ds offset b length)
