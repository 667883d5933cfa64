-- ===== src/Spi/Wait.antt =====
-- `w25n_spi_wait_busy` of src/spi/w25n_spidev.c: its deadline.
use hsq_over_nand.Base.{
  ℕ, zero, suc, ◌+◌, ◌-◌, ◌*◌, ◌/◌, ◌^◌, ◌≤◌, ◌<◌, ◌≡◌, refl, Bool, true, false, some, ltb, ◌==◌,
  bit_and, Bool-cases, inl, inr, arith, List, [], ◌∷◌,
}
use hsq_over_nand.Nand.{Buffer}
use hsq_over_nand.Spi.{SpiDev, elapsed, read_status, cmd, wait_loop, wait_busy}
use hsq_over_nand.Spi.System.{Bus, Clock}

-- The microseconds that the code computes from the two halves of the clock's readings are those
-- between the readings, rounded down or up, when these are less than 2 ^ 63 nanoseconds apart.
pub elapsed-rounds :
    (t0 t : ℕ)
    → t0 ≤ t
    → t < t0 + 2 ^ 63
    → ((t - t0) / 1000 ≤ elapsed t0 t) × (elapsed t0 t ≤ (t - t0) / 1000 + 1)
unfolding elapsed
elapsed-rounds t0 t h fits = (ground arith, ground arith)

pub cmd_now :
    (B : Bus) (K : Clock B) (d : SpiDev) (tx : List ℕ) (rx : Buffer) (n : ℕ) (w : B.World)
    → B.now w ≤ B.now (cmd B d tx rx n w).2
unfolding cmd
cmd_now B K d [] rx zero w = omega arith
cmd_now B K d [] rx (suc n) w = K.message_now _ _ _ w
cmd_now B K d (t ∷ tx) rx zero w = K.message_now _ _ _ w
cmd_now B K d (t ∷ tx) rx (suc n) w = K.message_now _ _ _ w

pub status_now :
    (B : Bus) (K : Clock B) (d : SpiDev) (addr val : ℕ) (w : B.World)
    → B.now w ≤ B.now (read_status B d addr val w).2
unfolding read_status
status_now B K d addr val w = cmd_now B K d (0x0F ∷ addr ∷ []) (λ i. val) 1 w

pub status_late :
    (B : Bus) (K : Clock B) (d : SpiDev) (addr val : ℕ) (w : B.World)
    → B.now (read_status B d addr val w).2 ≤ B.now w + 2 ^ 61
unfolding read_status cmd
status_late B K d addr val w = K.message_late _ _ _ w

module _ (B : Bus) (K : Clock B) (timeout_us poll_us t0 : ℕ) (d : SpiDev) where
  -- The status that the loop ends with is one that it has read.
  abbrev pub Last : (Bool × ℕ × B.World) → Type 0
  Last r =
      (w : B.World) × (r.1 ≡ (read_status B d 0xC0 (B.junk w) w).1)
      × (r.2 ≡ (read_status B d 0xC0 (B.junk w) w).2)

  -- What the loop ends with: a status without the BUSY bit, or one with it after the deadline.
  abbrev pub Ends : (Bool × ℕ × B.World) → Type 0
  Ends r =
      (r.0 ≡ true → (bit_and r.1 0x01 ≡ 0) × Last r)
      × (r.0 ≡ false → ((bit_and r.1 0x01 == 0) ≡ false) × (t0 + timeout_us * 1000 ≤ B.now r.2))

  wait_loop-Ends :
      (f : ℕ) (w : B.World)
      → 0 < poll_us
      → poll_us < 2 ^ 32
      → timeout_us < 2 ^ 32
      → t0 ≤ B.now w
      → B.now w < t0 + (timeout_us + 1) * 1000
      → t0 + (timeout_us + 1) * 1000 ≤ B.now w + f * 1000
      → (r : Bool × ℕ × B.World) × (wait_loop B f t0 timeout_us poll_us d w ≡ some r) × Ends r
  unfolding wait_loop
  wait_loop-Ends zero w p small short h early late = absurd (omega arith)
  wait_loop-Ends (suc f) w p small short h early late =
      let r = read_status B d 0xC0 (B.junk w) w in
      let w' = B.usleep poll_us r.2 in
      let e : ltb 0 poll_us ≡ true = ground arith in
      let step : B.now w + poll_us * 1000 ≤ B.now w' =
        omega (arith, K.usleep_now poll_us r.2, status_now B K d 0xC0 (B.junk w) w) in
      let before : B.now w' < t0 + 2 ^ 63 =
        omega (arith, K.usleep_late poll_us r.2, status_late B K d 0xC0 (B.junk w) w) in
      let q = elapsed-rounds t0 (B.now w') (omega arith) before in
      elim (Bool-cases (bit_and r.1 0x01 == 0)) [
        | inl g ↦ (
          (true, r.1, r.2),
          (rw g refl),
          ((λ k. (ground arith, (w, refl, refl))), (λ k. absurd (ground arith))),
        )
        | inr g ↦ elim (Bool-cases (ltb timeout_us (elapsed t0 (B.now w')))) [
          | inl k ↦ (
            (false, r.1, w'),
            (rw (g, e, k) refl),
            ((λ c. absurd (ground arith)), (λ c. (g, ground (arith, q.1)))),
          )
          | inr k ↦
              let rest =
                wait_loop-Ends f w' p small short (omega arith) (ground arith) (omega arith) in
              (rest.0, (rw (g, e, k) rest.1), rest.2)
        ]
      ]

-- With a clock that `usleep` moves on, a pause between the polls, and times of 32 bits, `w25n_spi_wait_busy` returns: with
-- success and a status, the last one read, whose BUSY bit is clear, or with an error after the deadline, and a status whose
-- BUSY bit is still set.
pub wait_busy-Ends :
    (B : Bus) (K : Clock B) (timeout_us poll_us : ℕ) (d : SpiDev) (w : B.World)
    → 0 < poll_us
    → poll_us < 2 ^ 32
    → timeout_us < 2 ^ 32
    → (r : Bool × ℕ × B.World) × (wait_busy B timeout_us poll_us d w ≡ some r)
      × Ends B K timeout_us poll_us (B.now w) d r
unfolding wait_busy
wait_busy-Ends B K timeout_us poll_us d w p small short =
    wait_loop-Ends B K timeout_us poll_us (B.now w) d (timeout_us + 2) w p small short (omega arith)
      (omega arith) (omega arith)
