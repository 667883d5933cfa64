-- ===== src/Spi/Report.antt =====
-- What the calls of src/spi/w25n_spidev.c say of the chip's status, and the address that they send.
use hsq_over_nand.Base.{
  ℕ, ◌+◌, ◌*◌, ◌^◌, ◌≤◌, ◌<◌, ◌≡◌, refl, Bool, true, false, Option, none, some, List, [], ◌∷◌, ◌==◌,
  ◌&&◌, bit_and, Bool-cases, inl, inr, ◌⊎◌, arith, sym, ◌∙◌,
}
use hsq_over_nand.Nand.{Buffer}
use hsq_over_nand.Spi.{
  SpiDev, cmd, read_status, wait_busy, block_erase, program_wait, page_bytes, col_bytes,
  write_enable,
}
use hsq_over_nand.Spi.System.{Bus, Segment, Clock}
use hsq_over_nand.Spi.Wait.{wait_busy-Ends, cmd_now}

-- The datasheet's command 0x0F: the chip answers with its status register, whose value `status` tells,
-- and the reading does not change it.
pub record Answers (B : Bus) : Type 0 where
  pub status : ℕ → B.World → ℕ
  pub answer :
      (fd hz : ℕ) (rx : Buffer) (w : B.World)
      → let r =
          B.message fd (Segment.send (0x0F ∷ 0xC0 ∷ []) hz ∷ Segment.receive 1 hz ∷ []) rx w in
        (r.0 ≡ true) × (r.1 0 ≡ status fd w) × (status fd r.2 ≡ status fd w)

-- What follows a wait: success when the chip is ready and its bit `mask` is clear.
abbrev judge : {W : Type 0} → ℕ → Option (Bool × ℕ × W) → Option (Bool × W)
judge mask none = none
judge mask (some r) = some (r.0 && (bit_and r.1 mask == 0), r.2)

judge_lem :
    {W : Type 0} (mask : ℕ) (o : Option (Bool × ℕ × W))
    → (elim o [ none ↦ none | some r ↦ some (r.0 && (bit_and r.1 mask == 0), r.2) ]) ≡ judge mask o
judge_lem mask none = refl
judge_lem mask (some r) = refl

module _ (B : Bus) (K : Clock B) (A : Answers B) where
  -- A call that ends with the world `r.1`: success is a ready chip without the bit `mask`; an error is a
  -- chip that shows the bit, or one that took more than `limit` microseconds from the world `w` on.
  abbrev pub Reports : ℕ → ℕ → SpiDev → B.World → (Bool × B.World) → Type 0
  Reports mask limit d w r =
      (r.0 ≡ true → (bit_and (A.status d.fd r.1) 0x01 ≡ 0) × (bit_and (A.status d.fd r.1) mask ≡ 0))
      × (r.0 ≡ false
          → ((bit_and (A.status d.fd r.1) mask == 0) ≡ false)
            ⊎ (B.now w + limit * 1000 ≤ B.now r.1))

  -- The last status read is that of the chip.
  status-last :
      (d : SpiDev) (x : ℕ) (v : B.World)
      → ((w : B.World) × (x ≡ (read_status B d 0xC0 (B.junk w) w).1)
          × (v ≡ (read_status B d 0xC0 (B.junk w) w).2))
      → A.status d.fd v ≡ x
  unfolding read_status cmd
  status-last d x v (w, e, e') =
      let a = A.answer d.fd d.speed_hz (λ i. B.junk w) w in rw (e, e') (a.2 ∙ sym a.1)

  judge-Reports :
      (mask limit poll : ℕ) (d : SpiDev) (w v : B.World)
      → 0 < poll
      → poll < 2 ^ 32
      → limit < 2 ^ 32
      → B.now w ≤ B.now v
      → (r : Bool × B.World) × (judge mask (wait_busy B limit poll d v) ≡ some r)
        × Reports mask limit d w r
  judge-Reports mask limit poll d w v p small short h =
      let e = wait_busy-Ends B K limit poll d v p small short in
      let x = e.0 in
      let ended = e.2 in
      elim (Bool-cases x.0) [
        | inl g ↦
            let q = ended.0 g in
            let seen = status-last d x.1 x.2 q.1 in
            (
              (x.0 && (bit_and x.1 mask == 0), x.2),
              (rw e.1 refl),
              (
                (λ k. (rw seen (ground arith), rw seen (ground arith))),
                (λ k. inl (rw seen (ground arith))),
              ),
            )
        | inr g ↦
            let q = ended.1 g in
            (
              (x.0 && (bit_and x.1 mask == 0), x.2),
              (rw e.1 refl),
              ((λ k. absurd (ground arith)), (λ k. inr (omega (arith, q.1)))),
            )
      ]

  -- With a clock that `usleep` moves on, and a chip that answers with its status, the erase of a
  -- block returns and reports what the chip says: success is a ready chip without the E-FAIL bit;
  -- an error is a chip with the E-FAIL bit, or a call that has taken half a second at least.
  pub block_erase-Reports :
      (page : ℕ) (d : SpiDev) (w : B.World)
      → (r : Bool × B.World) × (block_erase B page d w ≡ some r) × Reports 0x04 500000 d w r
  unfolding block_erase write_enable
  block_erase-Reports page d w =
      let a = write_enable B d w in
      let v = (cmd B d (0xD8 ∷ page_bytes page) (λ i. 0) 0 a.1).2 in
      let j = judge-Reports 0x04 500000 200 d w v (omega arith) (omega arith) (omega arith) (
        omega (
          arith,
          cmd_now B K d (0x06 ∷ []) (λ i. 0) 0 w,
          cmd_now B K d (0xD8 ∷ page_bytes page) (λ i. 0) 0 a.1,
        )) in
      (j.0, judge_lem 0x04 (wait_busy B 500000 200 d v) ∙ j.1, j.2)

  -- The wait for a program returns, and reports what the chip says, with the P-FAIL bit and its
  -- own limit, which has 32 bits.
  pub program_wait-Reports :
      (timeout_us : ℕ) (d : SpiDev) (w : B.World)
      → timeout_us < 2 ^ 32
      → (r : Bool × B.World) × (program_wait B timeout_us d w ≡ some r)
        × Reports 0x08 timeout_us d w r
  unfolding program_wait
  program_wait-Reports timeout_us d w short =
      let j =
        judge-Reports 0x08 timeout_us 50 d w w (omega arith) (omega arith) short (omega arith) in
      (j.0, judge_lem 0x08 (wait_busy B timeout_us 50 d w) ∙ j.1, j.2)

-- The number that bytes stand for, the highest byte first.
unfoldable pub value_from : ℕ → List ℕ → ℕ
value_from acc [] = acc
value_from acc (b ∷ l) = value_from (acc * 2 ^ 8 + b) l

-- The chip reads the page back from the three bytes after a command, and the column from the two bytes,
-- for pages below 2 ^ 24 and columns below 2 ^ 16.
pub page_bytes-sends :
    (page col : ℕ)
    → page < 2 ^ 24
    → col < 2 ^ 16
    → (value_from 0 (page_bytes page) ≡ page) × (value_from 0 (col_bytes col) ≡ col)
unfolding page_bytes col_bytes value_from
page_bytes-sends page col h h' = (omega arith, omega arith)
