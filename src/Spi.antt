-- ===== src/Spi.antt =====
-- The driver src/spi/w25n_spidev.c of a W25N02KV chip. A call of the kernel is an operation on the
-- world; -1 and a null pointer are `false` and `none`.
pub mod System
pub mod Open
pub mod Wait
pub mod Report
mod Tests
use hsq_over_nand.Base.{
  ℕ, zero, suc, ◌+◌, ◌-◌, ◌*◌, ◌/◌, ◌%◌, ◌^◌, Bool, true, false, Option, none, some, List, [], ◌∷◌,
  ◌++◌, not, ltb, leb, ◌==◌, ◌&&◌, if◌then◌else◌, u8, u64, bit_and, bit_or,
}
use hsq_over_nand.Nand.{Buffer}
use hsq_over_nand.Spi.System.{Bus, Segment}

pub record SpiDev : Type 0 where
  pub fd : ℕ
  pub speed_hz : ℕ

-- The bytes that follow a command: a page, or a column.
unfoldable pub page_bytes : ℕ → List ℕ
page_bytes page = u8 (page / 2 ^ 16) ∷ u8 (page / 2 ^ 8) ∷ u8 page ∷ []

unfoldable pub col_bytes : ℕ → List ℕ
col_bytes col = u8 (col / 2 ^ 8) ∷ u8 col ∷ []

-- The first bytes of a buffer.
unfoldable pub bytes_of : ℕ → Buffer → List ℕ
bytes_of zero b = []
bytes_of (suc n) b = b 0 ∷ bytes_of n (λ i. b (i + 1))

-- The microseconds between two readings of the clock in nanoseconds, as the code computes them from
-- `tv_sec` and `tv_nsec`: the difference of the latter can be negative, and is divided towards 0.
unfoldable pub elapsed : ℕ → ℕ → ℕ
elapsed t0 t =
    let sec = u64 (t / 10 ^ 9 + 2 ^ 64 - t0 / 10 ^ 9) in
    let a = t % 10 ^ 9 in
    let b = t0 % 10 ^ 9 in
    if leb b a
    then u64 (sec * 10 ^ 6 + (a - b) / 1000)
    else u64 (sec * 10 ^ 6 + 2 ^ 64 - (b - a) / 1000)

module _ (B : Bus) where
  -- The mode, the word length and the speed; a device that refuses one is given back.
  unfoldable pub configure : ℕ → ℕ → B.World → Option SpiDev × B.World
  configure fd speed_hz w =
      let m = B.set_mode fd 0 w in
      let b = B.set_bits fd 8 m.1 in
      let s = B.set_speed fd speed_hz b.1 in
      if not m.0
      then (none, B.free (B.close_fd fd m.1))
      else (if not b.0
          then (none, B.free (B.close_fd fd b.1))
          else (if not s.0
              then (none, B.free (B.close_fd fd s.1))
              else (some (record { fd = fd; speed_hz = speed_hz }), s.1)))

  -- After the descriptor was asked for.
  unfoldable pub opened : Option ℕ → ℕ → B.World → Option SpiDev × B.World
  opened none speed_hz w = (none, B.free w)
  opened (some fd) speed_hz w = configure fd speed_hz w

  -- `w25n_spi_open`; `none` is a null pointer.
  unfoldable pub spi_open : List ℕ → ℕ → B.World → Option SpiDev × B.World
  spi_open path speed_hz w =
      let a = B.calloc w in
      let o = B.open_fd path a.1 in if not a.0 then (none, a.1) else opened o.0 speed_hz o.1

  -- `w25n_spi_close` of a device that was opened.
  unfoldable pub spi_close : SpiDev → B.World → B.World
  spi_close d w = B.free (B.close_fd d.fd w)

  unfoldable pub set_speed : ℕ → SpiDev → B.World → Bool × SpiDev × B.World
  set_speed speed_hz d w =
      let s = B.set_speed d.fd speed_hz w in
      if not s.0 then (false, d, s.1) else (true, record d { speed_hz = speed_hz }, s.1)

  -- `w25n_spi_cmd`: the bytes received come at the front of the buffer `rx`. An empty message is not sent.
  unfoldable pub cmd : SpiDev → List ℕ → Buffer → ℕ → B.World → Bool × Buffer × B.World
  cmd d [] rx zero w = (true, rx, w)
  cmd d [] rx (suc n) w = B.message d.fd (Segment.receive (suc n) d.speed_hz ∷ []) rx w
  cmd d (t ∷ tx) rx zero w = B.message d.fd (Segment.send (t ∷ tx) d.speed_hz ∷ []) rx w
  cmd d (t ∷ tx) rx (suc n) w =
      B.message d.fd (Segment.send (t ∷ tx) d.speed_hz ∷ Segment.receive (suc n) d.speed_hz ∷ []) rx
        w

  unfoldable pub jedec_id : SpiDev → Buffer → B.World → Bool × Buffer × B.World
  jedec_id d id w = cmd d (0x9F ∷ 0x00 ∷ []) id 3 w

  -- `w25n_spi_read_status`; the variable `val` of the caller holds `val`.
  unfoldable pub read_status : SpiDev → ℕ → ℕ → B.World → Bool × ℕ × B.World
  read_status d addr val w = let r = cmd d (0x0F ∷ addr ∷ []) (λ i. val) 1 w in (r.0, r.1 0, r.2)

  unfoldable pub write_status : SpiDev → ℕ → ℕ → B.World → Bool × B.World
  write_status d addr val w = let r = cmd d (0x1F ∷ addr ∷ val ∷ []) (λ i. 0) 0 w in (r.0, r.2)

  -- The status of the two transfers is not looked at; `sr` is not initialised.
  unfoldable pub unprotect : SpiDev → B.World → Bool × B.World
  unprotect d w =
      let a = write_status d 0xA0 0x00 w in
      let r = read_status d 0xA0 (B.junk a.1) a.1 in (r.1 == 0x00, r.2)

  unfoldable pub set_ecc : Bool → SpiDev → B.World → Bool × B.World
  set_ecc enable d w =
      let r = read_status d 0xB0 (B.junk w) w in
      let sr = if enable then bit_or r.1 0x10 else bit_and r.1 0xEF in
      let a = write_status d 0xB0 sr r.2 in
      let c = read_status d 0xB0 (B.junk a.1) a.1 in (c.1 == sr, c.2)

  unfoldable pub write_enable : SpiDev → B.World → Bool × B.World
  write_enable d w = let r = cmd d (0x06 ∷ []) (λ i. 0) 0 w in (r.0, r.2)

  -- The endless loop of `w25n_spi_wait_busy`, with the last status; `none` is fuel that has run out.
  unfoldable pub wait_loop : ℕ → ℕ → ℕ → ℕ → SpiDev → B.World → Option (Bool × ℕ × B.World)
  wait_loop zero t0 timeout_us poll_us d w = none
  wait_loop (suc f) t0 timeout_us poll_us d w =
      let r = read_status d 0xC0 (B.junk w) w in
      let w' = if ltb 0 poll_us then B.usleep poll_us r.2 else r.2 in
      let rest = wait_loop f t0 timeout_us poll_us d w' in
      if bit_and r.1 0x01 == 0
      then some (true, r.1, r.2)
      else (if ltb timeout_us (elapsed t0 (B.now w')) then some (false, r.1, w') else rest)

  -- Each turn sleeps, so that the deadline is reached after so many turns.
  unfoldable pub wait_busy : ℕ → ℕ → SpiDev → B.World → Option (Bool × ℕ × B.World)
  wait_busy timeout_us poll_us d w = wait_loop (timeout_us + 2) (B.now w) timeout_us poll_us d w

  unfoldable pub block_erase : ℕ → SpiDev → B.World → Option (Bool × B.World)
  block_erase page d w =
      let a = write_enable d w in
      let e = cmd d (0xD8 ∷ page_bytes page) (λ i. 0) 0 a.1 in
      elim (wait_busy 500000 200 d e.2) [
        | none ↦ none
        | some r ↦ some (r.0 && (bit_and r.1 0x04 == 0), r.2)
      ]

  unfoldable pub program_load : ℕ → Buffer → ℕ → SpiDev → B.World → Bool × B.World
  program_load col bytes len d w =
      let a = write_enable d w in
      let r =
        B.message d.fd
          (Segment.send (0x02 ∷ col_bytes col) d.speed_hz
            ∷ Segment.send (bytes_of len bytes) d.speed_hz
            ∷ [])
          (λ i. 0) a.1 in
      (r.0, r.2)

  unfoldable pub program_issue : ℕ → SpiDev → B.World → Bool × B.World
  program_issue page d w = let r = cmd d (0x10 ∷ page_bytes page) (λ i. 0) 0 w in (r.0, r.2)

  unfoldable pub program_wait : ℕ → SpiDev → B.World → Option (Bool × B.World)
  program_wait timeout_us d w = elim (wait_busy timeout_us 50 d w) [
    | none ↦ none
    | some r ↦ some (r.0 && (bit_and r.1 0x08 == 0), r.2)
  ]

  unfoldable pub program : ℕ → ℕ → Buffer → ℕ → SpiDev → B.World → Option (Bool × B.World)
  program page col bytes len d w =
      let l = program_load col bytes len d w in
      let i = program_issue page d l.1 in
      if not l.0 then some l else (if not i.0 then some i else program_wait 100000 d i.1)

  unfoldable pub page_read : ℕ → SpiDev → B.World → Option (Bool × B.World)
  page_read page d w =
      let r = cmd d (0x13 ∷ page_bytes page) (λ i. 0) 0 w in
      elim (wait_busy 100000 20 d r.2) [ none ↦ none | some s ↦ some (s.0, s.2) ]

  unfoldable pub read_buf : ℕ → Buffer → ℕ → SpiDev → B.World → Bool × Buffer × B.World
  read_buf col buf len d w = cmd d (0x03 ∷ col_bytes col ++ 0x00 ∷ []) buf len w
