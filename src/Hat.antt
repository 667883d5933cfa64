-- ===== src/Hat.antt =====
-- `W25NFlashDevice` of include/W25NFlashDevice.hpp: one chip of the HAT over the calls of its driver
-- (src/qspi/w25n_pio.h). The lock between the two chips is not modelled.
pub mod Same
pub mod Write
mod Tests
use hsq_over_nand.Base.{
  ℕ, zero, suc, ◌+◌, ◌-◌, ◌*◌, ◌/◌, ◌%◌, ◌^◌, Bool, true, false, not, ltb, leb, ◌==◌, ◌||◌,
  if◌then◌else◌, u32,
}
use hsq_over_nand.Nand.{Buffer}
use hsq_over_nand.Flash.{chunk}
use hsq_over_nand.Flash.Contract.{page_size, block_size, total_size}

-- The calls of the driver; `program_begin` loads the data buffer, and `program_commit` programs the page and
-- waits.
pub record Pio : Type 1 where
  pub Dev : Type 0
  pub page_read : Dev → ℕ → Bool × Dev
  pub read_buf : Dev → ℕ → Buffer → ℕ → Bool × Buffer × Dev
  pub program_begin : Dev → ℕ → Buffer → ℕ → Bool × Dev
  pub program_commit : Dev → ℕ → Bool × Dev
  pub block_erase : Dev → ℕ → Bool × Dev

module _ (P : Pio) where
  -- One turn of the loop of `read`: `k` bytes to the place `pos` of the buffer.
  unfoldable pub hat_read_chunk : P.Dev → ℕ → Buffer → ℕ → ℕ → Bool × Buffer × P.Dev
  hat_read_chunk d offset b pos k =
      let r = P.page_read d (offset / page_size) in
      let t = P.read_buf r.1 (offset % page_size) (λ i. b (pos + i)) k in
      if r.0 then (t.0, (λ i. if leb pos i then t.1 (i - pos) else b i), t.2) else (false, b, r.1)

  -- `while (length > 0)`; each turn takes at least one byte.
  unfoldable pub hat_read_loop : ℕ → P.Dev → ℕ → Buffer → ℕ → ℕ → Bool × Buffer × P.Dev
  hat_read_loop zero d offset b pos length = (length == 0, b, d)
  hat_read_loop (suc f) d offset b pos length =
      let k = chunk (offset % page_size) length in
      let r = hat_read_chunk d offset b pos k in
      let rest = hat_read_loop f r.2 (u32 (offset + k)) r.1 (pos + k) (length - k) in
      if length == 0 then (true, b, d) else (if r.0 then rest else r)

  unfoldable pub hat_read : P.Dev → ℕ → Buffer → ℕ → Bool × Buffer × P.Dev
  hat_read d offset b length = hat_read_loop length d offset b 0 length

  -- One turn of the loop of `write`.
  unfoldable pub hat_write_chunk : P.Dev → ℕ → Buffer → ℕ → ℕ → Bool × P.Dev
  hat_write_chunk d offset b pos k =
      let l = P.program_begin d (offset % page_size) (λ i. b (pos + i)) k in
      let c = P.program_commit l.1 (offset / page_size) in if l.0 then c else l

  unfoldable pub hat_write_loop : ℕ → P.Dev → ℕ → Buffer → ℕ → ℕ → Bool × P.Dev
  hat_write_loop zero d offset b pos length = (length == 0, d)
  hat_write_loop (suc f) d offset b pos length =
      let k = chunk (offset % page_size) length in
      let r = hat_write_chunk d offset b pos k in
      let rest = hat_write_loop f r.1 (u32 (offset + k)) b (pos + k) (length - k) in
      if length == 0 then (true, d) else (if r.0 then rest else r)

  unfoldable pub hat_write : P.Dev → ℕ → Buffer → ℕ → Bool × P.Dev
  hat_write d offset b length = hat_write_loop length d offset b 0 length

  unfoldable pub hat_erase_loop : ℕ → ℕ → ℕ → P.Dev → Bool × P.Dev
  hat_erase_loop zero off stop d = (leb stop off, d)
  hat_erase_loop (suc f) off stop d =
      let r = P.block_erase d (off / page_size) in
      let rest = hat_erase_loop f (u32 (off + block_size)) stop r.1 in
      if leb stop off then (true, d) else (if r.0 then rest else r)

  -- Each turn erases a whole block, so `length` turns are more than enough.
  unfoldable pub hat_erase : P.Dev → ℕ → ℕ → Bool × P.Dev
  hat_erase d offset length =
      if not (offset % block_size == 0) || not (length % block_size == 0)
      then (false, d)
      else hat_erase_loop length offset (u32 (offset + length)) d

  unfoldable pub hat_size : ℕ
  hat_size = total_size
