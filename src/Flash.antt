-- ===== src/Flash.antt =====
-- `W25NSpiFlashDevice` of include/W25NSpiFlashDevice.hpp: one or more chips as one device, whose pages
-- go round the chips. The chips are given by the operations of their driver.
pub mod Contract
pub mod Address
pub mod Bad
pub mod Read
pub mod Wait
pub mod Chunk
pub mod Write
pub mod Erase
pub mod Refine
pub mod Start
pub mod Sim
mod Tests
use hsq_over_nand.Base.{
  ℕ, zero, suc, ◌+◌, ◌-◌, ◌*◌, ◌/◌, ◌%◌, Bool, true, false, not, ltb, leb, ◌==◌, ◌&&◌, ◌||◌,
  if◌then◌else◌, u32,
}
use hsq_over_nand.Nand.{Buffer}
use hsq_over_nand.Cpu.{update}
use hsq_over_nand.Flash.Contract.{Driver, page_size, block_pages, block_size, total_size}

-- The bytes that a chunk of the length `length` leaves of the page from the column `col` on.
abbrev pub chunk : ℕ → ℕ → ℕ
chunk col length = if ltb length (page_size - col) then length else page_size - col

module _ (C : Driver) (n : ℕ) where
  abbrev pub Chips : Type 0
  Chips = ℕ → C.Dev

  abbrev pub chip_index_of : ℕ → ℕ
  chip_index_of page = page % n

  abbrev pub phys_page_of : ℕ → ℕ
  phys_page_of page = page / n

  -- One turn of the loop of `read`: `k` bytes to the place `pos` of the buffer.
  unfoldable pub read_chunk : Chips → ℕ → Buffer → ℕ → ℕ → Bool × Buffer × Chips
  read_chunk ds offset b pos k =
      let page = offset / page_size in
      let c = chip_index_of page in
      let r = C.page_read (ds c) (phys_page_of page) in
      let t = C.read_buf r.1 (offset % page_size) (λ i. b (pos + i)) k in
      if r.0
      then (t.0, (λ i. if leb pos i then t.1 (i - pos) else b i), update ds c t.2)
      else (false, b, update ds c r.1)

  -- `while (length > 0)`; each turn takes at least one byte.
  unfoldable pub read_loop : ℕ → Chips → ℕ → Buffer → ℕ → ℕ → Bool × Buffer × Chips
  read_loop zero ds offset b pos length = (length == 0, b, ds)
  read_loop (suc f) ds offset b pos length =
      let k = chunk (offset % page_size) length in
      let r = read_chunk ds offset b pos k in
      let rest = read_loop f r.2 (u32 (offset + k)) r.1 (pos + k) (length - k) in
      if length == 0 then (true, b, ds) else (if r.0 then rest else r)

  unfoldable pub read : Chips → ℕ → Buffer → ℕ → Bool × Buffer × Chips
  read ds offset b length = read_loop length ds offset b 0 length

  -- The chips, and for which of them an issued program has not been waited for.
  pub record Issued : Type 0 where
    pub devs : Chips
    pub pending : ℕ → Bool

  -- `waitChip`.
  unfoldable pub wait_chip : ℕ → Issued → Bool × Issued
  wait_chip i s =
      let r = C.program_wait (s.devs i) in
      if s.pending i
      then (r.0, record { devs = update s.devs i r.1; pending = update s.pending i false })
      else (true, s)

  -- One turn of the loop of `write`, for the bytes from the place `pos` of the buffer.
  unfoldable pub write_chunk : Issued → ℕ → Buffer → ℕ → ℕ → Bool × Issued
  write_chunk s offset b pos k =
      let page = offset / page_size in
      let c = chip_index_of page in
      let w = wait_chip c s in
      let l = C.program_load (w.1.devs c) (offset % page_size) (λ i. b (pos + i)) k in
      let p = C.program_issue l.1 (phys_page_of page) in
      if w.0
      then (if l.0
          then (
            p.0,
            record {
              devs = update w.1.devs c p.1;
              pending = if p.0 then update w.1.pending c true else w.1.pending;
            },
          )
          else (false, record { devs = update w.1.devs c l.1; pending = w.1.pending }))
      else w

  -- `while (length > 0 && ok)`.
  unfoldable pub write_loop : ℕ → Issued → ℕ → Buffer → ℕ → ℕ → Bool × Issued
  write_loop zero s offset b pos length = (length == 0, s)
  write_loop (suc f) s offset b pos length =
      let k = chunk (offset % page_size) length in
      let r = write_chunk s offset b pos k in
      let rest = write_loop f r.1 (u32 (offset + k)) b (pos + k) (length - k) in
      if length == 0 then (true, s) else (if r.0 then rest else r)

  -- `for (size_t i = 0; i < n; i++) ok = waitChip(i) && ok;`, with `m` chips left.
  unfoldable pub wait_all : ℕ → ℕ → Bool → Issued → Bool × Issued
  wait_all zero i ok s = (ok, s)
  wait_all (suc m) i ok s = let r = wait_chip i s in wait_all m (i + 1) (r.0 && ok) r.1

  unfoldable pub write : Chips → ℕ → Buffer → ℕ → Bool × Chips
  write ds offset b length =
      let r = write_loop length (record { devs = ds; pending = λ i. false }) offset b 0 length in
      let a = wait_all n 0 r.0 r.1 in (a.0, a.1.devs)

  -- `groupSize`: one block of every chip.
  abbrev pub group_size : ℕ
  group_size = u32 (block_size * n)

  -- The loop over the chips, with `m` left.
  unfoldable pub erase_chips : ℕ → ℕ → ℕ → Chips → Bool × Chips
  erase_chips zero i page ds = (true, ds)
  erase_chips (suc m) i page ds =
      let r = C.block_erase (ds i) page in
      let ds' = update ds i r.1 in
      let rest = erase_chips m (i + 1) page ds' in if r.0 then rest else (false, ds')

  -- `for (uint32_t off = offset; off < offset + length; off += groupSize)`.
  unfoldable pub erase_loop : ℕ → ℕ → ℕ → Chips → Bool × Chips
  erase_loop zero off stop ds = (leb stop off, ds)
  erase_loop (suc f) off stop ds =
      let r = erase_chips n 0 (phys_page_of (off / page_size)) ds in
      let rest = erase_loop f (u32 (off + group_size)) stop r.1 in
      if leb stop off then (true, ds) else (if r.0 then rest else r)

  -- Each turn erases a whole group, so `length` turns are more than enough.
  unfoldable pub erase : Chips → ℕ → ℕ → Bool × Chips
  erase ds offset length =
      if not (offset % group_size == 0) || not (length % group_size == 0)
      then (false, ds)
      else erase_loop length offset (u32 (offset + length)) ds

  unfoldable pub size : ℕ
  size = u32 (total_size * n)

  -- The first byte of the spare area marks a block that was bad when it left the factory; a failed
  -- read counts as bad.
  unfoldable pub is_bad_block : ℕ → ℕ → Chips → Bool × Chips
  is_bad_block i block ds =
      let r = C.page_read (ds i) (u32 (block * block_pages)) in
      let t = C.read_buf r.1 page_size (λ j. 0xff) 1 in
      if r.0
      then (if t.0 then (not (t.1 0 == 0xff), update ds i t.2) else (true, update ds i t.2))
      else (true, update ds i r.1)

  -- The loop of `isGroupGood`, with `m` chips left.
  unfoldable pub is_group_good : ℕ → ℕ → ℕ → Chips → Bool × Chips
  is_group_good zero i group ds = (true, ds)
  is_group_good (suc m) i group ds =
      let r = is_bad_block i group ds in
      let rest = is_group_good m (i + 1) group r.1 in if r.0 then (false, r.1) else rest
