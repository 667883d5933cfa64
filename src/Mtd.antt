-- ===== src/Mtd.antt =====
-- `MTDFlashDevice` of include/MTDFlashDevice.hpp over the calls of the kernel, which are operations on the
-- world.
pub mod Device
mod Tests
use hsq_over_nand.Base.{
  ℕ, ◌%◌, Bool, true, false, Option, none, some, List, not, ◌==◌, if◌then◌else◌,
}
use hsq_over_nand.Nand.{Buffer}

-- `struct mtd_info_user`, as far as the class uses it.
pub record Info : Type 0 where
  pub size : ℕ
  pub erasesize : ℕ

-- The calls; an error of `open`, `lseek`, `read` and `write` is `none`.
pub record Posix : Type 1 where
  pub World : Type 0
  pub open_path : List ℕ → World → Option ℕ × World
  pub close_fd : ℕ → World → World
  pub memgetinfo : ℕ → World → Option Info × World
  pub lseek : ℕ → ℕ → World → Option ℕ × World
  pub read_fd : ℕ → Buffer → ℕ → World → Option ℕ × Buffer × World
  pub write_fd : ℕ → Buffer → ℕ → World → Option ℕ × World
  pub memerase : ℕ → ℕ → ℕ → World → Bool × World

-- The members; `fd` is `none` for -1.
pub record Mtd : Type 0 where
  pub fd : Option ℕ
  pub info : Info
  pub path : List ℕ

-- Whether a call has moved the number of bytes asked for, or to the place asked for.
unfoldable pub all_of : ℕ → Option ℕ → Bool
all_of n none = false
all_of n (some m) = m == n

module _ (P : Posix) where
  unfoldable pub got_info : ℕ → Mtd → Option Info → P.World → Bool × Mtd × P.World
  got_info fd s none w = (false, record s { fd = none }, P.close_fd fd w)
  got_info fd s (some i) w = (true, record s { fd = some fd; info = i }, w)

  unfoldable pub got_fd : Mtd → Option ℕ → P.World → Bool × Mtd × P.World
  got_fd s none w = (false, record s { fd = none }, w)
  got_fd s (some fd) w = let i = P.memgetinfo fd w in got_info fd s i.0 i.1

  -- `MTDFlashDevice::open`.
  unfoldable pub mtd_open : Mtd → P.World → Bool × Mtd × P.World
  mtd_open s w = let o = P.open_path s.path w in got_fd s o.0 o.1

  -- `MTDFlashDevice::close`.
  unfoldable pub close_open : Mtd → Option ℕ → P.World → Mtd × P.World
  close_open s none w = (s, w)
  close_open s (some fd) w = (record s { fd = none }, P.close_fd fd w)

  abbrev pub mtd_close : Mtd → P.World → Mtd × P.World
  mtd_close s w = close_open s s.fd w

  unfoldable pub read_open : Option ℕ → ℕ → Buffer → ℕ → P.World → Bool × Buffer × P.World
  read_open none offset b length w = (false, b, w)
  read_open (some fd) offset b length w =
      let l = P.lseek fd offset w in
      let r = P.read_fd fd b length l.1 in
      if not (all_of offset l.0)
      then (false, b, l.1)
      else (if not (all_of length r.0) then (false, r.1, r.2) else (true, r.1, r.2))

  -- `MTDFlashDevice::read`.
  abbrev pub mtd_read : Mtd → ℕ → Buffer → ℕ → P.World → Bool × Buffer × P.World
  mtd_read s offset b length w = read_open s.fd offset b length w

  unfoldable pub write_open : Option ℕ → ℕ → Buffer → ℕ → P.World → Bool × P.World
  write_open none offset b length w = (false, w)
  write_open (some fd) offset b length w =
      let l = P.lseek fd offset w in
      let r = P.write_fd fd b length l.1 in
      if not (all_of offset l.0)
      then (false, l.1)
      else (if not (all_of length r.0) then (false, r.1) else (true, r.1))

  -- `MTDFlashDevice::write`.
  abbrev pub mtd_write : Mtd → ℕ → Buffer → ℕ → P.World → Bool × P.World
  mtd_write s offset b length w = write_open s.fd offset b length w

  unfoldable pub erase_open : Option ℕ → Info → ℕ → ℕ → P.World → Bool × P.World
  erase_open none info offset length w = (false, w)
  erase_open (some fd) info offset length w =
      let r = P.memerase fd offset length w in
      if not (offset % info.erasesize == 0)
      then (false, w)
      else (if not (length % info.erasesize == 0) then (false, w) else r)

  -- `MTDFlashDevice::erase`.
  abbrev pub mtd_erase : Mtd → ℕ → ℕ → P.World → Bool × P.World
  mtd_erase s offset length w = erase_open s.fd s.info offset length w
