-- ===== src/Mtd/Device.antt =====
-- An open `MTDFlashDevice` (include/MTDFlashDevice.hpp) on a flash that works is a device as the CPU takes
-- it.
use hsq_over_nand.Base.{
  ℕ, ◌+◌, ◌-◌, ◌%◌, ◌≤◌, ◌≡◌, refl, true, some, List, length, ◌*◌, ◌^◌, ◌<◌, ◌==◌, ◌&&◌, leb, ltb,
  if◌then◌else◌, bit_and, ◌∙◌, arith,
}
use hsq_over_nand.Nand.{Nand, Buffer}
use native.Mathlib.Nat.{zero-mod}
use hsq_over_nand.Rom.{RomT, rom_size, ram, page_siz}
use hsq_over_nand.Cpu.{Cpu}
use hsq_over_nand.Cpu.Boot.{boot}
use hsq_over_nand.Cpu.Verify.{Started, boot-starts}
use hsq_over_nand.Mtd.{
  Info, Posix, Mtd, all_of, mtd_read, mtd_write, mtd_erase, read_open, write_open, erase_open,
}

-- A flash behind the descriptor `fd`: `lseek` sets the place, `read` and `write` inside the device move
-- all bytes from there on, a write of whole pages of 2048 bytes ANDs them, and MEMERASE erases whole blocks.
pub record Serves (P : Posix) (fd : ℕ) (info : Info) : Type 0 where
  pub contents : P.World → Buffer
  pub place : P.World → ℕ
  pub lseek_lem :
      (offset : ℕ) (w : P.World)
      → ((P.lseek fd offset w).0 ≡ some offset)
        × (place (P.lseek fd offset w).1 ≡ offset)
        × ((a : ℕ) → contents (P.lseek fd offset w).1 a ≡ contents w a)
  pub read_fd_lem :
      (b : Buffer) (n : ℕ) (w : P.World)
      → place w + n ≤ info.size
      → let r = P.read_fd fd b n w in
        (r.0 ≡ some n)
        × ((i : ℕ) → r.1 i ≡ (if ltb i n then contents w (place w + i) else b i))
        × ((a : ℕ) → contents r.2 a ≡ contents w a)
  pub write_fd_lem :
      (b : Buffer) (n : ℕ) (w : P.World)
      → place w % 2048 ≡ 0
      → n % 2048 ≡ 0
      → place w + n ≤ info.size
      → let r = P.write_fd fd b n w in
        (r.0 ≡ some n)
        × ((a : ℕ)
            → contents r.1 a ≡ (
                if leb (place w) a && ltb a (place w + n)
                then bit_and (contents w a) (b (a - place w))
                else contents w a))
  pub memerase_lem :
      (offset n : ℕ) (w : P.World)
      → offset % info.erasesize ≡ 0
      → n % info.erasesize ≡ 0
      → offset + n ≤ info.size
      → let r = P.memerase fd offset n w in
        (r.0 ≡ true)
        × ((a : ℕ)
            → contents r.1 a ≡ (if leb offset a && ltb a (offset + n) then 0xff else contents w a))

pub ==-refl : (n : ℕ) → (n == n) ≡ true
==-refl n = ground arith

module _ (P : Posix) (fd : ℕ) (info : Info) (S : Serves P fd info) (path : List ℕ) where
  -- The object once it is open.
  abbrev pub opened_mtd : Mtd
  opened_mtd = record { fd = some fd; info = info; path = path }

  -- An open device on a flash that works reads, inside the device, what the flash holds.
  pub mtd_read-reads :
      (w : P.World) (offset : ℕ) (b : Buffer) (n : ℕ)
      → offset + n ≤ info.size
      → let r = mtd_read P opened_mtd offset b n w in
        (r.0 ≡ true)
        × ((i : ℕ) → r.1 i ≡ (if ltb i n then S.contents w (offset + i) else b i))
        × ((a : ℕ) → S.contents r.2 a ≡ S.contents w a)
  unfolding read_open all_of
  mtd_read-reads w offset b n h =
      let l = S.lseek_lem offset w in
      let v = (P.lseek fd offset w).1 in
      let q = S.read_fd_lem b n v (rw l.1 h) in
      let ok : all_of offset (P.lseek fd offset w).0 ≡ true = rw l.0 (==-refl offset) in
      let ok' : all_of n (P.read_fd fd b n v).0 ≡ true = rw q.0 (==-refl n) in
      (
        (rw (ok, ok') refl),
        (λ i. rw (ok, ok') (q.1 i ∙ (rw (l.1, l.2 (offset + i)) refl))),
        (λ a. rw (ok, ok') (q.2 a ∙ l.2 a)),
      )

  pub mtd_write-writes :
      (w : P.World) (offset : ℕ) (b : Buffer) (n : ℕ)
      → offset % 2048 ≡ 0
      → n % 2048 ≡ 0
      → offset + n ≤ info.size
      → let r = mtd_write P opened_mtd offset b n w in
        (r.0 ≡ true)
        × ((a : ℕ)
            → S.contents r.1 a ≡ (
                if leb offset a && ltb a (offset + n)
                then bit_and (S.contents w a) (b (a - offset))
                else S.contents w a))
  unfolding write_open all_of
  mtd_write-writes w offset b n aligned whole h =
      let l = S.lseek_lem offset w in
      let v = (P.lseek fd offset w).1 in
      let q = S.write_fd_lem b n v (rw l.1 aligned) whole (rw l.1 h) in
      let ok : all_of offset (P.lseek fd offset w).0 ≡ true = rw l.0 (==-refl offset) in
      let ok' : all_of n (P.write_fd fd b n v).0 ≡ true = rw q.0 (==-refl n) in
      ((rw (ok, ok') refl), (λ a. rw (ok, ok') (q.1 a ∙ (rw (l.1, l.2 a) refl))))

  pub mtd_erase-erases :
      (w : P.World) (offset n : ℕ)
      → offset % info.erasesize ≡ 0
      → n % info.erasesize ≡ 0
      → offset + n ≤ info.size
      → let r = mtd_erase P opened_mtd offset n w in
        (r.0 ≡ true)
        × ((a : ℕ)
            → S.contents r.1 a
              ≡ (if leb offset a && ltb a (offset + n) then 0xff else S.contents w a))
  unfolding erase_open
  mtd_erase-erases w offset n h h' k = rw (h, h') (S.memerase_lem offset n w h h' k)

  abbrev pub mtd_device : Nand
  mtd_device = record {
    Dev = P.World;
    contents = S.contents;
    size = λ w. info.size;
    erase_unit = info.erasesize;
    erase = λ w offset n. mtd_erase P opened_mtd offset n w;
    read = λ w offset b n. mtd_read P opened_mtd offset b n w;
    write = λ w offset b n. mtd_write P opened_mtd offset b n w;
    read_lem = λ w offset b n i h. (mtd_read-reads w offset b n h).1 i;
    read_contents = λ w offset b n a h. (mtd_read-reads w offset b n h).2 a;
    read_size = λ w offset b n. refl;
    write_lem =
        λ w offset b n a aligned whole h. (mtd_write-writes w offset b n aligned whole h).1 a;
    write_size = λ w offset b n. refl;
    erase_lem = λ w offset n a h h' k. (mtd_erase-erases w offset n h h' k).1 a;
    erase_size = λ w offset n. refl;
  }

  -- On an open MTD device that works, of less than 4 GiB and with room for the ROM and one page, whose
  -- erase blocks divide the ROM area, the start of the calculation area and the rest, and with a program
  -- that fits, the constructor of the CPU never gives up: it starts with the program on the flash and a
  -- blank calculation area.
  pub mtd-starts :
      (rom : List RomT) (fits : length rom * 8 ≤ rom_size) (big : ram + page_siz ≤ info.size)
      (narrow : info.size < 2 ^ 32) (units : ram % info.erasesize ≡ 0)
      (rest : (info.size - ram) % info.erasesize ≡ 0) (w : P.World) (junk mtd_data : Buffer)
      → rom_size % info.erasesize ≡ 0
      → (s : Cpu mtd_device) × (boot mtd_device rom junk mtd_data w ≡ some s)
        × Started mtd_device rom fits w big narrow units rest s
  mtd-starts rom fits big narrow units rest w junk mtd_data blocks =
      boot-starts mtd_device rom fits w big narrow units rest junk mtd_data
        (λ v. (mtd_erase-erases v 0 rom_size (zero-mod info.erasesize) blocks (omega arith)).0)
