-- ===== src/Flash/Contract.antt =====
-- What `W25NSpiFlashDevice` (include/W25NSpiFlashDevice.hpp) relies on in a chip: the calls of
-- src/spi/w25n_spidev.h, each with its status, and what a working chip does on them.
use hsq_over_nand.Base.{
  ℕ, ◌+◌, ◌-◌, ◌*◌, ◌/◌, ◌^◌, ◌≤◌, ◌<◌, ◌≡◌, Bool, true, bit_and, leb, ltb, ◌&&◌, ◌==◌,
  if◌then◌else◌,
}
use hsq_over_nand.Nand.{Buffer}

abbrev pub page_size : ℕ
page_size = 2048

abbrev pub block_pages : ℕ
block_pages = 64

abbrev pub block_size : ℕ
block_size = page_size * block_pages

abbrev pub num_blocks : ℕ
num_blocks = 2048

abbrev pub total_size : ℕ
total_size = block_size * num_blocks

abbrev pub num_pages : ℕ
num_pages = block_pages * num_blocks

-- The calls of the driver of a chip.
pub record Driver : Type 1 where
  pub Dev : Type 0
  pub page_read : Dev → ℕ → Bool × Dev
  pub read_buf : Dev → ℕ → Buffer → ℕ → Bool × Buffer × Dev
  pub program_load : Dev → ℕ → Buffer → ℕ → Bool × Dev
  pub program_issue : Dev → ℕ → Bool × Dev
  pub program_wait : Dev → Bool × Dev
  pub block_erase : Dev → ℕ → Bool × Dev

-- A chip that works: `contents` is what the cells hold, `cache` the data buffer of the chip, and `spare`
-- the first byte of the spare area of a page, which comes behind the bytes of the page. A program
-- that is issued ANDs the data buffer into its page once it has been waited for.
pub record Works (C : Driver) : Type 0 where
  pub contents : C.Dev → Buffer
  pub cache : C.Dev → Buffer
  pub spare : C.Dev → Buffer
  pub contents_byte : (d : C.Dev) (a : ℕ) → contents d a < 2 ^ 8
  pub page_read_lem :
      (d : C.Dev) (page : ℕ)
      → page < num_pages
      → ((C.page_read d page).0 ≡ true)
        × ((c : ℕ)
            → c < page_size
            → cache (C.page_read d page).1 c ≡ contents d (page * page_size + c))
        × ((a : ℕ) → contents (C.page_read d page).1 a ≡ contents d a)
  pub read_buf_lem :
      (d : C.Dev) (col : ℕ) (b : Buffer) (n : ℕ)
      → col + n ≤ page_size
      → ((C.read_buf d col b n).0 ≡ true)
        × ((i : ℕ) → (C.read_buf d col b n).1 i ≡ (if ltb i n then cache d (col + i) else b i))
        × ((a : ℕ) → contents (C.read_buf d col b n).2 a ≡ contents d a)
  pub program_load_lem :
      (d : C.Dev) (col : ℕ) (b : Buffer) (n : ℕ)
      → col + n ≤ page_size
      → ((C.program_load d col b n).0 ≡ true)
        × ((c : ℕ)
            → c < page_size
            → cache (C.program_load d col b n).1 c
              ≡ (if leb col c && ltb c (col + n) then b (c - col) else 0xff))
        × ((a : ℕ) → contents (C.program_load d col b n).1 a ≡ contents d a)
  pub program_lem :
      (d : C.Dev) (page : ℕ)
      → page < num_pages
      → let e = (C.program_issue d page).1 in
        ((C.program_issue d page).0 ≡ true)
        × ((C.program_wait e).0 ≡ true)
        × ((a : ℕ)
            → contents (C.program_wait e).1 a ≡ (
                if a / page_size == page
                then bit_and (contents d a) (cache d (a - page * page_size))
                else contents d a))
  pub block_erase_lem :
      (d : C.Dev) (page : ℕ)
      → page < num_pages
      → ((C.block_erase d page).0 ≡ true)
        × ((a : ℕ)
            → contents (C.block_erase d page).1 a
              ≡ (if a / block_size == page / block_pages then 0xff else contents d a))
  pub spare_lem :
      (d : C.Dev) (page : ℕ) (b : Buffer)
      → page < num_pages
      → let r = C.read_buf (C.page_read d page).1 page_size b 1 in
        (r.0 ≡ true) × (r.1 0 ≡ spare d page) × ((a : ℕ) → contents r.2 a ≡ contents d a)
