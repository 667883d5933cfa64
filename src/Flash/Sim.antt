-- ===== src/Flash/Sim.antt =====
-- A simulated chip: its memory, its data buffer, and the page of the program that runs.
use Prim.Native.Nat.{digits, min, bit_and-bitwise}
use hsq_over_nand.Base.{
  ℕ, zero, suc, ◌+◌, ◌-◌, ◌*◌, ◌/◌, ◌^◌, ◌≤◌, ◌<◌, ◌≡◌, refl, true, bit_and, leb, ltb, ◌&&◌, ◌==◌,
  if◌then◌else◌, arith,
}
use hsq_over_nand.Nand.{Buffer}
use hsq_over_nand.Flash.Contract.{Driver, Works, page_size, block_pages, block_size}

digits_le : (n a b : ℕ) → digits (λ c. zero) min n a b ≤ a
digits_le zero a b = omega arith
digits_le (suc n) zero b = omega arith
digits_le (suc n) (suc a) b = omega (arith, digits_le n (suc a / 2) (b / 2))

pub bit_and_le : (a b : ℕ) → bit_and a b ≤ a
bit_and_le a b = omega (arith, bit_and-bitwise a b, digits_le a a b)

pub record Sim : Type 0 where
  pub mem : Buffer
  pub small : (a : ℕ) → mem a < 2 ^ 8
  pub buf : Buffer
  pub target : ℕ

abbrev pub programmed : Sim → Buffer
programmed d a =
    if a / page_size == d.target
    then bit_and (d.mem a) (d.buf (a - d.target * page_size))
    else d.mem a

pub programmed_small : (d : Sim) (a : ℕ) → programmed d a < 2 ^ 8
programmed_small d a =
    ground (arith, d.small a, bit_and_le (d.mem a) (d.buf (a - d.target * page_size)))

abbrev pub erased : Sim → ℕ → Buffer
erased d page a = if a / block_size == page / block_pages then 0xff else d.mem a

pub erased_small : (d : Sim) (page a : ℕ) → erased d page a < 2 ^ 8
erased_small d page a = ground (arith, d.small a)

abbrev pub sim : Driver
sim = record {
  Dev = Sim;
  page_read = λ d page.
      (true, record d { buf = λ c. if c == page_size then 0xff else d.mem (page * page_size + c) });
  read_buf = λ d col b n. (true, (λ i. if ltb i n then d.buf (col + i) else b i), d);
  program_load = λ d col b n.
      (true, record d { buf = λ c. if leb col c && ltb c (col + n) then b (c - col) else 0xff });
  program_issue = λ d page. (true, record d { target = page });
  program_wait = λ d. (true, record d { mem = programmed d; small = programmed_small d });
  block_erase = λ d page. (true, record d { mem = erased d page; small = erased_small d page });
}

pub sim_page :
    (m : Buffer) (page c : ℕ)
    → c < page_size
    → (if c == page_size then 0xff else m (page * page_size + c)) ≡ m (page * page_size + c)
sim_page m page c lt = ground arith

abbrev pub sim_works : Works sim
sim_works = record {
  contents = λ d. d.mem;
  cache = λ d. d.buf;
  spare = λ d page. 0xff;
  contents_byte = λ d a. d.small a;
  page_read_lem = λ d page h. (refl, λ c lt. sim_page d.mem page c lt, λ a. refl);
  read_buf_lem = λ d col b n h. (refl, λ i. refl, λ a. refl);
  program_load_lem = λ d col b n h. (refl, λ c lt. refl, λ a. refl);
  program_lem = λ d page h. (refl, refl, λ a. refl);
  block_erase_lem = λ d page h. (refl, λ a. refl);
  spare_lem = λ d page b h. (refl, refl, λ a. refl);
}
