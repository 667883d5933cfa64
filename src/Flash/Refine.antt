-- ===== src/Flash/Refine.antt =====
-- Chips that work, bound together by `W25NSpiFlashDevice` (include/W25NSpiFlashDevice.hpp), are a
-- device as the CPU takes it.
use hsq_over_nand.Base.{
  ℕ, ◌+◌, ◌*◌, ◌%◌, ◌≤◌, ◌<◌, ◌≡◌, refl, true, false, not, ◌==◌, ◌&&◌, if◌then◌else◌, u32, leb, ltb,
  Bool-cases, all_below, all_below_lem, ◌||◌, arith, inl, inr,
}
use hsq_over_nand.Nand.{Nand}
use hsq_over_nand.Cpu
use hsq_over_nand.Cpu.{Cpu}
use hsq_over_nand.Rom.{ram}
use hsq_over_nand.Flash.{Chips, read, write, erase, size, group_size}
use hsq_over_nand.Flash.Address.{whole}
use hsq_over_nand.Flash.Read.{read-reads}
use hsq_over_nand.Flash.Write.{write-writes}
use hsq_over_nand.Flash.Erase.{group, erase-erases}
use hsq_over_nand.Flash.Contract.{Driver, Works, total_size, block_size}

pub size_lem : (C : Driver) (n : ℕ) → n < 16 → size C n ≡ total_size * n
unfolding size
size_lem C n few = omega arith

abbrev pub device : {C : Driver} → Works C → (n : ℕ) → 0 < n → n < 16 → Nand
device {C} W n pos few = record {
  Dev = Chips C n;
  contents = whole W n;
  size = λ ds. size C n;
  erase_unit = group n;
  erase = erase C n;
  read = read C n;
  write = write C n;
  read_lem = λ ds offset b m i h.
      (read-reads W n pos ds offset b m few (omega (arith, size_lem C n few))).1 i;
  read_contents = λ ds offset b m a h.
      (read-reads W n pos ds offset b m few (omega (arith, size_lem C n few))).2 a;
  read_size = λ ds offset b m. refl;
  write_lem = λ ds offset b m a aligned whole h.
      (write-writes W n pos ds offset b m few (omega (arith, size_lem C n few))).1 a;
  write_size = λ ds offset b m. refl;
  erase_lem = λ ds offset m a h k f.
      (erase-erases W n pos few ds offset m h k (omega (arith, size_lem C n few))).1 a;
  erase_size = λ ds offset m. refl;
}

-- On one to fifteen chips that work, an erase inside the device succeeds exactly when its start
-- and its length are multiples of a group, and then sets the bytes between them to 0xff;
-- otherwise it changes no cell.
pub erase-aligned :
    {C : Driver} (W : Works C) (n : ℕ)
    → 0 < n
    → n < 16
    → (ds : Chips C n) (offset length : ℕ) → offset + length ≤ total_size * n
    → let r = erase C n ds offset length in
      let good = (offset % group n == 0) && (length % group n == 0) in
      (r.0 ≡ good)
      × ((a : ℕ)
          → whole W n r.1 a
            ≡ (if good && (leb offset a && ltb a (offset + length)) then 0xff else whole W n ds a))
unfolding erase
erase-aligned {C} W n pos few ds offset length room =
    let g : group_size C n ≡ group n = omega arith in
    let good = (offset % group n == 0) && (length % group n == 0) in
    elim (Bool-cases good) [
      | inl e ↦
          let h : offset % group n ≡ 0 = ground arith in
          let h' : length % group n ≡ 0 = ground arith in
          let q = erase-erases W n pos few ds offset length h h' room in
          (rw e q.0, λ a. rw e (q.1 a))
      | inr e ↦
          let test : (not (offset % group_size C n == 0) || not (length % group_size C n == 0))
              ≡ true =
            rw g (ground arith) in
          (rw (erase, test, e) refl, λ a. rw (erase, test, e) refl)
    ]

ram_table : all_below 5 (λ k. leb k 1 || not (ram % u32 (block_size * k) == 0)) ≡ true
unfolding all_below
ram_table = refl

-- With two, three or four chips that work, the CPU's erase of the calculation area, which starts
-- inside a group, erases nothing, although the CPU goes back to the first page.
pub erase-refused :
    {C : Driver} (W : Works C) (n : ℕ) (pos : 0 < n) (few : n < 16) (s : Cpu (device W n pos few))
    → 1 < n
    → n < 5
    → let r = Cpu.erase (device W n pos few) s in (r.nand ≡ s.nand) × (r.page_offset ≡ 0)
unfolding erase Cpu.erase
erase-refused {C} W n pos few s more less =
    let h =
      all_below_lem 5 (λ k. leb k 1 || not (ram % u32 (block_size * k) == 0)) n ram_table less in
    let e : (ram % u32 (block_size * n) == 0) ≡ false = ground arith in (rw (erase, e) refl, refl)
