-- ===== src/Cpu/Boot.antt =====
-- The constructor of `CPU` (include/cpu.hpp): the ROM image is written to the flash and checked.
use hsq_over_nand.Base.{
  ℕ, zero, suc, ◌*◌, Bool, true, false, Option, some, none, List, length, ltb, ◌&&◌, ◌==◌,
  if◌then◌else◌,
}
use hsq_over_nand.Nand.{Nand, Buffer}
use hsq_over_nand.Rom.{RomT, rom_size}
use hsq_over_nand.Cpu.{Cpu, erase}
use hsq_over_nand.Cpu.Fetch.{image}

-- `memcmp(f, g, n) == 0`.
unfoldable pub equal_upto : ℕ → Buffer → Buffer → Bool
equal_upto zero f g = true
equal_upto (suc n) f g = (f n == g n) && equal_upto n f g

-- The loop that looks for a byte other than 0xff.
unfoldable pub blank_upto : ℕ → Buffer → Bool
blank_upto zero f = true
blank_upto (suc n) f = (f n == 0xff) && blank_upto n f

module _ (N : Nand) where
  -- The object as it is built over the device, with `mtd_data` as it stands.
  unfoldable pub fresh : N.Dev → Buffer → Cpu N
  fresh d mtd_data = record {
    pc = 0;
    out = λ i. 0;
    in_a = λ i. 0;
    in_b = λ i. 0;
    signal = false;
    is_jmp = λ i. false;
    page = λ j. 0;
    rom = λ j. 0;
    getin_cnt = 0;
    page_offset = 0;
    pre_offset = 0;
    nand_size = N.size d;
    nand = d;
    mtd_data = mtd_data;
  }

  -- Old data in the ROM area is erased first; `none` is a failed erase.
  unfoldable pub repair : Buffer → Buffer → N.Dev → Option (N.Dev)
  repair target verify d =
      if equal_upto rom_size verify target
      then some d
      else if blank_upto rom_size verify
      then some d
      else (let r = N.erase d 0 rom_size in if r.0 then some r.1 else none)

  -- The constructor, with the ROM that `rom_init` made and the bytes `junk` in the fresh buffer
  -- `verify`; `none` is one of its calls of `exit(1)`.
  unfoldable pub boot : List RomT → Buffer → Buffer → N.Dev → Option (Cpu N)
  boot rom junk mtd_data d =
      if ltb rom_size (length rom * 8)
      then none
      else (let target = image rom in
          let first = N.read d 0 junk rom_size in
          let verify = first.1 in
          elim (repair target verify first.2) [
            | none ↦ none
            | some d₁ ↦
                let d₂ = (N.write d₁ 0 target rom_size).1 in
                let again = N.read d₂ 0 verify rom_size in
                if equal_upto rom_size again.1 target
                then some (erase N (fresh again.2 mtd_data))
                else none
          ])
