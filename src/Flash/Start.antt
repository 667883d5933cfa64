-- ===== src/Flash/Start.antt =====
-- The constructor of `CPU` (include/cpu.hpp) on one chip of `W25NSpiFlashDevice`.
use hsq_over_nand.Base.{◌+◌, ◌-◌, ◌*◌, ◌%◌, ◌^◌, ◌≤◌, ◌<◌, ◌≡◌, refl, some, List, length, arith}
use hsq_over_nand.Nand.{Nand, Buffer}
use hsq_over_nand.Rom.{RomT, rom_size, ram, page_siz}
use hsq_over_nand.Cpu.{Cpu}
use hsq_over_nand.Cpu.Boot.{boot}
use hsq_over_nand.Cpu.Verify.{Started, boot-starts}
use hsq_over_nand.Flash.{Chips, size}
use hsq_over_nand.Flash.Erase.{erase-erases}
use hsq_over_nand.Flash.Refine.{device, size_lem}
use hsq_over_nand.Flash.Contract.{Driver, Works}

pub one_pos : 0 < 1
one_pos = omega arith

pub one_few : 1 < 16
one_few = omega arith

-- One chip as a device.
abbrev pub one_chip : {C : Driver} → Works C → Nand
one_chip W = device W 1 one_pos one_few

pub one_chip_room : (C : Driver) → ram + page_siz ≤ size C 1
one_chip_room C = omega (arith, size_lem C 1 one_few)

pub one_chip_narrow : (C : Driver) → size C 1 < 2 ^ 32
one_chip_narrow C = omega (arith, size_lem C 1 one_few)

pub one_chip_rest : (C : Driver) → (size C 1 - ram) % (2 ^ 17 * 1) ≡ 0
one_chip_rest C = omega (arith, size_lem C 1 one_few)

-- On one chip that works, with a program that fits into the ROM area, the constructor of the CPU never
-- gives up, whatever the chip held before: the CPU starts with the program on the chip and a blank
-- calculation area.
pub chip-starts :
    {C : Driver} (W : Works C) (rom : List RomT) (fits : length rom * 8 ≤ rom_size) (ds : Chips C 1)
    (junk mtd_data : Buffer)
    → (s : Cpu (one_chip W)) × (boot (one_chip W) rom junk mtd_data ds ≡ some s)
      × Started
          (one_chip W)
          rom
          fits
          ds
          (one_chip_room C)
          (one_chip_narrow C)
          refl
          (one_chip_rest C)
          s
chip-starts {C} W rom fits ds junk mtd_data =
    boot-starts (one_chip W) rom fits ds (one_chip_room C) (one_chip_narrow C) refl
      (one_chip_rest C) junk mtd_data
      (λ e. (erase-erases W 1 one_pos one_few e 0 rom_size refl refl (omega arith)).0)
