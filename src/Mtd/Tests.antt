-- ===== src/Mtd/Tests.antt =====
-- A simulated MTD device of 1 MiB with blocks of 128 KiB, like that of nandsim.
use hsq_over_nand.Base.{
  ℕ, ◌+◌, ◌-◌, ◌^◌, ◌≤◌, ◌<◌, ◌≡◌, refl, true, some, [], ◌∷◌, bit_and, leb, ltb, ◌&&◌,
  if◌then◌else◌, arith,
}
use hsq_over_nand.Nand.{Buffer, blank}
use hsq_over_nand.Rom.{Opcode, RomT, rom_size, ram, page_siz}
use hsq_over_nand.Cpu.{Cpu}
use hsq_over_nand.Cpu.Boot.{boot}
use hsq_over_nand.Cpu.Verify.{Started}
use hsq_over_nand.Mtd.{Info, Posix}
use hsq_over_nand.Mtd.Device.{Serves, mtd_device, mtd-starts}

record World : Type 0 where
  mem : Buffer
  at : ℕ

abbrev info : Info
info = record { size = 0x100000; erasesize = 0x20000 }

abbrev posix : Posix
posix = record {
  World = World;
  open_path = λ path w. (some 3, w);
  close_fd = λ fd w. w;
  memgetinfo = λ fd w. (some info, w);
  lseek = λ fd offset w. (some offset, record w { at = offset });
  read_fd = λ fd b n w.
      (some n, (λ i. if ltb i n then w.mem (w.at + i) else b i), record w { at = w.at + n });
  write_fd = λ fd b n w. (
    some n,
    record {
      mem =
          λ a. if leb w.at a && ltb a (w.at + n) then bit_and (w.mem a) (b (a - w.at)) else w.mem a;
      at = w.at + n;
    },
  );
  memerase = λ fd offset n w.
      (true, record w { mem = λ a. if leb offset a && ltb a (offset + n) then 0xff else w.mem a });
}

abbrev serves : Serves posix 3 info
serves = record {
  contents = λ w. w.mem;
  place = λ w. w.at;
  lseek_lem = λ offset w. (refl, refl, λ a. refl);
  read_fd_lem = λ b n w h. (refl, λ i. refl, λ a. refl);
  write_fd_lem = λ b n w aligned whole h. (refl, λ a. refl);
  memerase_lem = λ offset n w h h' k. (refl, λ a. refl);
}

abbrev program : RomT
program = record { code = Opcode.prg_nand; dest = 0xa0000; from = 0; next = 0 }

fits : 8 ≤ rom_size
fits = omega arith

big : ram + page_siz ≤ 0x100000
big = omega arith

narrow : 0x100000 < 2 ^ 32
narrow = omega arith

-- Old zeros are on the flash.
abbrev world : World
world = record { mem = λ a. 0; at = 0 }

mtd-starts_example :
    (s : Cpu (mtd_device posix 3 info serves [])) × (boot
        (mtd_device posix 3 info serves [])
        (program ∷ [])
        blank
        blank
        world
      ≡ some s)
    × Started (mtd_device posix 3 info serves []) (program ∷ []) fits world big narrow refl refl s
mtd-starts_example =
    mtd-starts posix 3 info serves [] (program ∷ []) fits big narrow refl refl world blank blank
      refl
