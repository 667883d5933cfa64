-- ===== src/Flash/Tests.antt =====
-- Simulated chips.
use hsq_over_nand.Base.{
  ℕ, ◌+◌, ◌*◌, ◌≤◌, ◌<◌, ◌≡◌, refl, true, some, [], ◌∷◌, bit_and, leb, ltb, ◌&&◌, if◌then◌else◌,
  arith,
}
use hsq_over_nand.Nand.{blank}
use hsq_over_nand.Rom.{Opcode, RomT, rom_size}
use hsq_over_nand.Cpu
use hsq_over_nand.Cpu.{Cpu}
use hsq_over_nand.Cpu.Boot.{boot, fresh}
use hsq_over_nand.Cpu.Verify.{Started}
use hsq_over_nand.Flash.{Chips, read, write, erase, wait_all, wait_chip, write_loop, write_chunk}
use hsq_over_nand.Flash.Address.{whole}
use hsq_over_nand.Flash.Read.{read-reads}
use hsq_over_nand.Flash.Write.{write-writes}
use hsq_over_nand.Flash.Erase.{group}
use hsq_over_nand.Flash.Refine.{device, erase-aligned, erase-refused}
use hsq_over_nand.Flash.Start.{one_chip, one_chip_room, one_chip_narrow, one_chip_rest, chip-starts}
use hsq_over_nand.Flash.Sim.{Sim, sim, sim_works}

-- A chip whose cells are all programmed to 5.
abbrev five : Sim
five = record { mem = λ a. 5; small = λ a. omega arith; buf = blank; target = 0 }

abbrev fives : Chips sim 3
fives i = five

three_pos : 0 < 3
three_pos = omega arith

three_few : 3 < 16
three_few = omega arith

-- Three chips, and bytes of four pages.
read-reads_example :
    let r = read sim 3 fives 2000 blank 5000 in
    (r.0 ≡ true)
    × ((i : ℕ) → r.1 i ≡ (if ltb i 5000 then whole sim_works 3 fives (2000 + i) else blank i))
    × ((a : ℕ) → whole sim_works 3 r.2 a ≡ whole sim_works 3 fives a)
read-reads_example = read-reads sim_works 3 three_pos fives 2000 blank 5000 three_few (omega arith)

write-writes_example :
    let r = write sim 3 fives 2000 (λ i. 6) 9000 in
    (r.0 ≡ true)
    × ((a : ℕ)
        → whole sim_works 3 r.1 a ≡ (
            if leb 2000 a && ltb a (2000 + 9000)
            then bit_and (whole sim_works 3 fives a) 6
            else whole sim_works 3 fives a))
write-writes_example =
    write-writes sim_works 3 three_pos fives 2000 (λ i. 6) 9000 three_few (omega arith)

-- A byte of the second page is a byte of the second chip.
written_byte : (whole sim_works 3 (write sim 3 fives 2046 (λ i. 6) 4).1 2048) ≡ 4
unfolding write wait_all wait_chip write_loop write_chunk
written_byte = refl

erase-aligned_example :
    let r = erase sim 3 fives 0 (2 * group 3) in
    (r.0 ≡ true)
    × ((a : ℕ)
        → whole sim_works 3 r.1 a
          ≡ (if leb 0 a && ltb a (0 + 2 * group 3) then 0xff else whole sim_works 3 fives a))
erase-aligned_example =
    erase-aligned sim_works 3 three_pos three_few fives 0 (2 * group 3) (omega arith)

abbrev cpu : Cpu (device sim_works 3 three_pos three_few)
cpu = fresh (device sim_works 3 three_pos three_few) fives blank

erase-refused_example :
    let r = Cpu.erase (device sim_works 3 three_pos three_few) cpu in
    (r.nand ≡ cpu.nand) × (r.page_offset ≡ 0)
erase-refused_example =
    erase-refused sim_works 3 three_pos three_few cpu (omega arith) (omega arith)

abbrev program : RomT
program = record { code = Opcode.prg_nand; dest = 0xa0000; from = 0; next = 0 }

fits : 8 ≤ rom_size
fits = omega arith

chip-starts_example :
    (s : Cpu (one_chip sim_works)) × (boot
        (one_chip sim_works)
        (program ∷ [])
        blank
        blank
        (λ i. five)
      ≡ some s)
    × Started
        (one_chip sim_works)
        (program ∷ [])
        fits
        (λ i. five)
        (one_chip_room sim)
        (one_chip_narrow sim)
        refl
        (one_chip_rest sim)
        s
chip-starts_example = chip-starts sim_works (program ∷ []) fits (λ i. five) blank blank
