-- ===== src/Hat/Tests.antt =====
-- A simulated chip of the HAT.
use hsq_over_nand.Base.{arith}
use hsq_over_nand.Nand.{blank}
use hsq_over_nand.Flash.{Chips, read, write, erase}
use hsq_over_nand.Flash.Sim.{Sim, sim}
use hsq_over_nand.Hat.{Pio, hat_read, hat_write, hat_erase}
use hsq_over_nand.Hat.Same.{as_driver, Same, Alike}
use hsq_over_nand.Hat.Write.{hat-Alike}

abbrev pio : Pio
pio = record {
  Dev = Sim;
  page_read = sim.page_read;
  read_buf = sim.read_buf;
  program_begin = sim.program_load;
  program_commit = λ d page. sim.program_wait (sim.program_issue d page).1;
  block_erase = sim.block_erase;
}

abbrev five : Sim
five = record { mem = λ a. 5; small = λ a. omega arith; buf = blank; target = 0 }

abbrev chip : Chips (as_driver pio) 1
chip i = (five, 0)

hat-Alike_example :
    Same pio (hat_read pio five 0 blank 131072) (read (as_driver pio) 1 chip 0 blank 131072)
    × Alike pio (hat_erase pio five 0 131072) (erase (as_driver pio) 1 chip 0 131072)
    × Alike pio (hat_write pio five 0 blank 131072) (write (as_driver pio) 1 chip 0 blank 131072)
hat-Alike_example = hat-Alike pio chip 0 blank 131072
