-- ===== src/Round/Start.antt =====
-- A started machine: the constructor of `CPU` (include/cpu.hpp) on whatever the flash held before, and then
-- the round that src/server/ROM.cpp builds, on the operands that the server puts into the registers.
use hsq_over_nand.Base.{
  ℕ, ◌+◌, ◌-◌, ◌*◌, ◌%◌, ◌^◌, ◌≤◌, ◌<◌, ◌≡◌, ap, true, some, List, length, arith, inl,
}
use hsq_over_nand.Nand.{Nand, Buffer}
use hsq_over_nand.Rom.{RomT, Round, Op, rom_size, ram, page_siz, build_netlist, round_ops}
use hsq_over_nand.Cpu.{Cpu}
use hsq_over_nand.Cpu.Boot.{boot}
use hsq_over_nand.Cpu.Verify.{Started, boot-starts}
use hsq_over_nand.Cpu.Page.{run_ops}
use hsq_over_nand.Cpu.Inputs.{Fresh}
use hsq_over_nand.Cpu.Round.{AreWords}
use hsq_over_nand.Round.{Differs, round-subtracts}

-- The CPU with operands in its registers, as `process_requests` of src/server/server.cpp puts them there.
abbrev pub asked : {N : Nand} → (a b : ℕ → ℕ) → Cpu N → Cpu N
asked a b s = record s { in_a = a; in_b = b }

module _ (N : Nand) (rom : List RomT) (fits : length rom * 8 ≤ rom_size) (d : N.Dev)
    (big : ram + page_siz ≤ N.size d) (narrow : N.size d < 2 ^ 32) (units : ram % N.erase_unit ≡ 0)
    (rest : (N.size d - ram) % N.erase_unit ≡ 0) where
  Started-Fresh :
      (a b : ℕ → ℕ) (s : Cpu N)
      → Started N rom fits d big narrow units rest s
      → Fresh N (asked a b s)
  Started-Fresh a b s S = record {
    aligned = ap (λ (o : ℕ). o % page_siz) S.first_page;
    fits = omega (arith, S.first_page);
    room = omega (arith, S.first_page, S.whole, big);
    erased = λ j lt.
        S.clean (ram + s.page_offset + j) (omega arith)
          (omega (arith, S.first_page, S.whole, big, lt));
    clean = inl λ e. omega (arith, e, S.no_page);
  }

  -- On a device with room for the ROM and one page, of less than 4 GiB, whose ROM area can be erased, where
  -- the ROM area and the rest are whole erase units, and with a program that fits, the constructor gives a
  -- CPU, whatever the flash held before. `build_round` makes a round, and its instructions on this CPU, with
  -- any 64-bit words `a l` and `b l` as the operands of the lanes, leave in `out` the difference `b l - a l`,
  -- modulo `2 ^ 64`, in `is_jmp` whether it is zero or negative, for both lanes, and raise the signal.
  pub boot-subtracts :
      (junk mtd_data : Buffer) (a b : ℕ → ℕ)
      → ((e : N.Dev) → (N.erase e 0 rom_size).0 ≡ true)
      → ((l : ℕ) → a l < 2 ^ 64)
      → ((l : ℕ) → b l < 2 ^ 64)
      → (s : Cpu N) × (r : Round) × (os : List Op) × (boot N rom junk mtd_data d ≡ some s)
        × (build_netlist ram ≡ some r)
        × (round_ops r ≡ some os)
        × Differs 0 (asked a b s) (run_ops N os (asked a b s))
        × Differs 1 (asked a b s) (run_ops N os (asked a b s))
        × ((run_ops N os (asked a b s)).signal ≡ true)
  boot-subtracts junk mtd_data a b works small_a small_b =
      let (s, booted, S) = boot-starts N rom fits d big narrow units rest junk mtd_data works in
      let words : AreWords (asked a b s) = record {
        in_a = small_a;
        in_b = small_b;
        out = λ l. omega (arith, S.no_result l);
      } in
      let (r, os, built, made, first, second, signal) =
        round-subtracts N (asked a b s) (Started-Fresh a b s S) words in
      (s, r, os, booted, built, made, first, second, signal)
