-- ===== src/Cpu/StartTests.antt =====
-- A ROM of one instruction, on the in-memory flash.
use hsq_over_nand.Base.{◌-◌, ◌%◌, true, ◌+◌, ◌≤◌, ◌<◌, ◌≡◌, refl, some, [], ◌∷◌, arith, inl, ◌^◌}
use hsq_over_nand.Nand.{stub, stub_new, stub_erase, blank}
use hsq_over_nand.Rom.{Opcode, RomT, rom_size, ram, page_siz}
use hsq_over_nand.Cpu.Majority.{differing, majority_vote-corrects}
use hsq_over_nand.Cpu.{majority_vote, Cpu, execute}
use hsq_over_nand.Cpu.Fetch.{encode, decode, InFields, decode-encode, image, fetch}
use hsq_over_nand.Cpu.Image.{Flashed, fetch-gives}
use hsq_over_nand.Cpu.Boot.{boot, fresh}
use hsq_over_nand.Cpu.Verify.{Started, boot-starts}
use hsq_over_nand.Cpu.Wear.{Levelled, execute-Levelled}
use hsq_over_nand.Cpu.Safety.{execute-Flashed}

abbrev pub program : RomT
program = record { code = Opcode.prg_nand; dest = 0xa0000; from = 0; next = 0 }

program_fields : InFields program
program_fields = record { dest = omega arith; from = omega arith; next = omega arith }

decode-encode_example : decode (encode program) ≡ program
decode-encode_example = decode-encode program program_fields

abbrev started : Cpu stub
started = fresh stub (record { mem = image (program ∷ []); bytes = 2 ^ 20 }) blank

started-Flashed : Flashed stub (program ∷ []) started
unfolding fresh
started-Flashed = record { big = omega arith; fits = omega arith; bytes = λ a lt. refl }

fetch-gives_example : (fetch stub started).0 ≡ program
unfolding fresh
fetch-gives_example =
    fetch-gives stub (program ∷ []) started 0 program started-Flashed refl refl (omega arith)
      (inl refl) program_fields

pub fits : 8 ≤ rom_size
fits = omega arith

pub stub_room : ram + page_siz ≤ stub.size stub_new
unfolding stub_new
stub_room = let h : ram + page_siz ≤ 2 ^ 20 = omega arith in h

pub stub_narrow : stub.size stub_new < 2 ^ 32
unfolding stub_new
stub_narrow = let h : 2 ^ 20 < 2 ^ 32 = omega arith in h

pub stub_rest : (stub.size stub_new - ram) % stub.erase_unit ≡ 0
unfolding stub_new
stub_rest = refl

boot-starts_example :
    (s : Cpu stub) × (boot stub (program ∷ []) blank blank stub_new ≡ some s)
    × Started stub (program ∷ []) fits stub_new stub_room stub_narrow refl stub_rest s
unfolding stub_new stub_erase
boot-starts_example =
    boot-starts stub (program ∷ []) fits stub_new stub_room stub_narrow refl stub_rest blank blank
      (λ e. refl)

started-Levelled : Levelled stub started
unfolding fresh
started-Levelled = record {
  aligned = refl;
  room = omega arith;
  sized = refl;
  narrow = omega arith;
  units = refl;
  rest = refl;
}

execute-Levelled_example : Levelled stub (execute stub program started)
execute-Levelled_example = execute-Levelled stub program started started-Levelled

execute-Flashed_example : Flashed stub (program ∷ []) (execute stub program started)
execute-Flashed_example =
    execute-Flashed stub (program ∷ []) program started (λ h. (omega arith, omega arith))
      started-Levelled started-Flashed

near : differing 8 0x1f 0xff ≤ 3
unfolding differing
near = omega arith

-- Three bits of the byte have been cleared.
majority_vote-corrects_example : majority_vote 0x1f ≡ true
majority_vote-corrects_example = majority_vote-corrects true 0x1f (omega arith) near
