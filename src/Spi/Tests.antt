-- ===== src/Spi/Tests.antt =====
-- A simulated system with one chip.
use hsq_over_nand.Base.{
  ℕ, ◌+◌, ◌-◌, ◌*◌, ◌≡◌, refl, Bool, true, false, none, some, Option, [], ◌∷◌, ltb, ◌==◌,
  if◌then◌else◌, arith,
}
use hsq_over_nand.Spi.{SpiDev, spi_open, wait_busy, block_erase}
use hsq_over_nand.Spi.System.{Bus, Counts, Clock}
use hsq_over_nand.Spi.Wait.{Ends, wait_busy-Ends}
use hsq_over_nand.Spi.Report.{Answers, Reports, block_erase-Reports}
use hsq_over_nand.Spi.Open.{Opens, spi_open-Opens}

-- The nanoseconds that have passed, the blocks that are held, and whether descriptor 3 is open.
record World : Type 0 where
  time : ℕ
  count : ℕ
  used : Bool

-- The chip is busy for three milliseconds.
abbrev status_of : World → ℕ
status_of w = if ltb w.time 3000000 then 1 else 0

-- A second open fails.
abbrev given : Bool → Option ℕ
given true = none
given false = some 3

abbrev bus : Bus
bus = record {
  World = World;
  calloc = λ w. (true, record w { count = w.count + 1 });
  free = λ w. record w { count = w.count - 1 };
  open_fd = λ path w. (given w.used, record w { used = true });
  close_fd = λ fd w. record w { used = if 3 == fd then false else w.used };
  set_mode = λ fd mode w. (true, w);
  set_bits = λ fd bits w. (true, w);
  set_speed = λ fd hz w. (ltb hz 50000000, w);
  message = λ fd m rx w. (true, (λ i. status_of w), w);
  usleep = λ us w. record w { time = w.time + us * 1000 };
  now = λ w. w.time;
  junk = λ w. 0xAA;
}

-- Descriptor 3 is the only one.
abbrev opens : World → ℕ → Bool
opens w p = if p == 3 then w.used else false

open-fails :
    (t : Bool) (p : ℕ)
    → given t ≡ none
    → (if p == 3 then true else false) ≡ (if p == 3 then t else false)
open-fails true p e = refl
open-fails false p e = cc

open-new : (t : Bool) (fd : ℕ) → given t ≡ some fd → (if fd == 3 then t else false) ≡ false
open-new true fd e = cc
open-new false fd e = ground arith

open-opens :
    (t : Bool) (fd p : ℕ)
    → given t ≡ some fd
    → (if p == 3 then true else false) ≡ (if p == fd then true else (if p == 3 then t else false))
open-opens true fd p e = cc
open-opens false fd p e = let here : 3 ≡ fd = cc in ground arith

close-closes :
    (t : Bool) (fd p : ℕ)
    → (if p == 3 then (if 3 == fd then false else t) else false)
      ≡ (if p == fd then false else (if p == 3 then t else false))
close-closes t fd p = ground arith

abbrev counts : Counts bus
counts = record {
  blocks = λ w. w.count;
  is_open = opens;
  calloc_blocks = λ w. refl;
  calloc_open = λ w p. refl;
  free_blocks = λ w h. omega arith;
  free_open = λ w p. refl;
  open_blocks = λ path w. refl;
  open_fails = λ path w p e. open-fails w.used p e;
  open_new = λ path w fd e. open-new w.used fd e;
  open_opens = λ path w fd p e. open-opens w.used fd p e;
  close_blocks = λ fd w. refl;
  close_closes = λ fd p w. close-closes w.used fd p;
  mode_blocks = λ fd mode w. refl;
  mode_open = λ fd mode p w. refl;
  bits_blocks = λ fd bits w. refl;
  bits_open = λ fd bits p w. refl;
  speed_blocks = λ fd hz w. refl;
  speed_open = λ fd hz p w. refl;
}

abbrev clock : Clock bus
clock = record {
  message_now = λ fd m rx w. omega arith;
  message_late = λ fd m rx w. omega arith;
  usleep_now = λ us w. omega arith;
  usleep_late = λ us w. omega arith;
}

abbrev answers : Answers bus
answers = record { status = λ fd w. status_of w; answer = λ fd hz rx w. (refl, refl, refl) }

abbrev dev : SpiDev
dev = record { fd = 3; speed_hz = 20000000 }

abbrev world : World
world = record { time = 0; count = 0; used = false }

wait_busy-Ends_example :
    (r : Bool × ℕ × World) × (wait_busy bus 10000 200 dev world ≡ some r)
    × Ends bus clock 10000 200 0 dev r
wait_busy-Ends_example =
    wait_busy-Ends bus clock 10000 200 dev world (omega arith) (omega arith) (omega arith)

block_erase-Reports_example :
    (r : Bool × World) × (block_erase bus 640 dev world ≡ some r)
    × Reports bus clock answers 0x04 500000 dev world r
block_erase-Reports_example = block_erase-Reports bus clock answers 640 dev world

spi_open-Opens_example : Opens bus counts world (spi_open bus (47 ∷ []) 60000000 world)
spi_open-Opens_example = spi_open-Opens bus counts (47 ∷ []) 60000000 world
