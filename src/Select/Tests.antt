-- ===== src/Select/Tests.antt =====
-- A simulated board: its pins, and devices that do nothing.
use hsq_over_nand.Base.{ℕ, ◌≡◌, ◌≢◌, refl, Bool, true, false, none, List, [], ◌∷◌}
use hsq_over_nand.Nand.{blank}
use hsq_over_nand.Cpu.{update}
use hsq_over_nand.Select.{Kind, Board, Shared, Interface, erase, read, write}
use hsq_over_nand.Select.Lights.{Pins, Dark, access-Dark}

record World : Type 0 where
  pins : ℕ → Bool

-- The bus of the HAT leaves pin 3 high.
abbrev bus : Kind → World → World
bus Kind.hat w = record { pins = update w.pins 3 true }
bus Kind.spi w = w
bus Kind.mtd w = w

abbrev board : Board
board = record {
  World = World;
  open_hat = λ dev w. (true, w);
  open_spi = λ paths hz w. (true, w);
  open_mtd = λ path w. (true, w);
  close_device = λ k w. w;
  erase_device = λ k o n w. (false, bus k w);
  read_device = λ k o b n w. (true, b, bus k w);
  write_device = λ k o b n w. (true, bus k w);
  size_device = λ k w. 0x100000;
  spi_hz = λ w. none;
  gpiolib_init = λ w. (true, w);
  gpiolib_mmap = λ w. (true, w);
  set_up_pin = λ pin w. record { pins = update w.pins pin false };
  set_drive = λ pin t w. record { pins = update w.pins pin t };
}

left : (k : Kind) (p : ℕ) (w : World) → k ≢ Kind.hat → (bus k w).pins p ≡ w.pins p
left Kind.hat p w other = absurd (other refl)
left Kind.spi p w other = refl
left Kind.mtd p w other = refl

abbrev pins_of : Pins board
pins_of = record {
  lit = λ w. w.pins;
  drive_lit = λ pin p t w. refl;
  erase_lit = λ k o n p w other. left k p w other;
  read_lit = λ k o b n p w other. left k p w other;
  write_lit = λ k o b n p w other. left k p w other;
}

abbrev world : World
world = record { pins = λ p. false }

abbrev interface : Interface
interface = record { kind = Kind.mtd; led_ok = true }

access-Dark_example :
    Dark board pins_of (erase board interface 0 131072 world).1
    × Dark board pins_of (read board interface 0 blank 131072 world).2
    × Dark board pins_of (write board interface 0 blank 131072 world).1
access-Dark_example =
    access-Dark board pins_of interface 0 blank 131072 world (λ e. cc e) (λ p. refl)

abbrev shared : Shared
shared = record { tried = false; avail = false }

-- "hat:u2"
abbrev u2 : List ℕ
u2 = 104 ∷ 97 ∷ 116 ∷ 58 ∷ 117 ∷ 50 ∷ []
