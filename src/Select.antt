-- ===== src/Select.antt =====
-- The class `nandInterface` of include/nandInterface.hpp without NAND_STUB: the choice of the device by its
-- name, and the LEDs around each access (LED).
pub mod Lights
mod Tests
use hsq_over_nand.Base.{
  ℕ, zero, suc, ◌+◌, ◌%◌, ◌^◌, Bool, true, false, Option, none, some, List, [], ◌∷◌, not, ◌==◌,
  ◌&&◌, if◌then◌else◌,
}
use hsq_over_nand.Nand.{Buffer}
use hsq_over_nand.Csv.{split_csv}
use hsq_over_nand.Cpu.{update}

pub data Kind : Type 0 where
  hat spi mtd : Kind

-- `strncmp(dev, s, n) == 0` for a text `s` of `n` characters.
unfoldable pub starts_with : List ℕ → List ℕ → Bool
starts_with [] dev = true
starts_with (c ∷ s) [] = false
starts_with (c ∷ s) (d ∷ dev) = (c == d) && starts_with s dev

-- "hat:" and "spi:".
abbrev pub hat_prefix : List ℕ
hat_prefix = 104 ∷ 97 ∷ 116 ∷ 58 ∷ []

abbrev pub spi_prefix : List ℕ
spi_prefix = 115 ∷ 112 ∷ 105 ∷ 58 ∷ []

-- `dev + n`.
unfoldable pub after : ℕ → List ℕ → List ℕ
after zero dev = dev
after (suc n) [] = []
after (suc n) (c ∷ dev) = after n dev

unfoldable pub kind_of : List ℕ → Kind
kind_of dev =
    if starts_with hat_prefix dev
    then Kind.hat
    else (if starts_with spi_prefix dev then Kind.spi else Kind.mtd)

-- The calls of the three backends, of the environment and of the GPIO library.
pub record Board : Type 1 where
  pub World : Type 0
  pub open_hat : List ℕ → World → Bool × World
  pub open_spi : List (List ℕ) → ℕ → World → Bool × World
  pub open_mtd : List ℕ → World → Bool × World
  pub close_device : Kind → World → World
  pub erase_device : Kind → ℕ → ℕ → World → Bool × World
  pub read_device : Kind → ℕ → Buffer → ℕ → World → Bool × Buffer × World
  pub write_device : Kind → ℕ → Buffer → ℕ → World → Bool × World
  pub size_device : Kind → World → ℕ
  pub spi_hz : World → Option ℕ
  pub gpiolib_init : World → Bool × World
  pub gpiolib_mmap : World → Bool × World
  pub set_up_pin : ℕ → World → World
  pub set_drive : ℕ → Bool → World → World

abbrev pub led_read : ℕ
led_read = 2

abbrev pub led_write : ℕ
led_write = 3

abbrev pub led_erase : ℕ
led_erase = 4

-- The two `static` variables of the constructor.
pub record Shared : Type 0 where
  pub tried : Bool
  pub avail : Bool

pub record Interface : Type 0 where
  pub kind : Kind
  pub led_ok : Bool

module _ (B : Board) where
  -- The GPIO library is asked for once in the process; each pin is made a dark output without a pull.
  unfoldable pub gpio_once : Shared → B.World → Shared × B.World
  gpio_once g w =
      let i = B.gpiolib_init w in
      let m = B.gpiolib_mmap i.1 in
      if g.tried
      then (g, w)
      else (if not i.0
          then (record { tried = true; avail = false }, i.1)
          else (if not m.0 then (record { tried = true; avail = false }, m.1) else (
            record { tried = true; avail = true },
            B.set_up_pin led_erase (B.set_up_pin led_write (B.set_up_pin led_read m.1)),
          )))

  -- The speed from the environment, or 20 MHz.
  unfoldable pub speed : Option ℕ → ℕ
  speed none = 20000000
  speed (some hz) = hz % 2 ^ 32

  -- After a backend that is not the HAT was opened; `none` is `exit(1)`.
  unfoldable pub with_lights :
      Kind → Shared → (Bool × B.World) → Option (Interface × Shared × B.World)
  with_lights kind g o =
      let s = gpio_once g o.1 in
      if not o.0 then none else some (record { kind = kind; led_ok = s.0.avail }, s.0, s.1)

  unfoldable pub new_of : Kind → List ℕ → Shared → B.World → Option (Interface × Shared × B.World)
  new_of Kind.hat dev g w =
      let o = B.open_hat (after 4 dev) w in
      if not o.0 then none else some (record { kind = Kind.hat; led_ok = false }, g, o.1)
  new_of Kind.spi dev g w =
      with_lights Kind.spi g (B.open_spi (split_csv (after 4 dev)) (speed (B.spi_hz w)) w)
  new_of Kind.mtd dev g w = with_lights Kind.mtd g (B.open_mtd dev w)

  -- The constructor.
  unfoldable pub new : List ℕ → Shared → B.World → Option (Interface × Shared × B.World)
  new dev g w = new_of (kind_of dev) dev g w

  -- The destructor.
  unfoldable pub delete : Interface → B.World → B.World
  delete n w = B.close_device n.kind w

  unfoldable pub led : Interface → ℕ → Bool → B.World → B.World
  led n pin drive w = if n.led_ok then B.set_drive pin drive w else w

  unfoldable pub erase : Interface → ℕ → ℕ → B.World → Bool × B.World
  erase n offset length w =
      let r = B.erase_device n.kind offset length (led n led_erase true w) in
      (r.0, led n led_erase false r.1)

  unfoldable pub read : Interface → ℕ → Buffer → ℕ → B.World → Bool × Buffer × B.World
  read n offset b length w =
      let r = B.read_device n.kind offset b length (led n led_read true w) in
      (r.0, r.1, led n led_read false r.2)

  unfoldable pub write : Interface → ℕ → Buffer → ℕ → B.World → Bool × B.World
  write n offset b length w =
      let r = B.write_device n.kind offset b length (led n led_write true w) in
      (r.0, led n led_write false r.1)

  unfoldable pub size : Interface → B.World → ℕ
  size n w = B.size_device n.kind w
