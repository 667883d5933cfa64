-- ===== src/Spi/System.antt =====
-- What src/spi/w25n_spidev.c relies on in the system: memory, descriptors, the SPI messages of the
-- kernel, the monotonic clock and `usleep`.
use hsq_over_nand.Base.{
  ℕ, ◌+◌, ◌*◌, ◌^◌, ◌≤◌, ◌<◌, ◌≡◌, Bool, true, false, Option, none, some, List, ◌==◌, if◌then◌else◌,
}
use hsq_over_nand.Nand.{Buffer}

-- A part of a message, with the clock of the bus in hertz; all parts of one message are sent while the
-- chip stays selected.
pub data Segment : Type 0 where
  send : List ℕ → ℕ → Segment
  receive : ℕ → ℕ → Segment

-- `now` is the monotonic clock in nanoseconds, and `junk` what a local variable holds before it is set.
pub record Bus : Type 1 where
  pub World : Type 0
  pub calloc : World → Bool × World
  pub free : World → World
  pub open_fd : List ℕ → World → Option ℕ × World
  pub close_fd : ℕ → World → World
  pub set_mode : ℕ → ℕ → World → Bool × World
  pub set_bits : ℕ → ℕ → World → Bool × World
  pub set_speed : ℕ → ℕ → World → Bool × World
  pub message : ℕ → List Segment → Buffer → World → Bool × Buffer × World
  pub usleep : ℕ → World → World
  pub now : World → ℕ
  pub junk : World → ℕ

-- The documented behaviour of the memory and of the descriptors: `blocks` counts the memory blocks that have
-- not been freed, and `is_open` says which descriptors are open. A new descriptor is one that was not open.
pub record Counts (B : Bus) : Type 0 where
  pub blocks : B.World → ℕ
  pub is_open : B.World → ℕ → Bool
  pub calloc_blocks :
      (w : B.World) → blocks (B.calloc w).1 ≡ (if (B.calloc w).0 then blocks w + 1 else blocks w)
  pub calloc_open : (w : B.World) (p : ℕ) → is_open (B.calloc w).1 p ≡ is_open w p
  pub free_blocks : (w : B.World) → 0 < blocks w → blocks (B.free w) + 1 ≡ blocks w
  pub free_open : (w : B.World) (p : ℕ) → is_open (B.free w) p ≡ is_open w p
  pub open_blocks : (path : List ℕ) (w : B.World) → blocks (B.open_fd path w).1 ≡ blocks w
  pub open_fails :
      (path : List ℕ) (w : B.World) (p : ℕ)
      → (B.open_fd path w).0 ≡ none
      → is_open (B.open_fd path w).1 p ≡ is_open w p
  pub open_new :
      (path : List ℕ) (w : B.World) (fd : ℕ) → (B.open_fd path w).0 ≡ some fd → is_open w fd ≡ false
  pub open_opens :
      (path : List ℕ) (w : B.World) (fd p : ℕ)
      → (B.open_fd path w).0 ≡ some fd
      → is_open (B.open_fd path w).1 p ≡ (if p == fd then true else is_open w p)
  pub close_blocks : (fd : ℕ) (w : B.World) → blocks (B.close_fd fd w) ≡ blocks w
  pub close_closes :
      (fd p : ℕ) (w : B.World)
      → is_open (B.close_fd fd w) p ≡ (if p == fd then false else is_open w p)
  pub mode_blocks : (fd mode : ℕ) (w : B.World) → blocks (B.set_mode fd mode w).1 ≡ blocks w
  pub mode_open : (fd mode p : ℕ) (w : B.World) → is_open (B.set_mode fd mode w).1 p ≡ is_open w p
  pub bits_blocks : (fd bits : ℕ) (w : B.World) → blocks (B.set_bits fd bits w).1 ≡ blocks w
  pub bits_open : (fd bits p : ℕ) (w : B.World) → is_open (B.set_bits fd bits w).1 p ≡ is_open w p
  pub speed_blocks : (fd hz : ℕ) (w : B.World) → blocks (B.set_speed fd hz w).1 ≡ blocks w
  pub speed_open : (fd hz p : ℕ) (w : B.World) → is_open (B.set_speed fd hz w).1 p ≡ is_open w p

-- The documented behaviour of the clock: it never goes back, and `usleep` takes at least the time asked
-- for. No call takes 2 ^ 61 nanoseconds, seventy years, longer than it has to.
pub record Clock (B : Bus) : Type 0 where
  pub message_now :
      (fd : ℕ) (m : List Segment) (rx : Buffer) (w : B.World)
      → B.now w ≤ B.now (B.message fd m rx w).2
  pub message_late :
      (fd : ℕ) (m : List Segment) (rx : Buffer) (w : B.World)
      → B.now (B.message fd m rx w).2 ≤ B.now w + 2 ^ 61
  pub usleep_now : (us : ℕ) (w : B.World) → B.now w + us * 1000 ≤ B.now (B.usleep us w)
  pub usleep_late : (us : ℕ) (w : B.World) → B.now (B.usleep us w) ≤ B.now w + us * 1000 + 2 ^ 61
