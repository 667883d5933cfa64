-- ===== src/Nand.antt =====
-- `class nandInterface` of include/nandInterface.hpp as the CPU sees it, and its in-memory version
-- (NAND_STUB). A buffer is a function of the index; a call returns its status with what it changed.
use hsq_over_nand.Base.{
  ℕ, ◌+◌, ◌-◌, ◌%◌, ◌^◌, ◌≤◌, ◌≡◌, refl, ap, Bool, true, bit_and, leb, ltb, ◌&&◌, if◌then◌else◌,
}

abbrev pub Buffer : Type 0
Buffer = ℕ → ℕ

abbrev pub blank : Buffer
blank i = 0xff

-- What a device promises: `contents` is what its cells hold. Programming whole pages
-- of 2048 bytes only clears bits, erasing
-- sets the bytes of whole erase units to 0xff, and reading fills the first `length` bytes of the
-- buffer.
pub record Nand : Type 1 where
  pub Dev : Type 0
  pub contents : Dev → Buffer
  pub size : Dev → ℕ
  pub erase_unit : ℕ
  pub erase : Dev → ℕ → ℕ → Bool × Dev
  pub read : Dev → ℕ → Buffer → ℕ → Bool × Buffer × Dev
  pub write : Dev → ℕ → Buffer → ℕ → Bool × Dev
  pub read_lem :
      (d : Dev) (offset : ℕ) (b : Buffer) (n i : ℕ)
      → offset + n ≤ size d
      → (read d offset b n).1 i ≡ (if ltb i n then contents d (offset + i) else b i)
  pub read_contents :
      (d : Dev) (offset : ℕ) (b : Buffer) (n a : ℕ)
      → offset + n ≤ size d
      → contents (read d offset b n).2 a ≡ contents d a
  pub read_size : (d : Dev) (offset : ℕ) (b : Buffer) (n : ℕ) → size (read d offset b n).2 ≡ size d
  pub write_lem :
      (d : Dev) (offset : ℕ) (b : Buffer) (n a : ℕ)
      → offset % 2048 ≡ 0
      → n % 2048 ≡ 0
      → offset + n ≤ size d
      → contents (write d offset b n).1 a ≡ (
          if leb offset a && ltb a (offset + n)
          then bit_and (contents d a) (b (a - offset))
          else contents d a)
  pub write_size :
      (d : Dev) (offset : ℕ) (b : Buffer) (n : ℕ) → size (write d offset b n).1 ≡ size d
  pub erase_lem :
      (d : Dev) (offset n a : ℕ)
      → offset % erase_unit ≡ 0
      → n % erase_unit ≡ 0
      → offset + n ≤ size d
      → contents (erase d offset n).1 a
        ≡ (if leb offset a && ltb a (offset + n) then 0xff else contents d a)
  pub erase_size : (d : Dev) (offset n : ℕ) → size (erase d offset n).1 ≡ size d

-- The vector `mem` of the stub.
pub record Stub : Type 0 where
  pub mem : Buffer
  pub bytes : ℕ

unfoldable pub stub_new : Stub
stub_new = record { mem = blank; bytes = 2 ^ 20 }

unfoldable pub stub_erase : Stub → ℕ → ℕ → Bool × Stub
stub_erase d offset length = (
  true,
  record d { mem = λ a. if leb offset a && ltb a (offset + length) then 0xff else d.mem a },
)

unfoldable pub stub_read : Stub → ℕ → Buffer → ℕ → Bool × Buffer × Stub
stub_read d offset buffer length =
    (true, (λ i. if ltb i length then d.mem (offset + i) else buffer i), d)

unfoldable pub stub_write : Stub → ℕ → Buffer → ℕ → Bool × Stub
stub_write d offset buffer length = (
  true,
  record d {
    mem = λ a.
        if leb offset a && ltb a (offset + length)
        then bit_and (d.mem a) (buffer (a - offset))
        else d.mem a;
  },
)

pub stub_read_lem :
    (d : Stub) (offset : ℕ) (b : Buffer) (n i : ℕ)
    → (stub_read d offset b n).1 i ≡ (if ltb i n then d.mem (offset + i) else b i)
unfolding stub_read
stub_read_lem d offset b n i = refl

pub stub_read_same : (d : Stub) (offset : ℕ) (b : Buffer) (n : ℕ) → (stub_read d offset b n).2 ≡ d
unfolding stub_read
stub_read_same d offset b n = refl

pub stub_write_lem :
    (d : Stub) (offset : ℕ) (b : Buffer) (n a : ℕ)
    → (stub_write d offset b n).1.mem a
      ≡ (if leb offset a && ltb a (offset + n) then bit_and (d.mem a) (b (a - offset)) else d.mem a)
unfolding stub_write
stub_write_lem d offset b n a = refl

pub stub_write_bytes :
    (d : Stub) (offset : ℕ) (b : Buffer) (n : ℕ) → (stub_write d offset b n).1.bytes ≡ d.bytes
unfolding stub_write
stub_write_bytes d offset b n = refl

pub stub_erase_lem :
    (d : Stub) (offset n a : ℕ)
    → (stub_erase d offset n).1.mem a
      ≡ (if leb offset a && ltb a (offset + n) then 0xff else d.mem a)
unfolding stub_erase
stub_erase_lem d offset n a = refl

pub stub_erase_bytes : (d : Stub) (offset n : ℕ) → (stub_erase d offset n).1.bytes ≡ d.bytes
unfolding stub_erase
stub_erase_bytes d offset n = refl

-- The stub keeps the promises of a device.
abbrev pub stub : Nand
stub = record {
  Dev = Stub;
  contents = λ d. d.mem;
  size = λ d. d.bytes;
  erase_unit = 1;
  erase = stub_erase;
  read = stub_read;
  write = stub_write;
  read_lem = λ d offset b n i h. stub_read_lem d offset b n i;
  read_contents = λ d offset b n a h. ap (λ (e : Stub). e.mem a) (stub_read_same d offset b n);
  read_size = λ d offset b n. ap (λ (e : Stub). e.bytes) (stub_read_same d offset b n);
  write_lem = λ d offset b n a aligned whole h. stub_write_lem d offset b n a;
  write_size = stub_write_bytes;
  erase_lem = λ d offset n a h k f. stub_erase_lem d offset n a;
  erase_size = stub_erase_bytes;
}
