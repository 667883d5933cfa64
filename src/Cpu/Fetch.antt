-- ===== src/Cpu/Fetch.antt =====
-- The words of the ROM: how the constructor of `CPU` (include/cpu.hpp) packs an instruction, and how
-- `CPU::fetch` (src/server/cpu.cpp) reads it.
use hsq_over_nand.Base.{
  ℕ, ◌+◌, ◌-◌, ◌*◌, ◌/◌, ◌%◌, ◌^◌, ◌<◌, ◌≡◌, refl, List, [], ◌∷◌, leb, ltb, ◌&&◌, ◌==◌,
  if◌then◌else◌, arith, u64,
}
use hsq_over_nand.Nand.{Nand, Buffer, blank}
use hsq_over_nand.Rom.{Opcode, RomT, page_siz}
use hsq_over_nand.Cpu.{Cpu}

-- The values of `enum opcode`.
unfoldable pub code_of : Opcode → ℕ
code_of Opcode.mov = 0
code_of Opcode.inv_mov = 1
code_of Opcode.cap_in = 2
code_of Opcode.get_in = 3
code_of Opcode.prg_nand = 4
code_of Opcode.push_out = 5
code_of Opcode.raise = 6
code_of Opcode.erase = 7

-- `(opcode)n` for three bits.
unfoldable pub opcode_of : ℕ → Opcode
opcode_of n =
    if n == 0
    then Opcode.mov
    else if n == 1
    then Opcode.inv_mov
    else if n == 2
    then Opcode.cap_in
    else if n == 3
    then Opcode.get_in
    else if n == 4
    then Opcode.prg_nand
    else if n == 5
    then Opcode.push_out
    else if n == 6
    then Opcode.raise
    else Opcode.erase

-- The word of an instruction.
unfoldable pub encode : RomT → ℕ
encode i = u64 (code_of i.code * 2 ^ 61 + i.dest * 2 ^ 40 + i.from * 2 ^ 20 + i.next)

unfoldable pub decode : ℕ → RomT
decode w = record {
  code = opcode_of (w / 2 ^ 61);
  dest = w / 2 ^ 40 % 2 ^ 20;
  from = w / 2 ^ 20 % 2 ^ 20;
  next = w % 2 ^ 20;
}

-- The bit fields hold what they are given.
pub record InFields (i : RomT) : Type 0 where
  pub dest : i.dest < 2 ^ 20
  pub from : i.from < 2 ^ 20
  pub next : i.next < 2 ^ 20

opcode_of-code_of : (c : Opcode) → opcode_of (code_of c) ≡ c
unfolding opcode_of code_of
opcode_of-code_of Opcode.mov = refl
opcode_of-code_of Opcode.inv_mov = refl
opcode_of-code_of Opcode.cap_in = refl
opcode_of-code_of Opcode.get_in = refl
opcode_of-code_of Opcode.prg_nand = refl
opcode_of-code_of Opcode.push_out = refl
opcode_of-code_of Opcode.raise = refl
opcode_of-code_of Opcode.erase = refl

code_of-lt : (c : Opcode) → code_of c < 8
unfolding code_of
code_of-lt Opcode.mov = omega arith
code_of-lt Opcode.inv_mov = omega arith
code_of-lt Opcode.cap_in = omega arith
code_of-lt Opcode.get_in = omega arith
code_of-lt Opcode.prg_nand = omega arith
code_of-lt Opcode.push_out = omega arith
code_of-lt Opcode.raise = omega arith
code_of-lt Opcode.erase = omega arith

-- An instruction whose addresses fit their fields is read back from its word as it was.
pub decode-encode : (i : RomT) → InFields i → decode (encode i) ≡ i
unfolding decode encode
decode-encode i h =
    let c = code_of i.code in
    let w = u64 (c * 2 ^ 61 + i.dest * 2 ^ 40 + i.from * 2 ^ 20 + i.next) in
    let small : c < 8 = code_of-lt i.code in
    let whole : w ≡ c * 2 ^ 61 + i.dest * 2 ^ 40 + i.from * 2 ^ 20 + i.next =
      omega (arith, small, h.dest, h.from, h.next) in
    let e₁ : w / 2 ^ 61 ≡ c = omega (arith, whole, small, h.dest, h.from, h.next) in
    let e₂ : w / 2 ^ 40 % 2 ^ 20 ≡ i.dest = omega (arith, whole, small, h.dest, h.from, h.next) in
    let e₃ : w / 2 ^ 20 % 2 ^ 20 ≡ i.from = omega (arith, whole, small, h.dest, h.from, h.next) in
    let e₄ : w % 2 ^ 20 ≡ i.next = omega (arith, whole, small, h.dest, h.from, h.next) in
    rw (e₁, e₂, e₃, e₄, opcode_of-code_of i.code) refl

-- `*(uint64_t*)&nand_internal[i * 8] = word`, least byte first.
unfoldable pub store_word : ℕ → ℕ → Buffer → Buffer
store_word i w b j =
    if leb (8 * i) j && ltb j (8 * i + 8) then w / 2 ^ (8 * (j - 8 * i)) % 2 ^ 8 else b j

unfoldable pub store_words : ℕ → List RomT → Buffer → Buffer
unfolding store_word encode
store_words i [] b = b
store_words i (r ∷ rs) b = store_words (i + 1) rs (store_word i (encode r) b)

-- `nand_internal` after the loop.
unfoldable pub image : List RomT → Buffer
unfolding store_words
image rom = store_words 0 rom blank

-- `memcpy(&inst, &b[at], 8)`.
unfoldable pub load_word : Buffer → ℕ → ℕ
load_word b at =
    b at
    + b (at + 1) * 2 ^ 8
    + b (at + 2) * 2 ^ 16
    + b (at + 3) * 2 ^ 24
    + b (at + 4) * 2 ^ 32
    + b (at + 5) * 2 ^ 40
    + b (at + 6) * 2 ^ 48
    + b (at + 7) * 2 ^ 56

module _ (N : Nand) where
  -- `CPU::fetch`: the page buffer of the ROM is filled where a page begins.
  unfoldable pub fetch : Cpu N → RomT × Cpu N
  unfolding load_word decode
  fetch s =
      let begins = s.pc % page_siz == 0 in
      let r = N.read s.nand s.pc s.rom page_siz in
      let rom = if begins then r.1 else s.rom in
      (
        decode (load_word rom (s.pc % page_siz)),
        record s { rom = rom; nand = if begins then r.2 else s.nand },
      )
