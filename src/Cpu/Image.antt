-- ===== src/Cpu/Image.antt =====
-- The ROM image on the flash (include/cpu.hpp) and what `CPU::fetch` (src/server/cpu.cpp) reads of it.
use hsq_over_nand.Base.{
  ℕ, zero, suc, ◌+◌, ◌-◌, ◌*◌, ◌/◌, ◌%◌, ◌^◌, ◌≤◌, ◌<◌, ◌≡◌, refl, ap, ◌∙◌, true, some, List, [],
  sym, ◌∷◌, length, get_elem?, leb, ltb, ◌&&◌, ◌==◌, arith, inl, inr, Bool-cases, ◌⊎◌,
}
use hsq_over_nand.Nand.{Nand, Buffer, blank}
use hsq_over_nand.Rom.{RomT, page_siz, rom_size}
use hsq_over_nand.Cpu.{Cpu}
use hsq_over_nand.Cpu.Fetch.{
  encode, decode, InFields, decode-encode, store_word, store_words, image, load_word, fetch,
}

store_words-before :
    (i : ℕ) (rs : List RomT) (b : Buffer) (j : ℕ) → j < 8 * i → store_words i rs b j ≡ b j
unfolding store_words store_word
store_words-before i [] b j h = refl
store_words-before i (r ∷ rs) b j h =
    store_words-before (i + 1) rs (store_word i (encode r) b) j (omega (arith, h))
    ∙ ground (arith, h)

store_words-after :
    (i : ℕ) (rs : List RomT) (b : Buffer) (j : ℕ)
    → 8 * (i + length rs) ≤ j
    → store_words i rs b j ≡ b j
unfolding store_words store_word
store_words-after i [] b j h = refl
store_words-after i (r ∷ rs) b j h =
    store_words-after (i + 1) rs (store_word i (encode r) b) j (omega (arith, h))
    ∙ ground (arith, h)

-- Byte `t` of the word of the instruction `k`.
store_words-at :
    (i : ℕ) (rs : List RomT) (b : Buffer) (k : ℕ) (r : RomT) (t : ℕ)
    → get_elem? rs k ≡ some r
    → t < 8
    → store_words i rs b (8 * (i + k) + t) ≡ encode r / 2 ^ (8 * t) % 2 ^ 8
unfolding store_words store_word
store_words-at i [] b k r t h lt = cc
store_words-at i (q ∷ rs) b zero r t h lt =
    let e : q ≡ r = cc h in
    let at : 8 * (i + 0) + t ≡ 8 * i + t = omega arith in
    let off : 8 * i + t - 8 * i ≡ t = omega arith in
    let inside : (leb (8 * i) (8 * i + t) && ltb (8 * i + t) (8 * i + 8)) ≡ true =
      ground (arith, lt) in
    rw at (
      store_words-before (i + 1) rs (store_word i (encode q) b) (8 * i + t) (omega (arith, lt))
      ∙ rw (inside, off, e) refl)
store_words-at i (q ∷ rs) b (suc k) r t h lt =
    let at : 8 * (i + suc k) + t ≡ 8 * (i + 1 + k) + t = omega arith in
    rw at (store_words-at (i + 1) rs (store_word i (encode q) b) k r t h lt)

store_words-byte :
    (i : ℕ) (rs : List RomT) (b : Buffer)
    → ((j : ℕ) → b j < 2 ^ 8)
    → (j : ℕ) → store_words i rs b j < 2 ^ 8
unfolding store_words store_word
store_words-byte i [] b h j = h j
store_words-byte i (r ∷ rs) b h j =
    store_words-byte (i + 1) rs (store_word i (encode r) b) (λ m. ground (arith, h m)) j

pub image-byte : (rom : List RomT) (j : ℕ) → image rom j < 2 ^ 8
unfolding image
image-byte rom j = store_words-byte 0 rom blank (λ m. omega arith) j

digits :
    (w : ℕ)
    → w < 2 ^ 64
    → w
      ≡ w / 2 ^ 0 % 2 ^ 8
        + w / 2 ^ 8 % 2 ^ 8 * 2 ^ 8
        + w / 2 ^ 16 % 2 ^ 8 * 2 ^ 16
        + w / 2 ^ 24 % 2 ^ 8 * 2 ^ 24
        + w / 2 ^ 32 % 2 ^ 8 * 2 ^ 32
        + w / 2 ^ 40 % 2 ^ 8 * 2 ^ 40
        + w / 2 ^ 48 % 2 ^ 8 * 2 ^ 48
        + w / 2 ^ 56 % 2 ^ 8 * 2 ^ 56
digits w h = omega arith

encode-lt : (r : RomT) → encode r < 2 ^ 64
unfolding encode
encode-lt r = omega arith

-- Eight bytes of the image are the word of their instruction.
load_word-image :
    (rom : List RomT) (k : ℕ) (r : RomT) (b : Buffer) (at : ℕ)
    → get_elem? rom k ≡ some r
    → ((t : ℕ) → t < 8 → b (at + t) ≡ image rom (8 * k + t))
    → load_word b at ≡ encode r
unfolding load_word image
load_word-image rom k r b at h same =
    let byte = λ (t : ℕ) (lt : t < 8).
      let e : 0 + k ≡ k = omega arith in
      same t lt ∙ (rw e at (store_words-at 0 rom blank k r t h lt)) in
    let zero_at : b at ≡ b (at + 0) = ap b (omega arith) in
    rw
      (
        zero_at,
        byte 0 (omega arith),
        byte 1 (omega arith),
        byte 2 (omega arith),
        byte 3 (omega arith),
        byte 4 (omega arith),
        byte 5 (omega arith),
        byte 6 (omega arith),
        byte 7 (omega arith),
      )
      (sym (digits (encode r) (encode-lt r)))

module _ (N : Nand) (rom : List RomT) where
  -- The flash holds the image.
  pub record Flashed (s : Cpu N) : Type 0 where
    pub big : rom_size ≤ N.size s.nand
    pub fits : 8 * length rom ≤ rom_size
    pub bytes : (a : ℕ) → a < rom_size → N.contents s.nand a ≡ image rom a

  -- The page buffer of the ROM holds the page of the program counter, or a page begins there.
  abbrev pub Loaded : Cpu N → ℕ → Type 0
  Loaded s pc =
      (pc % page_siz ≡ 0)
      ⊎ ((j : ℕ) → j < page_siz → s.rom j ≡ image rom (pc / page_siz * page_siz + j))

  pub fetch-page :
      (s : Cpu N) (j : ℕ)
      → Flashed s
      → s.pc < rom_size
      → Loaded s s.pc
      → j < page_siz
      → (fetch N s).1.rom j ≡ image rom (s.pc / page_siz * page_siz + j)
  unfolding fetch
  fetch-page s j h lt loaded jlt = elim (Bool-cases (s.pc % page_siz == 0)) [
    | inl start ↦
        let whole : s.pc ≡ s.pc / page_siz * page_siz = ground arith in
        let inside : ltb j page_siz ≡ true = ground arith in
        let got = N.read_lem s.nand s.pc s.rom page_siz j (omega (arith, h.big, lt, whole)) in
        rw start (
          rw inside at got
          ∙ h.bytes (s.pc + j) (omega (arith, lt, whole, jlt))
          ∙ ap (λ (p : ℕ). image rom (p + j)) whole)
    | inr inner ↦
        rw inner (elim loaded [ inl z ↦ absurd (ground (arith, z, inner)) | inr m ↦ m j jlt ])
  ]

  -- With the image of the program on the flash, the fetch at the address of an instruction gives that
  -- instruction, provided that its addresses fit their fields, and that the buffer of the ROM holds
  -- the page of the program counter or a page begins there.
  pub fetch-gives :
      (s : Cpu N) (i : ℕ) (r : RomT)
      → Flashed s
      → s.pc ≡ 8 * i
      → get_elem? rom i ≡ some r
      → i < length rom
      → Loaded s s.pc
      → InFields r
      → (fetch N s).0 ≡ r
  unfolding fetch
  fetch-gives s i r h at here lt loaded ok =
      let whole : s.pc < rom_size = omega (arith, at, lt, h.fits) in
      let word = load_word-image rom i r (fetch N s).1.rom (s.pc % page_siz) here (λ t tlt.
        let place : s.pc / page_siz * page_siz + (s.pc % page_siz + t) ≡ 8 * i + t =
          omega (arith, at) in
        fetch-page s (s.pc % page_siz + t) h whole loaded (omega (arith, at, tlt))
        ∙ ap (image rom) place) in
      ap decode word ∙ decode-encode r ok
