-- ===== src/Cpu/Verify.antt =====
-- The constructor of `CPU` (include/cpu.hpp) always ends with its ROM on the flash.
use native.Mathlib.Nat.{zero-mod}
use hsq_over_nand.Base.{
  ◌%◌, all_below, all_below_lem, ℕ, zero, suc, ◌+◌, ◌-◌, ◌*◌, ◌^◌, ◌≤◌, ◌<◌, ◌≡◌, refl, ap, ◌∙◌,
  true, false, some, List, length, leb, ltb, ◌&&◌, ◌==◌, arith, inl, inr, Bool-cases, bit_and, u32,
  sym,
}
use hsq_over_nand.Nand.{Nand, Buffer}
use hsq_over_nand.Rom.{RomT, rom_size, ram, page_siz}
use hsq_over_nand.Cpu.{Cpu, erase}
use hsq_over_nand.Cpu.Fetch.{image}
use hsq_over_nand.Cpu.Image.{image-byte, Flashed}
use hsq_over_nand.Cpu.Boot.{equal_upto, blank_upto, fresh, repair, boot}

same_table : all_below 256 (λ x. bit_and x x == x) ≡ true
unfolding all_below
same_table = refl

ones_table : all_below 256 (λ x. bit_and 0xff x == x) ≡ true
unfolding all_below
ones_table = refl

bit_and-same : (x : ℕ) → x < 2 ^ 8 → bit_and x x ≡ x
bit_and-same x h =
    let e : (bit_and x x == x) ≡ true =
      all_below_lem 256 (λ y. bit_and y y == y) x same_table (omega (arith, h)) in
    ground (arith, e)

bit_and-ones : (x : ℕ) → x < 2 ^ 8 → bit_and 0xff x ≡ x
bit_and-ones x h =
    let e : (bit_and 0xff x == x) ≡ true =
      all_below_lem 256 (λ y. bit_and 0xff y == y) x ones_table (omega (arith, h)) in
    ground (arith, e)

equal_upto-elim : (n : ℕ) (f g : Buffer) (i : ℕ) → equal_upto n f g ≡ true → i < n → f i ≡ g i
unfolding equal_upto
equal_upto-elim zero f g i h lt = absurd (omega arith)
equal_upto-elim (suc n) f g i h lt =
    ground (arith, equal_upto-elim n f g i, λ (e : i ≡ n). ap f e, λ (e : i ≡ n). ap g e)

equal_upto-intro : (n : ℕ) (f g : Buffer) → ((i : ℕ) → i < n → f i ≡ g i) → equal_upto n f g ≡ true
unfolding equal_upto
equal_upto-intro zero f g h = refl
equal_upto-intro (suc n) f g h =
    ground (arith, h n (omega arith), equal_upto-intro n f g (λ i lt. h i (omega (arith, lt))))

blank_upto-elim : (n : ℕ) (f : Buffer) (i : ℕ) → blank_upto n f ≡ true → i < n → f i ≡ 0xff
unfolding blank_upto
blank_upto-elim zero f i h lt = absurd (omega arith)
blank_upto-elim (suc n) f i h lt = ground (arith, blank_upto-elim n f i, λ (e : i ≡ n). ap f e)

module _ (N : Nand) (rom : List RomT) (fits : length rom * 8 ≤ rom_size) (d : N.Dev)
    (big : ram + page_siz ≤ N.size d) (narrow : N.size d < 2 ^ 32) (units : ram % N.erase_unit ≡ 0)
    (rest : (N.size d - ram) % N.erase_unit ≡ 0) where
  -- The device is ready to be written: on its ROM area the AND with the image is the image.
  abbrev Prepared : N.Dev → Type 0
  Prepared d₁ =
      (N.size d₁ ≡ N.size d)
      × ((a : ℕ) → a < rom_size → bit_and (N.contents d₁ a) (image rom a) ≡ image rom a)

  read_at :
      (e : N.Dev) (b : Buffer) (i : ℕ)
      → N.size e ≡ N.size d
      → i < rom_size
      → (N.read e 0 b rom_size).1 i ≡ N.contents e i
  read_at e b i same lt =
      let inside : ltb i rom_size ≡ true = ground arith in
      let at : 0 + i ≡ i = omega arith in
      let got = N.read_lem e 0 b rom_size i (omega (arith, big, same)) in rw (inside, at) at got

  repair_lem :
      (e : N.Dev) (verify : Buffer)
      → N.size e ≡ N.size d
      → ((a : ℕ) → a < rom_size → verify a ≡ N.contents e a)
      → ((f : N.Dev) → (N.erase f 0 rom_size).0 ≡ true)
      → (d₁ : N.Dev) × (repair N (image rom) verify e ≡ some d₁) × Prepared d₁
  unfolding repair
  repair_lem e verify size seen works = elim (Bool-cases (equal_upto rom_size verify (image rom))) [
    | inl same ↦ (
      e,
      rw same refl,
      (
        size,
        λ a lt.
            let c : N.contents e a ≡ image rom a =
              sym (seen a lt) ∙ equal_upto-elim rom_size verify (image rom) a same lt in
            rw c (bit_and-same (image rom a) (image-byte rom a)),
      ),
    )
    | inr other ↦ elim (Bool-cases (blank_upto rom_size verify)) [
      | inl white ↦ (
        e,
        rw (other, white) refl,
        (
          size,
          λ a lt.
              let c : N.contents e a ≡ 0xff =
                sym (seen a lt) ∙ blank_upto-elim rom_size verify a white lt in
              rw c (bit_and-ones (image rom a) (image-byte rom a)),
        ),
      )
      | inr old ↦ (
        (N.erase e 0 rom_size).1,
        rw (other, old, works e) refl,
        (
          N.erase_size e 0 rom_size ∙ size,
          λ a lt.
              let inside : (leb 0 a && ltb a (0 + rom_size)) ≡ true = ground arith in
              let none_before : 0 % N.erase_unit ≡ 0 = zero-mod N.erase_unit in
              let c : N.contents (N.erase e 0 rom_size).1 a ≡ 0xff =
                rw inside at
                  (N.erase_lem e 0 rom_size a none_before units (omega (arith, big, size))) in
              rw c (bit_and-ones (image rom a) (image-byte rom a)),
        ),
      )
    ]
  ]

  written :
      (e : N.Dev) (a : ℕ)
      → Prepared e
      → a < rom_size
      → N.contents (N.write e 0 (image rom) rom_size).1 a ≡ image rom a
  written e a p lt =
      let inside : (leb 0 a && ltb a (0 + rom_size)) ≡ true = ground arith in
      let back : a - 0 ≡ a = omega arith in
      (rw (inside, back) at
        (N.write_lem e 0 (image rom) rom_size a refl refl (omega (arith, big, p.0))))
      ∙ p.1 a lt

  -- What a started CPU has: its ROM on the flash, an erased calculation area, the first page, and registers
  -- that hold nothing yet.
  pub record Started (s : Cpu N) : Type 0 where
    pub flashed : Flashed N rom s
    pub clean : (a : ℕ) → ram ≤ a → a < N.size s.nand → N.contents s.nand a ≡ 0xff
    pub first_page : s.page_offset ≡ 0
    pub sized : s.nand_size ≡ N.size s.nand
    pub whole : N.size s.nand ≡ N.size d
    pub no_page : s.pre_offset ≡ 0
    pub no_result : (l : ℕ) → s.out l ≡ 0

  fresh-Started :
      (e : N.Dev) (mtd_data : Buffer)
      → N.size e ≡ N.size d
      → ((a : ℕ) → a < rom_size → N.contents e a ≡ image rom a)
      → Started (erase N (fresh N e mtd_data))
  unfolding erase fresh
  fresh-Started e mtd_data same bytes =
      let n = u32 (N.size e + 2 ^ 32 - ram) in
      let whole : ram + n ≡ N.size e = omega (arith, big, narrow, same) in
      let size = N.erase_size e ram n in
      let count : n ≡ N.size d - ram = omega (arith, big, narrow, same) in
      let units' : n % N.erase_unit ≡ 0 = ap (λ (k : ℕ). k % N.erase_unit) count ∙ rest in
      record {
        flashed = record {
          big = omega (arith, size, big, same);
          fits = omega (arith, fits);
          bytes = λ a lt.
              ground (arith, N.erase_lem e ram n a units units' (omega (arith, whole)), bytes a lt);
        };
        clean = λ a low high.
            ground (arith, N.erase_lem e ram n a units units' (omega (arith, whole)), size, whole);
        first_page = refl;
        sized = sym size;
        whole = size ∙ same;
        no_page = refl;
        no_result = λ l. refl;
      }

  -- On a device with room for the ROM and one page, of less than 4 GiB, whose ROM area can be
  -- erased, where the ROM area and the rest are whole erase units, and with a program that fits, the
  -- constructor never gives up, whatever the flash held before: the CPU starts with the program on
  -- the flash and a blank calculation area.
  pub boot-starts :
      (junk mtd_data : Buffer)
      → ((e : N.Dev) → (N.erase e 0 rom_size).0 ≡ true)
      → (s : Cpu N) × (boot N rom junk mtd_data d ≡ some s) × Started s
  unfolding boot
  boot-starts junk mtd_data works =
      let first = N.read d 0 junk rom_size in
      let seen = λ (a : ℕ) (lt : a < rom_size).
        read_at d junk a refl lt ∙ sym (N.read_contents d 0 junk rom_size a (omega (arith, big))) in
      let (d₁, made, p) = repair_lem first.2 first.1 (N.read_size d 0 junk rom_size) seen works in
      let d₂ = (N.write d₁ 0 (image rom) rom_size).1 in
      let same = N.write_size d₁ 0 (image rom) rom_size ∙ p.0 in
      let again = N.read d₂ 0 first.1 rom_size in
      let small : ltb rom_size (length rom * 8) ≡ false = ground (arith, fits) in
      let good : equal_upto rom_size again.1 (image rom) ≡ true =
        equal_upto-intro rom_size again.1 (image rom)
          λ i lt. read_at d₂ first.1 i same lt ∙ written d₁ i p lt in
      (
        erase N (fresh N again.2 mtd_data),
        rw (small, made, good) refl,
        fresh-Started again.2 mtd_data (N.read_size d₂ 0 first.1 rom_size ∙ same) (λ a lt.
            N.read_contents d₂ 0 first.1 rom_size a (omega (arith, big, same)) ∙ written d₁ a p lt),
      )
