-- ===== src/Flash/Erase.antt =====
-- `erase` of include/W25NSpiFlashDevice.hpp on chips that work: a group is a block of every chip.
use hsq_over_nand.Base.{
  ℕ, zero, suc, ◌+◌, ◌*◌, ◌/◌, ◌%◌, ◌≤◌, ◌<◌, ◌≡◌, refl, ap, true, false, leb, ltb, ◌==◌, ◌&&◌,
  if◌then◌else◌, u32, arith, ◌∙◌, not, ◌||◌,
}
use native.Mathlib.Nat.{
  div-le_self, le_of_mul-le-mul_right, mod-lt, div-add-mod', div-lt_iff_lt-mul, mul-le-mul_right,
  le-div_iff_mul-le, div-div-eq-div-mul, mul-div_left,
}
use hsq_over_nand.Cpu.{update}
use hsq_over_nand.Flash.{Chips, erase_chips, erase_loop, erase, group_size}
use hsq_over_nand.Flash.Address.{whole, within, update-ap, ==-true}
use hsq_over_nand.Flash.Contract.{
  Driver, Works, page_size, block_pages, block_size, num_blocks, num_pages, total_size,
}

-- The bytes of a group.
abbrev pub group : ℕ → ℕ
group n = block_size * n

pub group_page : (n q : ℕ) → 0 < n → q * group n / page_size / n ≡ q * block_pages
group_page n q pos =
    let e : q * group n / page_size ≡ q * block_pages * n = omega arith in
    ap (λ p. p / n) e ∙ mul-div_left (q * block_pages) pos

-- A number is `q` when it is at least `q` and less than the next.
pub interval :
    (x q l a u : ℕ)
    → (q ≤ x → l ≤ a)
    → (l ≤ a → q ≤ x)
    → (x < q + 1 → a < u)
    → (a < u → x < q + 1)
    → (x == q) ≡ (leb l a && ltb a u)
interval x q l a u f f' g g' = ground arith

-- The block of a byte on its chip is the group of its address.
pub within-group :
    (n q a : ℕ)
    → 0 < n
    → ((within n a / block_size) == q) ≡ (leb (q * group n) a && ltb a ((q + 1) * group n))
within-group n q a pos =
    let t = a / page_size / n in
    let e' : within n a / block_size ≡ t / block_pages = omega arith in
    let e : within n a / block_size ≡ a / page_size / (n * block_pages) =
      e' ∙ div-div-eq-div-mul (a / page_size) n block_pages in
    let p : 0 < n * block_pages = omega arith in
    let l = le-div_iff_mul-le {k = n * block_pages} {x = q} {y = a / page_size} p in
    let u = div-lt_iff_lt-mul {k = n * block_pages} {x = a / page_size} {y = q + 1} p in
    let low : q ≤ a / page_size / (n * block_pages) → q * group n ≤ a = λ h. omega (arith, l.0 h) in
    let low' : q * group n ≤ a → q ≤ a / page_size / (n * block_pages) = λ h. l.1 (omega arith) in
    let high : a / page_size / (n * block_pages) < q + 1 → a < (q + 1) * group n =
      λ h. omega (arith, u.0 h) in
    let high' : a < (q + 1) * group n → a / page_size / (n * block_pages) < q + 1 =
      λ h. u.1 (omega arith) in
    rw e (interval _ _ _ _ _ low low' high high')

-- The bytes of a group before those of the groups that follow.
pub follow :
    (l m u a y z : ℕ)
    → l ≤ m
    → m ≤ u
    → y ≡ (if leb l a && ltb a m then 0xff else z)
    → (if leb m a && ltb a u then 0xff else y) ≡ (if leb l a && ltb a u then 0xff else z)
follow l m u a y z h h' e = ground arith

module _ {C : Driver} (W : Works C) (n : ℕ) where
  pub erase_chips_lem :
      (m i page : ℕ) (ds : Chips C n)
      → page < num_pages
      → let r = erase_chips C n m i page ds in
        (r.0 ≡ true)
        × ((j x : ℕ)
            → W.contents (r.1 j) x ≡ (
                if (leb i j && ltb j (i + m)) && ((x / block_size) == (page / block_pages))
                then 0xff
                else W.contents (ds j) x))
  unfolding erase_chips
  erase_chips_lem zero i page ds h = (refl, λ j x. ground arith)
  erase_chips_lem (suc m) i page ds h =
      let b = W.block_erase_lem (ds i) page h in
      let ds' = update ds i (C.block_erase (ds i) page).1 in
      let q = erase_chips_lem m (i + 1) page ds' h in
      let here : (j x : ℕ) → (i == j) ≡ true → W.contents (ds i) x ≡ W.contents (ds j) x =
        λ j x e. ap (λ c. W.contents (ds c) x) (==-true i j e) in
      let step : (j x : ℕ)
          → (if (leb (i + 1) j && ltb j (i + 1 + m)) && ((x / block_size) == (page / block_pages))
              then 0xff
              else W.contents (ds' j) x)
            ≡ (if (leb i j && ltb j (i + suc m)) && ((x / block_size) == (page / block_pages))
                then 0xff
                else W.contents (ds j) x) =
        λ j x. ground (
          arith,
          update-ap (λ d. W.contents d x) ds i (C.block_erase (ds i) page).1 j,
          b.1 x,
          here j x,
        ) in
      (rw b.0 q.0, λ j x. rw b.0 (q.1 j x ∙ step j x))

  module _ (pos : 0 < n) (few : n < 16) where
    -- The byte of an address is erased when its group is.
    pub erase_group :
        (q : ℕ) (ds : Chips C n)
        → q < num_blocks
        → let r = erase_chips C n n 0 (q * group n / page_size / n) ds in
          (r.0 ≡ true)
          × ((a : ℕ)
              → whole W n r.1 a ≡ (
                  if leb (q * group n) a && ltb a ((q + 1) * group n)
                  then 0xff
                  else whole W n ds a))
    erase_group q ds h =
        let page : q * group n / page_size / n ≡ q * block_pages = group_page n q pos in
        let e = erase_chips_lem n 0 (q * block_pages) ds (omega arith) in
        let block : q * block_pages / block_pages ≡ q = omega arith in
        let inside : (a : ℕ)
            → (leb 0 (a / page_size % n) && ltb (a / page_size % n) (0 + n)) ≡ true =
          λ a. ground (arith, mod-lt (a / page_size) pos) in
        rw page (
          e.0,
          λ a.
              e.1 (a / page_size % n) (within n a)
              ∙ (rw (inside a, block, within-group n q a pos) refl),
        )

    pub erase_loop_lem :
        (f q count : ℕ) (ds : Chips C n)
        → count ≤ f
        → q + count ≤ num_blocks
        → let r = erase_loop C n f (q * group n) ((q + count) * group n) ds in
          (r.0 ≡ true)
          × ((a : ℕ)
              → whole W n r.1 a ≡ (
                  if leb (q * group n) a && ltb a ((q + count) * group n)
                  then 0xff
                  else whole W n ds a))
    unfolding erase_loop
    erase_loop_lem zero q zero ds le h = (ground arith, λ a. ground arith)
    erase_loop_lem (suc f) q zero ds le h =
        let e : leb ((q + 0) * group n) (q * group n) ≡ true = ground arith in
        (rw e refl, λ a. rw e (ground arith))
    erase_loop_lem zero q (suc count) ds le h = absurd (omega arith)
    erase_loop_lem (suc f) q (suc count) ds le h =
        let g = erase_group q ds (omega arith) in
        let ds' = (erase_chips C n n 0 (q * group n / page_size / n) ds).1 in
        let more : leb ((q + suc count) * group n) (q * group n) ≡ false = ground arith in
        let bound : (q + 1) * n ≤ num_blocks * n = mul-le-mul_right n (omega arith) in
        let next : u32 (q * group n + group_size C n) ≡ (q + 1) * group n = omega arith in
        let stop : (q + suc count) * group n ≡ (q + 1 + count) * group n = omega arith in
        let l = erase_loop_lem f (q + 1) count ds' (omega arith) (omega arith) in
        (
          rw (more, g.0, next, stop) l.0,
          λ a.
              rw (more, g.0, next, stop)
                (l.1 a
                  ∙ follow (q * group n) ((q + 1) * group n) ((q + 1 + count) * group n) a
                      (whole W n ds' a) (whole W n ds a) (omega arith) (omega arith) (g.1 a)),
        )

    erase_loop_from :
        (f off stop q count : ℕ) (ds : Chips C n)
        → off ≡ q * group n
        → stop ≡ (q + count) * group n
        → count ≤ f
        → q + count ≤ num_blocks
        → let r = erase_loop C n f off stop ds in
          (r.0 ≡ true)
          × ((a : ℕ) → whole W n r.1 a ≡ (if leb off a && ltb a stop then 0xff else whole W n ds a))
    erase_loop_from f off stop q count ds e e' le h = rw (e, e') (erase_loop_lem f q count ds le h)

    -- Aligned to groups and inside the device.
    pub erase-erases :
        (ds : Chips C n) (offset length : ℕ)
        → offset % group n ≡ 0
        → length % group n ≡ 0
        → offset + length ≤ total_size * n
        → ((erase C n ds offset length).0 ≡ true)
          × ((a : ℕ)
              → whole W n (erase C n ds offset length).1 a
                ≡ (if leb offset a && ltb a (offset + length) then 0xff else whole W n ds a))
    unfolding erase
    erase-erases ds offset length h h' room =
        let g : group_size C n ≡ group n = omega arith in
        let q = offset / group n in
        let count = length / group n in
        let e : offset ≡ q * group n = omega (arith, div-add-mod' offset (group n)) in
        let e' : length ≡ count * group n = omega (arith, div-add-mod' length (group n)) in
        let fuel : count ≤ length = div-le_self length (group n) in
        let fits : q + count ≤ num_blocks = le_of_mul-le-mul_right {k = n} (omega arith) pos in
        let w : u32 (offset + length) ≡ offset + length = omega arith in
        let test : (not (offset % group_size C n == 0) || not (length % group_size C n == 0))
            ≡ false =
          rw (g, h, h') refl in
        let l =
          erase_loop_from length offset (offset + length) q count ds e (omega arith) fuel fits in
        (rw (test, w) l.0, λ a. rw (test, w) (l.1 a))
