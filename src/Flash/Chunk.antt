-- ===== src/Flash/Chunk.antt =====
-- One turn of the loop of `write` of include/W25NSpiFlashDevice.hpp on chips that work.
use hsq_over_nand.Base.{
  ℕ, ◌+◌, ◌-◌, ◌*◌, ◌/◌, ◌%◌, ◌^◌, ◌≤◌, ◌<◌, ◌≡◌, refl, ap, Bool, true, false, leb, ltb, ◌==◌, ◌&&◌,
  if◌then◌else◌, Bool-cases, inl, inr, arith, sym, ◌∙◌, bit_and, all_below, all_below_lem,
}
use hsq_over_nand.Nand.{Buffer}
use hsq_over_nand.Cpu.{update}
use hsq_over_nand.Flash.{Issued, wait_chip, write_chunk}
use hsq_over_nand.Flash.Address.{
  whole, within, phys_lt, whole-update, within-page, within-col, page-inj, ==-true,
}
use hsq_over_nand.Flash.Wait.{
  Waits, wait_chip-Waited, settled, settled-issued, settled-idle, issued, issued-Waits,
}
use hsq_over_nand.Flash.Contract.{Driver, Works, page_size, total_size}

ones_table : all_below 256 (λ y. bit_and y 0xff == y) ≡ true
unfolding all_below
ones_table = refl

-- A byte that the mask 0xff leaves.
pub bit_and-ones : (x : ℕ) → x < 2 ^ 8 → bit_and x 0xff ≡ x
bit_and-ones x h =
    ==-true (bit_and x 0xff) x (all_below_lem 256 (λ y. bit_and y 0xff == y) x ones_table h)

-- A byte that the data buffer holds where the chunk is, and 0xff elsewhere.
pub mask :
    {t : Bool} {x y z : ℕ}
    → x < 2 ^ 8
    → (t ≡ true → y ≡ z)
    → bit_and x (if t then y else 0xff) ≡ (if t then bit_and x z else x)
mask {t = true} {x = x} h e = ap (bit_and x) (e refl)
mask {t = false} {x = x} h e = bit_and-ones x h

-- Numbers with different images.
pub apart : (f : ℕ → ℕ) (p q : ℕ) → (f p == f q) ≡ false → (p == q) ≡ false
apart f p q e = elim (Bool-cases (p == q)) [
  | inl g ↦ let h : f p ≡ f q = ap f (==-true p q g) in absurd (ground arith)
  | inr g ↦ g
]

-- Whether a byte is one of a chunk, by its place on its page.
pub in_chunk :
    (offset a k : ℕ)
    → offset / page_size ≡ a / page_size
    → (leb (offset % page_size) (a % page_size) && ltb (a % page_size) (offset % page_size + k))
      ≡ (leb offset a && ltb a (offset + k))
in_chunk offset a k h = ground arith

-- A byte of another page is none of a chunk that ends on its page.
pub out_chunk :
    (offset a k : ℕ)
    → offset % page_size + k ≤ page_size
    → ((offset / page_size) == (a / page_size)) ≡ false
    → (leb offset a && ltb a (offset + k)) ≡ false
out_chunk offset a k h e = ground arith

module _ {C : Driver} (W : Works C) (n : ℕ) (pos : 0 < n) where
  -- A result of a write of `k` bytes of the buffer from the place `at` on to the address `offset`.
  pub record Wrote (s : Issued C n) (offset : ℕ) (b : Buffer) (at k : ℕ) (r : Bool × Issued C n)
      : Type 0 where
    pub ok : r.0 ≡ true
    pub waits : Waits C n r.1
    pub bytes :
        (a : ℕ)
        → whole W n (settled C n r.1) a ≡ (
            if leb offset a && ltb a (offset + k)
            then bit_and (whole W n (settled C n s) a) (b (at + (a - offset)))
            else whole W n (settled C n s) a)

  -- What a program leaves of a byte of its chip.
  pub program_byte :
      (d : C.Dev) (offset : ℕ) (b : Buffer) (at k a : ℕ)
      → offset < total_size * n
      → offset % page_size + k ≤ page_size
      → offset / page_size % n ≡ a / page_size % n
      → let l = (C.program_load d (offset % page_size) (λ i. b (at + i)) k).1 in
        let p = (C.program_issue l (offset / page_size / n)).1 in
        W.contents (C.program_wait p).1 (within n a) ≡ (
          if leb offset a && ltb a (offset + k)
          then bit_and (W.contents d (within n a)) (b (at + (a - offset)))
          else W.contents d (within n a))
  program_byte d offset b at k a h room e =
      let col = offset % page_size in
      let phys = offset / page_size / n in
      let x = within n a in
      let load = W.program_load_lem d col (λ i. b (at + i)) k room in
      let l = (C.program_load d col (λ i. b (at + i)) k).1 in
      let prog = (W.program_lem l phys (phys_lt n offset pos h)).2 x in
      let page : x / page_size ≡ a / page_size / n = within-page n a in
      elim (Bool-cases ((x / page_size) == phys)) [
        | inl g ↦
            let same : offset / page_size ≡ a / page_size =
              page-inj n (offset / page_size) (a / page_size) e
                (sym (sym page ∙ ==-true (x / page_size) phys g)) in
            let place : x - phys * page_size ≡ a % page_size = rw same (within-col n a) in
            let cache = load.1 (a % page_size) (omega arith) in
            prog
            ∙ rw (g, load.2 x, place, cache, in_chunk offset a k same)
                (mask (W.contents_byte d x) (λ le. ap b (omega arith)))
        | inr g ↦
            let other : ((offset / page_size) == (a / page_size)) ≡ false =
              apart (λ p. p / n) (offset / page_size) (a / page_size) (ground arith) in
            prog ∙ rw (g, out_chunk offset a k room other) (load.2 x)
      ]

  -- What the chips hold after a program that is issued to an idle chip.
  issued_bytes :
      (s w : Issued C n) (offset : ℕ) (b : Buffer) (at k a : ℕ)
      → offset < total_size * n
      → offset % page_size + k ≤ page_size
      → w.pending (offset / page_size % n) ≡ false
      → ((i : ℕ) → settled C n w i ≡ settled C n s i)
      → let c = offset / page_size % n in
        let l = (C.program_load (w.devs c) (offset % page_size) (λ i. b (at + i)) k).1 in
        let p = (C.program_issue l (offset / page_size / n)).1 in
        whole W n (settled C n (issued C n w c p)) a ≡ (
          if leb offset a && ltb a (offset + k)
          then bit_and (whole W n (settled C n s) a) (b (at + (a - offset)))
          else whole W n (settled C n s) a)
  issued_bytes s w offset b at k a lt room idle same =
      let c = offset / page_size % n in
      let i = a / page_size % n in
      let l = (C.program_load (w.devs c) (offset % page_size) (λ i. b (at + i)) k).1 in
      let p = (C.program_issue l (offset / page_size / n)).1 in
      let v = (C.program_wait p).1 in
      let x = within n a in
      let first : whole W n (settled C n (issued C n w c p)) a
          ≡ whole W n (update (settled C n w) c v) a =
        ap (λ d. W.contents d x) (settled-issued C n w c p i) in
      let old : whole W n (settled C n w) a ≡ whole W n (settled C n s) a =
        ap (λ d. W.contents d x) (same i) in
      first ∙ whole-update W n (settled C n w) c v a ∙ elim (Bool-cases (c == i)) [
        | inl g ↦
            let e : c ≡ i = ==-true c i g in
            let now : w.devs c ≡ settled C n s i =
              sym (settled-idle C n w c idle) ∙ ap (settled C n w) e ∙ same i in
            rw g (program_byte (w.devs c) offset b at k a lt room e ∙ (rw now refl))
        | inr g ↦
            let other : ((offset / page_size) == (a / page_size)) ≡ false =
              apart (λ p. p % n) (offset / page_size) (a / page_size) g in
            rw (g, out_chunk offset a k room other) old
      ]

  pub write_chunk_lem :
      (s : Issued C n) (offset : ℕ) (b : Buffer) (at k : ℕ)
      → Waits C n s
      → offset < total_size * n
      → offset % page_size + k ≤ page_size
      → Wrote s offset b at k (write_chunk C n s offset b at k)
  unfolding write_chunk
  write_chunk_lem s offset b at k h lt room =
      let c = offset / page_size % n in
      let v = wait_chip-Waited C n c s h in
      let w = (wait_chip C n c s).1 in
      let d = w.devs c in
      let load = W.program_load_lem d (offset % page_size) (λ i. b (at + i)) k room in
      let l = (C.program_load d (offset % page_size) (λ i. b (at + i)) k).1 in
      let prog = W.program_lem l (offset / page_size / n) (phys_lt n offset pos lt) in
      let p = (C.program_issue l (offset / page_size / n)).1 in
      let next : write_chunk C n s offset b at k ≡ (true, issued C n w c p) =
        rw (v.ok, load.0, prog.0) refl in
      rw next (record {
        ok = refl;
        waits = issued-Waits C n w c p v.waits prog.1;
        bytes = λ a. issued_bytes s w offset b at k a lt room v.idle v.same;
      })
