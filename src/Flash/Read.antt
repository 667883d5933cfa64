-- ===== src/Flash/Read.antt =====
-- `read` of include/W25NSpiFlashDevice.hpp on chips that work.
use hsq_over_nand.Base.{
  ℕ, zero, suc, ◌+◌, ◌-◌, ◌*◌, ◌/◌, ◌%◌, ◌≤◌, ◌<◌, ◌≡◌, refl, ap, Bool, true, false, leb, ltb, ◌==◌,
  ◌&&◌, if◌then◌else◌, u32, Bool-cases, inl, inr, arith, ◌∙◌,
}
use hsq_over_nand.Nand.{Buffer}
use hsq_over_nand.Flash.{Chips, read_chunk, read_loop, read, chunk}
use hsq_over_nand.Flash.Address.{whole, whole-same, whole-page, phys_lt}
use hsq_over_nand.Flash.Contract.{Driver, Works, page_size, total_size}

-- A chunk is not empty, and ends at the end of the page or of the bytes.
pub chunk-IsChunk :
    (col length : ℕ)
    → col < page_size
    → (length == 0) ≡ false
    → (0 < chunk col length) × (col + chunk col length ≤ page_size) × (chunk col length ≤ length)
chunk-IsChunk col length h e = (ground arith, ground arith, ground arith)

-- The bytes of a chunk before the bytes of the rest.
pub splice :
    (at k length i z : ℕ) {x y w : ℕ}
    → k ≤ length
    → (at + k ≤ i → x ≡ w)
    → y ≡ (if leb at i && ltb i (at + k) then w else z)
    → (if leb (at + k) i && ltb i (at + k + (length - k)) then x else y)
      ≡ (if leb at i && ltb i (at + length) then w else z)
splice at k length i z h e e' = ground arith

module _ {C : Driver} (W : Works C) (n : ℕ) (pos : 0 < n) where
  -- A result of a read of `k` bytes from the address `offset` to the place `at` of the buffer `b`.
  abbrev pub Reads : Chips C n → ℕ → Buffer → ℕ → ℕ → (Bool × Buffer × Chips C n) → Type 0
  Reads ds offset b at k r =
      (r.0 ≡ true)
      × ((i : ℕ)
          → r.1 i ≡ (if leb at i && ltb i (at + k) then whole W n ds (offset + (i - at)) else b i))
      × ((a : ℕ) → whole W n r.2 a ≡ whole W n ds a)

  pub read_chunk_lem :
      (ds : Chips C n) (offset : ℕ) (b : Buffer) (at k : ℕ)
      → offset < total_size * n
      → offset % page_size + k ≤ page_size
      → Reads ds offset b at k (read_chunk C n ds offset b at k)
  unfolding read_chunk
  read_chunk_lem ds offset b at k h room =
      let c = offset / page_size % n in
      let p = W.page_read_lem (ds c) (offset / page_size / n) (phys_lt n offset pos h) in
      let d = (C.page_read (ds c) (offset / page_size / n)).1 in
      let q = W.read_buf_lem d (offset % page_size) (λ i. b (at + i)) k room in
      let t = C.read_buf d (offset % page_size) (λ i. b (at + i)) k in
      let same : (x : ℕ) → W.contents t.2 x ≡ W.contents (ds c) x = λ x. q.2 x ∙ p.2 x in
      let byte : (i : ℕ) → at ≤ i → i < at + k → t.1 (i - at) ≡ whole W n ds (offset + (i - at)) =
        λ i le lt.
          let room' : offset % page_size + (i - at) < page_size = omega arith in
          let e : ltb (i - at) k ≡ true = ground arith in
          q.1 (i - at)
          ∙ (rw e (
              p.1 (offset % page_size + (i - at)) room'
              ∙ whole-page W n ds offset (i - at) room')) in
      let out : (i : ℕ) → at ≤ i → at + k ≤ i → t.1 (i - at) ≡ b i = λ i le lt.
        let e : ltb (i - at) k ≡ false = ground arith in
        let e' : at + (i - at) ≡ i = omega arith in q.1 (i - at) ∙ (rw e (ap b e')) in
      (
        rw p.0 q.0,
        λ i. rw p.0 (ground (arith, byte i, out i)),
        λ a. rw p.0 (whole-same W n ds c t.2 same a),
      )

  pub read_loop_lem :
      (f : ℕ) (ds : Chips C n) (offset : ℕ) (b : Buffer) (at length : ℕ)
      → n < 16
      → length ≤ f
      → offset + length ≤ total_size * n
      → Reads ds offset b at length (read_loop C n f ds offset b at length)
  unfolding read_loop
  read_loop_lem zero ds offset b at length few h room =
      let e : length ≡ 0 = omega arith in (rw e refl, λ i. rw e (ground arith), λ a. refl)
  read_loop_lem (suc f) ds offset b at length few h room = elim (Bool-cases (length == 0)) [
    | inl e ↦
        let e' : length ≡ 0 = ground arith in
        (rw e refl, λ i. rw (e, e') (ground arith), λ a. rw e refl)
    | inr e ↦
        let k = chunk (offset % page_size) length in
        let c = chunk-IsChunk (offset % page_size) length (omega arith) e in
        let r = read_chunk C n ds offset b at k in
        let p = read_chunk_lem ds offset b at k (omega arith) c.1 in
        let w : u32 (offset + k) ≡ offset + k = omega arith in
        let q =
          read_loop_lem f r.2 (offset + k) r.1 (at + k) (length - k) few (omega arith)
            (omega arith) in
        let later : (i : ℕ)
            → at + k ≤ i
            → whole W n r.2 (offset + k + (i - (at + k))) ≡ whole W n ds (offset + (i - at)) =
          λ i le. p.2 (offset + k + (i - (at + k))) ∙ ap (whole W n ds) (omega arith) in
        (
          rw (e, p.0, w) q.0,
          λ i. rw (e, p.0, w) (q.1 i ∙ splice at k length i (b i) c.2 (later i) (p.1 i)),
          λ a. rw (e, p.0, w) (q.2 a ∙ p.2 a),
        )
  ]

  -- On one to fifteen chips that work, a read inside the device succeeds, fills the first bytes
  -- of the buffer with what the chips hold from the address on, leaves the other bytes of the
  -- buffer, and changes no cell.
  pub read-reads :
      (ds : Chips C n) (offset : ℕ) (b : Buffer) (length : ℕ)
      → n < 16
      → offset + length ≤ total_size * n
      → let r = read C n ds offset b length in
        (r.0 ≡ true)
        × ((i : ℕ) → r.1 i ≡ (if ltb i length then whole W n ds (offset + i) else b i))
        × ((a : ℕ) → whole W n r.2 a ≡ whole W n ds a)
  unfolding read
  read-reads ds offset b length few room =
      let q = read_loop_lem length ds offset b 0 length few (omega arith) room in
      let start : (i : ℕ) → (leb 0 i && ltb i (0 + length)) ≡ ltb i length = λ i. ground arith in
      let place : (i : ℕ) → offset + (i - 0) ≡ offset + i = λ i. omega arith in
      (q.0, λ i. (rw (start i, place i) at (q.1 i)), q.2)
