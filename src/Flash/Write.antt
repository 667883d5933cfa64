-- ===== src/Flash/Write.antt =====
-- `write` of include/W25NSpiFlashDevice.hpp on chips that work.
use hsq_over_nand.Base.{
  ℕ, zero, suc, ◌+◌, ◌-◌, ◌*◌, ◌/◌, ◌%◌, ◌≤◌, ◌<◌, ◌≡◌, refl, ap, true, false, leb, ltb, ◌==◌, ◌&&◌,
  if◌then◌else◌, u32, Bool-cases, inl, inr, arith, sym, ◌∙◌, bit_and,
}
use native.Mathlib.Nat.{mod-lt}
use hsq_over_nand.Nand.{Buffer}
use hsq_over_nand.Flash.{Chips, Issued, wait_chip, write_chunk, write_loop, wait_all, write, chunk}
use hsq_over_nand.Flash.Address.{whole, within, ==-true}
use hsq_over_nand.Flash.Read.{chunk-IsChunk}
use hsq_over_nand.Flash.Wait.{Waits, wait_chip-Waited, settled, settled-idle}
use hsq_over_nand.Flash.Chunk.{Wrote, write_chunk_lem}
use hsq_over_nand.Flash.Contract.{Driver, Works, page_size, total_size}

-- The bytes of a chunk before the bytes of the rest.
pub join :
    (offset k length a x : ℕ) {y z u : ℕ}
    → k ≤ length
    → (offset + k ≤ a → y ≡ z)
    → u ≡ (if leb offset a && ltb a (offset + k) then bit_and x z else x)
    → (if leb (offset + k) a && ltb a (offset + k + (length - k)) then bit_and u y else u)
      ≡ (if leb offset a && ltb a (offset + length) then bit_and x z else x)
join offset k length a x h e e' = ground arith

module _ {C : Driver} (W : Works C) (n : ℕ) (pos : 0 < n) where
  pub write_loop_lem :
      (f : ℕ) (s : Issued C n) (offset : ℕ) (b : Buffer) (at length : ℕ)
      → Waits C n s
      → n < 16
      → length ≤ f
      → offset + length ≤ total_size * n
      → Wrote W n pos s offset b at length (write_loop C n f s offset b at length)
  unfolding write_loop
  write_loop_lem zero s offset b at length h few le room =
      let e : length ≡ 0 = omega arith in
      rw e (record { ok = refl; waits = h; bytes = λ a. ground arith })
  write_loop_lem (suc f) s offset b at length h few le room = elim (Bool-cases (length == 0)) [
    | inl e ↦
        let e' : length ≡ 0 = ground arith in
        rw e' (record { ok = refl; waits = h; bytes = λ a. ground arith })
    | inr e ↦
        let k = chunk (offset % page_size) length in
        let c = chunk-IsChunk (offset % page_size) length (omega arith) e in
        let r = write_chunk C n s offset b at k in
        let p = write_chunk_lem W n pos s offset b at k h (omega arith) c.1 in
        let w : u32 (offset + k) ≡ offset + k = omega arith in
        let q =
          write_loop_lem f r.1 (offset + k) b (at + k) (length - k) p.waits few (omega arith)
            (omega arith) in
        let place : (a : ℕ)
            → offset + k ≤ a
            → b (at + k + (a - (offset + k))) ≡ b (at + (a - offset)) =
          λ a g. ap b (omega arith) in
        rw (e, p.ok, w)
          (record {
            ok = q.ok;
            waits = q.waits;
            bytes = λ a.
                q.bytes a
                ∙ join offset k length a (whole W n (settled C n s) a) c.2 (place a) (p.bytes a);
          })
  ]

  -- The wait for the chips from `i` on.
  wait_all_lem :
      (m i : ℕ) (s : Issued C n)
      → Waits C n s
      → let r = wait_all C n m i true s in
        (r.0 ≡ true)
        × ((j : ℕ) → settled C n r.1 j ≡ settled C n s j)
        × ((j : ℕ) → j < i + m → (j < i → s.pending j ≡ false) → r.1.pending j ≡ false)
  unfolding wait_all
  wait_all_lem zero i s h = (refl, λ j. refl, λ j lt e. e (omega arith))
  wait_all_lem (suc m) i s h =
      let v = wait_chip-Waited C n i s h in
      let w = (wait_chip C n i s).1 in
      let q = wait_all_lem m (i + 1) w v.waits in
      let before : (j : ℕ) → (j < i → s.pending j ≡ false) → j < i + 1 → w.pending j ≡ false =
        λ j e le. elim (Bool-cases (i == j)) [
          | inl g ↦ ap w.pending (sym (==-true i j g)) ∙ v.idle
          | inr g ↦ v.still j (e (ground arith))
        ] in
      (
        rw (wait_all, v.ok) q.0,
        λ j. rw (wait_all, v.ok) (q.1 j ∙ v.same j),
        λ j lt e. rw (wait_all, v.ok) (q.2 j (omega arith) (λ le. before j e le)),
      )

  -- On one to fifteen chips that work, a write inside the device succeeds, and ANDs the bytes of
  -- the buffer into what the chips hold from the address on: no program is left without a wait.
  pub write-writes :
      (ds : Chips C n) (offset : ℕ) (b : Buffer) (length : ℕ)
      → n < 16
      → offset + length ≤ total_size * n
      → ((write C n ds offset b length).0 ≡ true)
        × ((a : ℕ)
            → whole W n (write C n ds offset b length).1 a ≡ (
                if leb offset a && ltb a (offset + length)
                then bit_and (whole W n ds a) (b (a - offset))
                else whole W n ds a))
  unfolding write settled
  write-writes ds offset b length few room =
      let s : Issued C n = record { devs = ds; pending = λ i. false } in
      let q =
        write_loop_lem length s offset b 0 length (λ i e. absurd (ground arith)) few (omega arith)
          room in
      let l = (write_loop C n length s offset b 0 length).1 in
      let v = wait_all_lem n 0 l q.waits in
      let r = (wait_all C n n 0 true l).1 in
      let done : (a : ℕ) → whole W n r.devs a ≡ whole W n (settled C n l) a = λ a.
        let i = a / page_size % n in
        ap (λ d. W.contents d (within n a))
          (sym (
              settled-idle C n r i
                (v.2 i (omega (arith, mod-lt (a / page_size) pos)) (λ lt. absurd (omega arith))))
            ∙ v.1 i) in
      let start : (a : ℕ) → 0 + (a - offset) ≡ a - offset = λ a. omega arith in
      (
        rw q.ok v.0,
        λ a.
            rw (write, q.ok)
              (done a
                ∙ q.bytes a
                ∙ ap
                    (λ i.
                      if leb offset a && ltb a (offset + length)
                      then bit_and (whole W n ds a) (b i)
                      else whole W n ds a)
                    (start a)),
      )
