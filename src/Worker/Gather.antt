-- ===== src/Worker/Gather.antt =====
-- The requests of one round of `process_requests` (src/server/server.cpp): the wait for others ends, and a
-- round never has more requests than lanes.
use hsq_over_nand.Base.{
  ℕ, zero, suc, ◌+◌, ◌-◌, ◌*◌, ◌/◌, ◌≤◌, ◌<◌, ◌≡◌, refl, ap, some, [], ◌∷◌, length, length-append,
  ltb, ◌==◌, ◌&&◌, Bool-cases, inl, inr, arith,
}
use hsq_over_nand.Rom.{lanes}
use hsq_over_nand.Worker.{
  Received, Sock, Batch, add, take_in, is_packet, fill, wait_more, gather, batch_wait_us,
}

-- Every system call takes time.
pub record Ticks (S : Sock) : Type 0 where
  pub receive_now : (w : S.World) → S.now w < S.now (S.receive w).1
  pub select_now : (us : ℕ) (w : S.World) → S.now w < S.now (S.select us w).1

module _ (S : Sock) (T : Ticks S) where
  take_in-world : (r : Received) (w : S.World) (s : Batch S) → (take_in S r w s).world ≡ w
  unfolding take_in add
  take_in-world (Received.packet p) w s = refl
  take_in-world Received.empty w s = refl
  take_in-world Received.broken w s = refl

  take_in-length :
      (r : Received) (w : S.World) (s : Batch S)
      → length (take_in S r w s).pending ≤ length s.pending + 1
  unfolding take_in add
  take_in-length (Received.packet p) w s = omega (arith, length-append s.pending (p ∷ []))
  take_in-length Received.empty w s = omega arith
  take_in-length Received.broken w s = omega arith

  wait_more-ends :
      (f num_cpus deadline : ℕ) (s : Batch S)
      → 0 < f
      → length s.pending ≤ lanes
      → deadline < S.now s.world + f
      → (t : Batch S) × (wait_more S f num_cpus deadline s ≡ some t) × (length t.pending ≤ lanes)
  unfolding wait_more
  wait_more-ends zero num_cpus deadline s p h late = absurd (omega arith)
  wait_more-ends (suc f) num_cpus deadline s p h late =
      let remain = (deadline - S.now s.world) / 1000 in
      let t = S.select remain s.world in
      let r = S.receive t.1 in
      let s' = take_in S r.0 r.1 s in
      elim (Bool-cases (ltb (length s.pending) lanes && ltb num_cpus s.active)) [
        | inr g ↦ (s, (rw g refl), h)
        | inl g ↦ elim (Bool-cases (remain == 0)) [
          | inl k ↦ (s, (rw (g, k) refl), h)
          | inr k ↦ elim (Bool-cases t.0) [
            | inr l ↦ (record s { world = t.1 }, (rw (g, k, l) refl), h)
            | inl l ↦
                let some_time : 0 < remain = ground arith in
                let far : S.now s.world + 1000 ≤ deadline = omega arith in
                let moved : S.now s'.world ≡ S.now r.1 = ap S.now (take_in-world r.0 r.1 s) in
                let room : length s.pending < lanes = ground arith in
                let next =
                  wait_more-ends f num_cpus deadline s' (omega arith)
                    (omega (arith, take_in-length r.0 r.1 s))
                    (omega (arith, T.select_now remain s.world, T.receive_now t.1)) in
                (next.0, (rw (g, k, l) next.1), next.2)
          ]
        ]
      ]

  fill-length : (m : ℕ) (s : Batch S) → length (fill S m s).pending ≤ length s.pending + m
  unfolding fill
  fill-length zero s = omega arith
  fill-length (suc m) s =
      let r = S.receive s.world in
      let s' = take_in S r.0 r.1 s in
      elim (Bool-cases (is_packet S r.0)) [
        | inl g ↦ rw g (omega (arith, take_in-length r.0 r.1 s, fill-length m s'))
        | inr g ↦ rw g (omega (arith, take_in-length r.0 r.1 s))
      ]

  -- When system calls take time, the gathering of the requests of a round ends, and after the first
  -- request there are never more of them than lanes.
  pub gather-ends :
      (num_cpus : ℕ) (s : Batch S)
      → length s.pending ≤ 1
      → (t : Batch S) × (gather S num_cpus s ≡ some t) × (length t.pending ≤ lanes)
  unfolding gather
  gather-ends num_cpus s h =
      let t = fill S (lanes - 1) s in
      wait_more-ends (batch_wait_us * 1000 + 1) num_cpus (S.now t.world + batch_wait_us * 1000) t
        (omega arith) (omega (arith, fill-length (lanes - 1) s)) (omega arith)
