-- ===== src/Client/Retry.antt =====
-- How often `flashClient` of include/client.hpp sends, and that it returns.
use hsq_over_nand.Base.{
  ℕ, zero, suc, ◌+◌, ◌*◌, ◌/◌, ◌%◌, ◌≤◌, ◌<◌, ◌≡◌, ◌≢◌, ◌∙◌, refl, Bool, true, false, Option, none,
  some, inl, inr, Bool-cases, arith,
}
use hsq_over_nand.Client.{
  Request, Response, Receipt, Net, connect, answered, attempts, finish, drain, flash_client,
}

-- A socket that counts what was sent, and keeps what has arrived in a queue. `select` with a time of
-- zero sees an empty queue, and a packet that is read leaves it. With a timeout, which `setsockopt` sets
-- when it succeeds and the time is not zero, `recvfrom` returns.
pub record Queue (N : Net) : Type 0 where
  pub sent : N.World → ℕ
  pub queued : N.World → ℕ
  pub send_sent : (req : Request) (w : N.World) → sent (N.sendto req w).1 ≡ sent w + 1
  pub receive_sent : (w : N.World) → sent (N.recvfrom w).1 ≡ sent w
  pub close_sent : (w : N.World) → sent (N.close w) ≡ sent w
  pub timed : N.World → Bool
  pub set_timed :
      (s us : ℕ) (w : N.World)
      → (N.set_timeout s us w).0 ≡ true
      → 0 < s + us
      → timed (N.set_timeout s us w).1 ≡ true
  pub send_timed : (req : Request) (w : N.World) → timed (N.sendto req w).1 ≡ timed w
  pub receive_timed : (w : N.World) → timed (N.recvfrom w).1 ≡ timed w
  pub receive_returns : (w : N.World) → timed w ≡ true → (N.recvfrom w).0 ≢ Receipt.blocked
  pub select_empty : (w : N.World) → queued w ≡ 0 → (N.readable w).0 ≡ false
  pub select_queued : (w : N.World) → queued (N.readable w).1 ≡ queued w
  pub read_queued : (w : N.World) → 0 < queued w → queued (N.recv_now w).1 < queued w

module _ (N : Net) (Q : Queue N) (req : Request) where
  -- How many packets `n` attempts send: no more than `n`, and all of them when none is answered.
  abbrev pub Sends : ℕ → N.World → Receipt × N.World → Type 0
  Sends n w r = (Q.sent r.1 ≤ Q.sent w + n) × (r.0 ≡ Receipt.nothing → Q.sent r.1 ≡ Q.sent w + n)

  answered-Sends :
      (n : ℕ) (w v : N.World) (o : Receipt) (other : Receipt × N.World)
      → Q.sent v ≤ Q.sent w + n
      → Sends n w other
      → Sends n w (answered N o v other)
  unfolding answered
  answered-Sends n w v Receipt.nothing other h g = g
  answered-Sends n w v (Receipt.answer resp) other h g = (h, λ e. cc)
  answered-Sends n w v Receipt.blocked other h g = (h, λ e. cc)

  -- The attempts of `flashClient` send its request at most once more than it may retry, and give
  -- up only when they have sent it that often.
  pub attempts-Sends : (left : ℕ) (w : N.World) → Sends (left + 1) w (attempts N left req w)
  unfolding attempts
  attempts-Sends zero w =
      let s = N.sendto req w in
      let v = (N.recvfrom s.1).1 in
      let e = Q.send_sent req w in
      let f = Q.receive_sent s.1 in
      let c = Q.close_sent v in
      let c' = Q.close_sent s.1 in
      elim (Bool-cases s.0) [
        | inl g ↦ rw g (
            answered-Sends 1 w v (N.recvfrom s.1).0 (Receipt.nothing, N.close v) (omega arith)
              (omega arith, λ k. omega arith))
        | inr g ↦ rw g (omega arith, λ k. omega arith)
      ]
  attempts-Sends (suc left) w =
      let s = N.sendto req w in
      let v = (N.recvfrom s.1).1 in
      let e = Q.send_sent req w in
      let f = Q.receive_sent s.1 in
      let a = attempts-Sends left s.1 in
      let b = attempts-Sends left v in
      elim (Bool-cases s.0) [
        | inl g ↦ rw g (
            answered-Sends (suc left + 1) w v (N.recvfrom s.1).0 (attempts N left req v)
              (omega arith) (omega (arith, b.0), λ k. omega (arith, b.1 k)))
        | inr g ↦ rw g (omega (arith, a.0), λ k. omega (arith, a.1 k))
      ]

  -- The queue becomes empty.
  pub drain-ends : (f : ℕ) (w : N.World) → Q.queued w < f → (drain N f w).0 ≡ true
  unfolding drain
  drain-ends zero w h = absurd (omega arith)
  drain-ends (suc f) w h =
      let s = N.readable w in
      let r = N.recv_now s.1 in
      elim (Bool-cases s.0) [
        | inr g ↦ rw g refl
        | inl g ↦ elim (Bool-cases r.0) [
          | inr k ↦ rw (g, k) refl
          | inl k ↦
              let full : 0 < Q.queued w = ground (arith, Q.select_empty w) in
              rw (g, k) (drain-ends f r.1 (omega (arith, Q.read_queued s.1, Q.select_queued w)))
        ]
      ]

  answered-returns :
      (o : Receipt) (v : N.World) (other : Receipt × N.World)
      → o ≢ Receipt.blocked
      → other.0 ≢ Receipt.blocked
      → (answered N o v other).0 ≢ Receipt.blocked
  unfolding answered
  answered-returns (Receipt.answer resp) v other h g = h
  answered-returns Receipt.nothing v other h g = g
  answered-returns Receipt.blocked v other h g = h

  -- No attempt blocks on a socket with a timeout.
  attempts-returns :
      (left : ℕ) (w : N.World) → Q.timed w ≡ true → (attempts N left req w).0 ≢ Receipt.blocked
  unfolding attempts
  attempts-returns zero w t =
      let s = N.sendto req w in
      let v = N.recvfrom s.1 in
      let still = Q.send_timed req w ∙ t in
      elim (Bool-cases s.0) [
        | inl g ↦ rw g (
            answered-returns v.0 v.1 (Receipt.nothing, N.close v.1) (Q.receive_returns s.1 still)
              (λ k. cc))
        | inr g ↦ rw g (λ k. cc)
      ]
  attempts-returns (suc left) w t =
      let s = N.sendto req w in
      let v = N.recvfrom s.1 in
      let still = Q.send_timed req w ∙ t in
      elim (Bool-cases s.0) [
        | inl g ↦ rw g (
            answered-returns v.0 v.1 (attempts N left req v.1) (Q.receive_returns s.1 still)
              (attempts-returns left v.1 (Q.receive_timed s.1 ∙ still)))
        | inr g ↦ rw g (attempts-returns left s.1 still)
      ]

  finish-ends :
      (fuel : ℕ) (o : Receipt) (w : N.World)
      → o ≢ Receipt.blocked
      → Q.queued w < fuel
      → (r : Option Response × N.World) × (finish N fuel o w ≡ some r)
  unfolding finish
  finish-ends fuel Receipt.nothing w f h = ((none, w), refl)
  finish-ends fuel Receipt.blocked w f h = absurd (f refl)
  finish-ends fuel (Receipt.answer resp) w f h =
      ((some resp, (drain N fuel w).1), (rw (drain-ends fuel w h) refl))

  connect-timed :
      (timeout_ms : ℕ) (w : N.World)
      → 0 < timeout_ms
      → (N.set_timeout (timeout_ms / 1000) (timeout_ms % 1000 * 1000) (N.socket w).1).0 ≡ true
      → (connect N timeout_ms w).0 ≡ true
      → Q.timed (connect N timeout_ms w).1 ≡ true
  unfolding connect
  connect-timed timeout_ms w pos ok e =
      let s = N.socket w in
      let t = N.set_timeout (timeout_ms / 1000) (timeout_ms % 1000 * 1000) s.1 in
      let set : Q.timed t.1 ≡ true =
        Q.set_timed (timeout_ms / 1000) (timeout_ms % 1000 * 1000) s.1 ok (omega arith) in
      elim (Bool-cases s.0) [
        | inr g ↦ let k : false ≡ true = (rw g at e) in cc
        | inl g ↦ elim (Bool-cases (N.inet_pton t.1)) [
          | inr k ↦ let l : false ≡ true = (rw (g, k) at e) in cc
          | inl k ↦ rw (g, k) set
        ]
      ]

  -- The first call of `flashClient` in a thread returns or gives up, whatever the network does, when the
  -- timeout is not zero and can be set on the new socket, and no packet arrives while it reads the queue:
  -- one turn more than there are packets after the attempts is enough.
  pub flash_client-ends :
      (fuel timeout_ms max_retries : ℕ) (w : N.World)
      → 0 < timeout_ms
      → (N.set_timeout (timeout_ms / 1000) (timeout_ms % 1000 * 1000) (N.socket w).1).0 ≡ true
      → Q.queued (attempts N max_retries req (connect N timeout_ms w).1).1 < fuel
      → (r : Option Response × N.World) × (flash_client N fuel timeout_ms max_retries false req w
          ≡ some r)
  unfolding flash_client
  flash_client-ends fuel timeout_ms max_retries w pos ok h =
      let v = (connect N timeout_ms w).1 in
      elim (Bool-cases (connect N timeout_ms w).0) [
        | inl g ↦
            let r =
              finish-ends fuel (attempts N max_retries req v).0 _
                (attempts-returns max_retries v (connect-timed timeout_ms w pos ok g)) h in
            (r.0, (rw g r.1))
        | inr g ↦ ((none, v), (rw g refl))
      ]
