-- ===== src/Client/Loss.antt =====
-- What `flashClient` of include/client.hpp returns over a network that loses packets, and what it leaves on the
-- socket for its next call.
use hsq_over_nand.Base.{
  ℕ, zero, suc, ◌≡◌, ap, sym, ◌∙◌, Bool, true, false, Option, none, some, inl, inr, ◌⊎◌, Bool-cases,
}
use hsq_over_nand.Client.{
  Request, Response, Receipt, Net, connect, answered, attempts, finish, drain, flash_client,
}

-- What a network may do: it loses, repeats and delays packets. An answer that `flying` allows for may still
-- arrive, and one that `waiting` allows for has arrived at the socket; every answer that is received is the
-- answer that `serve` gives to such a request. `select` and `recv` see what has arrived, and fail only when
-- nothing has.
pub record Lossy (N : Net) (serve : Request → Response) : Type 0 where
  pub flying : N.World → Request → Bool
  pub waiting : N.World → Request → Bool
  pub send_due :
      (req q : Request) (w : N.World)
      → (flying (N.sendto req w).1 q ≡ true) ⊎ (waiting (N.sendto req w).1 q ≡ true)
      → (q ≡ req) ⊎ ((flying w q ≡ true) ⊎ (waiting w q ≡ true))
  pub receive_due :
      (q : Request) (w : N.World)
      → (flying (N.recvfrom w).1 q ≡ true) ⊎ (waiting (N.recvfrom w).1 q ≡ true)
      → (flying w q ≡ true) ⊎ (waiting w q ≡ true)
  pub receive_answer :
      (w : N.World) (r : Response)
      → (N.recvfrom w).0 ≡ Receipt.answer r
      → (q : Request) × ((flying w q ≡ true) ⊎ (waiting w q ≡ true)) × (r ≡ serve q)
  pub select_waiting :
      (q : Request) (w : N.World) → (N.readable w).0 ≡ false → waiting (N.readable w).1 q ≡ false
  pub recv_waiting :
      (q : Request) (w : N.World) → (N.recv_now w).0 ≡ false → waiting (N.recv_now w).1 q ≡ false

abbrev returned : {W : Type 0} → Option (Option Response × W) → Option Response
returned none = none
returned (some r) = r.0

abbrev left_by : {W : Type 0} → W → Option (Option Response × W) → W
left_by w none = w
left_by w (some r) = r.1

module _ (N : Net) (serve : Request → Response) (L : Lossy N serve) where
  -- Nothing has arrived.
  abbrev pub Drained : N.World → Type 0
  Drained w = (q : Request) → L.waiting w q ≡ false

  drain-Drained : (fuel : ℕ) (w : N.World) → (drain N fuel w).0 ≡ true → Drained (drain N fuel w).1
  unfolding drain
  drain-Drained zero w e q = cc
  drain-Drained (suc f) w e q =
      let s = N.readable w in
      let r = N.recv_now s.1 in
      elim (Bool-cases s.0) [
        | inr g ↦ rw g (L.select_waiting q w g)
        | inl g ↦ elim (Bool-cases r.0) [
          | inr k ↦ rw (g, k) (L.recv_waiting q s.1 k)
          | inl k ↦ rw (g, k) (drain-Drained f r.1 (rw (g, k) at e) q)
        ]
      ]

  finish-some :
      (fuel : ℕ) (o : Receipt) (w w' : N.World) (r : Response)
      → finish N fuel o w ≡ some (some r, w')
      → (o ≡ Receipt.answer r) × Drained w'
  unfolding finish
  finish-some fuel Receipt.nothing w w' r e = let k = ap returned e in cc
  finish-some fuel Receipt.blocked w w' r e = cc
  finish-some fuel (Receipt.answer resp) w w' r e = elim (Bool-cases (drain N fuel w).0) [
    | inl g ↦
        let e' = rw g at e in
        let same : resp ≡ r = let k = ap returned e' in cc in
        (
          ap Receipt.answer same,
          λ q. ap (λ v. L.waiting v q) (sym (ap (left_by w) e')) ∙ drain-Drained fuel w g q,
        )
    | inr g ↦ let k = ap returned (rw g at e) in cc
  ]

  flash_client-Drained :
      (fuel timeout_ms max_retries : ℕ) (connected : Bool) (req : Request) (w w' : N.World)
      (r : Response)
      → flash_client N fuel timeout_ms max_retries connected req w ≡ some (some r, w')
      → Drained w'
  unfolding flash_client
  flash_client-Drained fuel timeout_ms max_retries true req w w' r e =
      (finish-some fuel _ _ w' r e).1
  flash_client-Drained fuel timeout_ms max_retries false req w w' r e =
      elim (Bool-cases (connect N timeout_ms w).0) [
        | inl g ↦ (finish-some fuel _ _ w' r (rw g at e)).1
        | inr g ↦ let k = ap returned (rw g at e) in cc
      ]

  module _ (req : Request) where
    -- Every answer that can still be received is that of the request.
    abbrev pub Only : N.World → Type 0
    Only w = (q : Request) → (L.flying w q ≡ true) ⊎ (L.waiting w q ≡ true) → serve q ≡ serve req

    send-Only : (w : N.World) → Only w → Only (N.sendto req w).1
    send-Only w h q f = elim (L.send_due req q w f) [ inl e ↦ ap serve e | inr g ↦ h q g ]

    receive-Only : (w : N.World) → Only w → Only (N.recvfrom w).1
    receive-Only w h q f = h q (L.receive_due q w f)

    received :
        (w : N.World) (r : Response) → Only w → (N.recvfrom w).0 ≡ Receipt.answer r → r ≡ serve req
    received w r h e = let a = L.receive_answer w r e in a.2 ∙ h a.0 a.1

    answered-answer :
        (o : Receipt) (v : N.World) (r : Response) (other : Receipt × N.World)
        → (o ≡ Receipt.answer r → r ≡ serve req)
        → (other.0 ≡ Receipt.answer r → r ≡ serve req)
        → (answered N o v other).0 ≡ Receipt.answer r
        → r ≡ serve req
    unfolding answered
    answered-answer (Receipt.answer resp) v r other h g e = h e
    answered-answer Receipt.nothing v r other h g e = g e
    answered-answer Receipt.blocked v r other h g e = cc

    attempts-answer :
        (left : ℕ) (w : N.World) (r : Response)
        → Only w
        → (attempts N left req w).0 ≡ Receipt.answer r
        → r ≡ serve req
    unfolding attempts
    attempts-answer zero w r h e =
        let s = N.sendto req w in
        let v = N.recvfrom s.1 in
        elim (Bool-cases s.0) [
          | inl g ↦
              answered-answer v.0 v.1 r (Receipt.nothing, N.close v.1)
                (received s.1 r (send-Only w h)) (λ k. cc) (rw g at e)
          | inr g ↦ let k : Receipt.nothing ≡ Receipt.answer r = (rw g at e) in cc
        ]
    attempts-answer (suc left) w r h e =
        let s = N.sendto req w in
        let v = N.recvfrom s.1 in
        let o = send-Only w h in
        elim (Bool-cases s.0) [
          | inl g ↦
              answered-answer v.0 v.1 r (attempts N left req v.1) (received s.1 r o)
                (attempts-answer left v.1 r (receive-Only s.1 o)) (rw g at e)
          | inr g ↦ attempts-answer left s.1 r o (rw g at e)
        ]

    -- Over a network that loses, repeats and delays packets, a call of `flashClient` after one that has
    -- returned an answer returns, if it returns one, the answer to its own request: answers to earlier
    -- requests may have arrived before the first call ended, and only those that are then still on their
    -- way must be the answer to the second request.
    pub flash_client-next :
        (fuel fuel' timeout_ms max_retries : ℕ) (connected : Bool) (before : Request)
        (w v v' : N.World) (first r : Response)
        → flash_client N fuel timeout_ms max_retries connected before w ≡ some (some first, v)
        → ((q : Request) → L.flying v q ≡ true → serve q ≡ serve req)
        → flash_client N fuel' timeout_ms max_retries true req v ≡ some (some r, v')
        → r ≡ serve req
    unfolding flash_client
    flash_client-next fuel fuel' timeout_ms max_retries connected before w v v' first r e h e' =
        let none_left =
          flash_client-Drained fuel timeout_ms max_retries connected before w v first e in
        let only : Only v =
          λ q due. elim due [ inl f ↦ h q f | inr k ↦ let gone = none_left q in cc ] in
        attempts-answer max_retries v r only (finish-some fuel' _ _ v' r e').0
