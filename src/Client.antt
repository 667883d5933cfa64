-- ===== src/Client.antt =====
-- `flashClient` of include/client.hpp: a request over UDP, sent again when no answer comes. The socket is
-- an operation on the world; an `exit(1)` is the result `none`.
pub mod Loss
pub mod Retry
mod Tests
use hsq_over_nand.Base.{
  ℕ, zero, suc, ◌+◌, ◌-◌, ◌*◌, ◌/◌, ◌%◌, ◌<◌, ◌≡◌, Bool, true, false, Option, none, some, not, ltb,
  ◌==◌, if◌then◌else◌, inl, inr, ◌⊎◌,
}

pub record Request : Type 0 where
  pub a : ℕ
  pub b : ℕ

pub record Response : Type 0 where
  pub c : ℕ
  pub is_jmp : Bool

-- What a call of `recvfrom` does: it gives a whole response, it returns without one, or it never returns,
-- which it may do when the socket has no timeout.
pub data Receipt : Type 0 where
  answer : Response → Receipt
  nothing blocked : Receipt

-- The calls of the socket.
pub record Net : Type 1 where
  pub World : Type 0
  pub socket : World → Bool × World
  pub set_timeout : ℕ → ℕ → World → Bool × World
  pub inet_pton : World → Bool
  pub close : World → World
  pub sendto : Request → World → Bool × World
  pub recvfrom : World → Receipt × World
  pub readable : World → Bool × World
  pub recv_now : World → Bool × World

module _ (N : Net) where
  -- The first call in a thread makes the socket. A timeout that cannot be set is only reported.
  unfoldable pub connect : ℕ → N.World → Bool × N.World
  connect timeout_ms w =
      let s = N.socket w in
      let t = N.set_timeout (timeout_ms / 1000) (timeout_ms % 1000 * 1000) s.1 in
      if not s.0
      then (false, s.1)
      else (if not (N.inet_pton t.1) then (false, N.close t.1) else (true, t.1))

  -- An answer ends the loop of attempts, and without one `other` follows.
  unfoldable pub answered : Receipt → N.World → Receipt × N.World → Receipt × N.World
  answered (Receipt.answer resp) w other = (Receipt.answer resp, w)
  answered Receipt.nothing w other = other
  answered Receipt.blocked w other = (Receipt.blocked, w)

  -- The loop of attempts, with `left` retries left.
  unfoldable pub attempts : ℕ → Request → N.World → Receipt × N.World
  attempts zero req w =
      let s = N.sendto req w in
      let r = N.recvfrom s.1 in
      if not s.0
      then (Receipt.nothing, N.close s.1)
      else answered r.0 r.1 (Receipt.nothing, N.close r.1)
  attempts (suc left) req w =
      let s = N.sendto req w in
      let r = N.recvfrom s.1 in
      let again = attempts left req s.1 in
      let again' = attempts left req r.1 in if not s.0 then again else answered r.0 r.1 again'

  -- The loop that throws old answers away; `false` is fuel that has run out.
  unfoldable pub drain : ℕ → N.World → Bool × N.World
  drain zero w = (false, w)
  drain (suc f) w =
      let s = N.readable w in
      let r = N.recv_now s.1 in
      let rest = drain f r.1 in
      if not s.0 then (true, s.1) else (if not r.0 then (true, r.1) else rest)

  -- After the attempts; `none` is a call that does not return.
  unfoldable pub finish : ℕ → Receipt → N.World → Option (Option Response × N.World)
  finish fuel (Receipt.answer resp) w =
      let d = drain fuel w in if d.0 then some (some resp, d.1) else none
  finish fuel Receipt.nothing w = some (none, w)
  finish fuel Receipt.blocked w = none

  -- The call, with `connected` for a socket that a former call has made, and `fuel` old answers at most.
  unfoldable pub flash_client :
      ℕ → ℕ → ℕ → Bool → Request → N.World → Option (Option Response × N.World)
  flash_client fuel timeout_ms max_retries connected req w =
      let c = if connected then (true, w) else connect timeout_ms w in
      let r = attempts max_retries req c.1 in
      if not c.0 then some (none, c.1) else finish fuel r.0 r.1
