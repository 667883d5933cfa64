-- ===== src/Worker.antt =====
-- `process_requests` of src/server/server.cpp: a worker takes up to one request for each lane from the
-- socket, lets its CPU compute them in one round, and sends the answers. The socket is an operation on the
-- world; times are in nanoseconds.
pub mod Gather
pub mod Log
pub mod Answer
mod Tests
use hsq_over_nand.Base.{
  ℕ, zero, suc, ◌+◌, ◌-◌, ◌*◌, ◌/◌, ◌^◌, Bool, true, false, Option, none, some, List, [], ◌∷◌, ◌++◌,
  length, map, not, ltb, leb, ◌==◌, ◌&&◌, ◌||◌, if◌then◌else◌, u64,
}
use hsq_over_nand.Nand.{Nand}
use hsq_over_nand.Rom.{lanes}
use hsq_over_nand.Cpu.{Cpu}
use hsq_over_nand.Cpu.Cycle.{round_loop}
use hsq_over_nand.Server.{Ent, touch}

-- A request with the address that it came from.
pub record Pending : Type 0 where
  pub a : ℕ
  pub b : ℕ
  pub addr : ℕ

pub record Reply : Type 0 where
  pub c : ℕ
  pub is_non_positive : Bool

-- `recvfrom` without waiting: a whole request, an empty socket, or something else.
pub data Received : Type 0 where
  packet : Pending → Received
  empty broken : Received

-- `sendto`: the whole answer, a condition that passes (EAGAIN, ENOBUFS, EINTR), or another error.
pub data Sent : Type 0 where
  whole busy failed : Sent

pub record Sock : Type 1 where
  pub World : Type 0
  pub receive : World → Received × World
  pub select : ℕ → World → Bool × World
  pub now : World → ℕ
  pub is_boost : World → Bool
  pub send : ℕ → Reply → World → Sent × World

abbrev pub batch_wait_us : ℕ
batch_wait_us = 500

abbrev pub send_retries : ℕ
send_retries = 3

module _ (S : Sock) where
  -- The requests taken so far, the number of active clients, and the table of the clients.
  pub record Batch : Type 0 where
    pub pending : List Pending
    pub active : ℕ
    pub ents : List Ent
    pub world : S.World

  unfoldable pub add : Pending → S.World → Batch → Batch
  add p w s =
      let t = touch p.addr (S.now w) s.ents in
      record { pending = s.pending ++ p ∷ []; active = t.0; ents = t.1; world = w }

  -- What a packet that was taken while others are waited for adds.
  unfoldable pub take_in : Received → S.World → Batch → Batch
  take_in (Received.packet p) w s = add p w s
  take_in Received.empty w s = record s { world = w }
  take_in Received.broken w s = record s { world = w }

  unfoldable pub is_packet : Received → Bool
  is_packet (Received.packet p) = true
  is_packet Received.empty = false
  is_packet Received.broken = false

  -- The loop that takes what has arrived, with `m` lanes left.
  unfoldable pub fill : ℕ → Batch → Batch
  fill zero s = s
  fill (suc m) s =
      let r = S.receive s.world in
      let s' = take_in r.0 r.1 s in let rest = fill m s' in if is_packet r.0 then rest else s'

  -- The loop that waits for others until the deadline; `none` is fuel that has run out.
  unfoldable pub wait_more : ℕ → ℕ → ℕ → Batch → Option Batch
  wait_more zero num_cpus deadline s = none
  wait_more (suc f) num_cpus deadline s =
      let remain = (deadline - S.now s.world) / 1000 in
      let t = S.select remain s.world in
      let r = S.receive t.1 in
      let rest = wait_more f num_cpus deadline (take_in r.0 r.1 s) in
      if not (ltb (length s.pending) lanes && ltb num_cpus s.active)
      then some s
      else (if remain == 0
          then some s
          else (if not t.0 then some (record s { world = t.1 }) else rest))

  -- The requests of one round, after the first. Every turn of the wait takes time, so that one turn more
  -- than there are nanoseconds is enough.
  unfoldable pub gather : ℕ → Batch → Option Batch
  gather num_cpus s =
      let t = fill (lanes - 1) s in
      let deadline = S.now t.world + batch_wait_us * 1000 in
      wait_more (batch_wait_us * 1000 + 1) num_cpus deadline t

  -- The answer of the boost mode.
  unfoldable pub boost_reply : Pending → Reply
  boost_reply p =
      let c = u64 (p.b + 2 ^ 64 - p.a) in
      record { c = c; is_non_positive = (c == 0) || leb (2 ^ 63) c }

  -- The operands of a lane; a lane without a request gets zeros.
  unfoldable pub operand : (Pending → ℕ) → List Pending → ℕ → ℕ
  operand f [] i = 0
  operand f (p ∷ ps) zero = f p
  operand f (p ∷ ps) (suc i) = operand f ps i

  unfoldable pub is_whole : Sent → Bool
  is_whole Sent.whole = true
  is_whole Sent.busy = false
  is_whole Sent.failed = false

  unfoldable pub is_busy : Sent → Bool
  is_busy Sent.whole = false
  is_busy Sent.busy = true
  is_busy Sent.failed = false

  -- The sends of one answer, with `left` retries left.
  unfoldable pub send_reply : ℕ → ℕ → Reply → S.World → Bool × S.World
  send_reply zero addr r w = let t = S.send addr r w in (is_whole t.0, t.1)
  send_reply (suc left) addr r w =
      let t = S.send addr r w in
      let again = send_reply left addr r t.1 in
      if is_whole t.0 then (true, t.1) else (if is_busy t.0 then again else (false, t.1))

  -- The loop over the answers; an answer that cannot be sent is left to the client's retries.
  unfoldable pub respond : List Pending → List Reply → S.World → S.World
  respond [] rs w = w
  respond (p ∷ ps) [] w = w
  respond (p ∷ ps) (r ∷ rs) w = respond ps rs (send_reply send_retries p.addr r w).1

  module _ (N : Nand) where
    -- The answers of the lanes from `i` on.
    unfoldable pub lane_replies : ℕ → List Pending → Cpu N → List Reply
    lane_replies i [] s = []
    lane_replies i (p ∷ ps) s =
        record { c = s.out i; is_non_positive = s.is_jmp i } ∷ lane_replies (i + 1) ps s

    -- A round of the CPU on the requests, of `rom_length` instructions at most.
    unfoldable pub compute : ℕ → List Pending → Cpu N → List Reply × Cpu N
    compute rom_length ps s =
        let s' = record s { in_a = operand (λ p. p.a) ps; in_b = operand (λ p. p.b) ps } in
        let t = round_loop N rom_length s' in (lane_replies 0 ps t, t)

    -- What a call leaves.
    pub record Done : Type 0 where
      pub world : S.World
      pub cpu : Cpu N
      pub ents : List Ent

    -- The call once the requests of its round are known.
    unfoldable pub answer : Bool → ℕ → Cpu N → Option Batch → Option Done
    answer boost rom_length cpu none = none
    answer boost rom_length cpu (some t) =
        let r = compute rom_length t.pending cpu in
        if boost
        then some (record {
          world = respond t.pending (map boost_reply t.pending) t.world;
          cpu = cpu;
          ents = t.ents;
        })
        else some (record { world = respond t.pending r.0 t.world; cpu = r.1; ents = t.ents })

    -- After the first packet.
    unfoldable pub process_first : ℕ → ℕ → Cpu N → List Ent → Received → S.World → Option Done
    process_first num_cpus rom_length cpu ents (Received.packet p) w =
        let s = add p w (record { pending = []; active = 0; ents = ents; world = w }) in
        let boost = S.is_boost w in
        answer boost rom_length cpu (if boost then some s else gather num_cpus s)
    process_first num_cpus rom_length cpu ents Received.empty w =
        some (record { world = w; cpu = cpu; ents = ents })
    process_first num_cpus rom_length cpu ents Received.broken w =
        some (record { world = w; cpu = cpu; ents = ents })

    unfoldable pub process_requests : ℕ → ℕ → Cpu N → List Ent → S.World → Option Done
    process_requests num_cpus rom_length cpu ents w =
        let r = S.receive w in process_first num_cpus rom_length cpu ents r.0 r.1
