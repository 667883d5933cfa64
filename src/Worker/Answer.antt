-- ===== src/Worker/Answer.antt =====
-- What `process_requests` of src/server/server.cpp answers: each request that it takes from the socket once,
-- in both modes.
use hsq_over_nand.Base.{
  ℕ, zero, suc, ◌+◌, ◌-◌, ◌≤◌, ◌≡◌, refl, sym, ap, ◌∙◌, Bool, true, false, Option, some, List, [],
  ◌∷◌, ◌++◌, length, map, if◌then◌else◌, Bool-cases, inl, inr, arith,
}
use mathlib.Core.List.{append_assoc}
use hsq_over_nand.Nand.{Nand}
use hsq_over_nand.Rom.{lanes}
use hsq_over_nand.Cpu.{Cpu}
use hsq_over_nand.Server.{Ent}
use hsq_over_nand.Worker.{
  Pending, Reply, Received, Sock, Batch, add, is_whole, is_busy, fill, gather, boost_reply,
  send_reply, send_retries, respond, lane_replies, compute, answer, process_first, process_requests,
  Done,
}
use hsq_over_nand.Worker.Log.{Mail, Log, packets, append_nil, Keeps, fill-Keeps, wait_more-Keeps}
use hsq_over_nand.Worker.Gather.{Ticks, gather-ends}

module _ (S : Sock) (L : Log S) where
  -- The answers of a list of requests, each with the address of its request.
  abbrev pub mails : List Pending → List Reply → List Mail
  mails [] rs = []
  mails (p ∷ ps) [] = []
  mails (p ∷ ps) (r ∷ rs) = record { to = p.addr; reply = r } ∷ mails ps rs

  send_reply-sends :
      (left addr : ℕ) (r : Reply) (w : S.World)
      → let t = send_reply S left addr r w in
        (L.taken t.1 ≡ L.taken w)
        × (L.sent t.1
            ≡ (if t.0 then L.sent w ++ record { to = addr; reply = r } ∷ [] else L.sent w))
  unfolding send_reply
  send_reply-sends zero addr r w = (L.send_taken addr r w, L.send_sent addr r w)
  send_reply-sends (suc left) addr r w =
      let t = S.send addr r w in
      let q = send_reply-sends left addr r t.1 in
      let one = L.send_sent addr r w in
      elim (Bool-cases (is_whole S t.0)) [
        | inl g ↦ rw g (L.send_taken addr r w, (rw g at one))
        | inr g ↦
            let none_sent : L.sent t.1 ≡ L.sent w = (rw g at one) in
            elim (Bool-cases (is_busy S t.0)) [
              | inl h ↦
                  rw (g, h)
                    (
                      q.0 ∙ L.send_taken addr r w,
                      q.1
                          ∙ ap
                              (λ (l : List Mail).
                                if (send_reply S left addr r t.1).0
                                then l ++ record { to = addr; reply = r } ∷ []
                                else l)
                              none_sent,
                    )
              | inr h ↦ rw (g, h) (L.send_taken addr r w, none_sent)
            ]
      ]

  -- The socket takes every answer, at the latest with the last retry.
  abbrev pub Accepts : Type 0
  Accepts = (addr : ℕ) (r : Reply) (w : S.World) → (send_reply S send_retries addr r w).0 ≡ true

  respond-sends :
      (ps : List Pending) (rs : List Reply) (w : S.World)
      → Accepts
      → (L.taken (respond S ps rs w) ≡ L.taken w)
        × (L.sent (respond S ps rs w) ≡ L.sent w ++ mails ps rs)
  unfolding respond
  respond-sends [] rs w h = (refl, sym (append_nil (L.sent w)))
  respond-sends (p ∷ ps) [] w h = (refl, sym (append_nil (L.sent w)))
  respond-sends (p ∷ ps) (r ∷ rs) w h =
      let t = send_reply-sends send_retries p.addr r w in
      let v = (send_reply S send_retries p.addr r w).1 in
      let q = respond-sends ps rs v h in
      let one : L.sent v ≡ L.sent w ++ record { to = p.addr; reply = r } ∷ [] =
        (rw (h p.addr r w) at (t.1)) in
      (
        q.0 ∙ t.0,
        q.1
            ∙ ap (λ (l : List Mail). l ++ mails ps rs) one
            ∙ append_assoc (L.sent w) (record { to = p.addr; reply = r } ∷ []) (mails ps rs),
      )

  module _ (N : Nand) where
    -- The answers of a round: those of the lanes, or in boost mode the differences.
    abbrev pub replies : Bool → ℕ → Cpu N → List Pending → List Reply
    replies boost rom_length cpu ps =
        if boost then map (boost_reply S) ps else (compute S N rom_length ps cpu).0

    -- A call that has taken the requests `ps` and has answered each of them.
    abbrev pub Answers : Bool → ℕ → Cpu N → S.World → Option (Done S N) → Type 0
    Answers boost rom_length cpu w o =
        (d : Done S N) × (o ≡ some d)
        × (ps : List Pending) × (length ps ≤ lanes)
        × (L.taken d.world ≡ L.taken w ++ ps)
        × (L.sent d.world ≡ L.sent w ++ mails ps (replies boost rom_length cpu ps))
        × (length (replies boost rom_length cpu ps) ≡ length ps)

    lane_replies-length :
        (i : ℕ) (ps : List Pending) (s : Cpu N) → length (lane_replies S N i ps s) ≡ length ps
    unfolding lane_replies
    lane_replies-length i [] s = refl
    lane_replies-length i (p ∷ ps) s = ap suc (lane_replies-length (i + 1) ps s)

    map-length : (f : Pending → Reply) (ps : List Pending) → length (map f ps) ≡ length ps
    map-length f [] = refl
    map-length f (p ∷ ps) = ap suc (map-length f ps)

    replies-length :
        (boost : Bool) (rom_length : ℕ) (cpu : Cpu N) (ps : List Pending)
        → length (replies boost rom_length cpu ps) ≡ length ps
    unfolding compute
    replies-length true rom_length cpu ps = map-length (boost_reply S) ps
    replies-length false rom_length cpu ps = lane_replies-length 0 ps _

    answer-Answers :
        (boost : Bool) (rom_length : ℕ) (cpu : Cpu N) (w : S.World) (s : Batch S)
        → Accepts
        → Keeps S L w s
        → length s.pending ≤ lanes
        → Answers boost rom_length cpu w (answer S N boost rom_length cpu (some s))
    unfolding answer
    answer-Answers true rom_length cpu w s h k few =
        let rs = replies true rom_length cpu s.pending in
        let q = respond-sends s.pending rs s.world h in
        (
          record { world = respond S s.pending rs s.world; cpu = cpu; ents = s.ents },
          refl,
          s.pending,
          few,
          q.0 ∙ k.taken,
          q.1 ∙ ap (λ (l : List Mail). l ++ mails s.pending rs) k.sent,
          replies-length true rom_length cpu s.pending,
        )
    answer-Answers false rom_length cpu w s h k few =
        let rs = replies false rom_length cpu s.pending in
        let q = respond-sends s.pending rs s.world h in
        (
          record {
            world = respond S s.pending rs s.world;
            cpu = (compute S N rom_length s.pending cpu).1;
            ents = s.ents;
          },
          refl,
          s.pending,
          few,
          q.0 ∙ k.taken,
          q.1 ∙ ap (λ (l : List Mail). l ++ mails s.pending rs) k.sent,
          replies-length false rom_length cpu s.pending,
        )

    nothing-Answers :
        (boost : Bool) (rom_length : ℕ) (cpu : Cpu N) (ents : List Ent) (w v : S.World)
        → L.taken v ≡ L.taken w ++ []
        → L.sent v ≡ L.sent w
        → Answers boost rom_length cpu w (some (record { world = v; cpu = cpu; ents = ents }))
    nothing-Answers boost rom_length cpu ents w v e f = (
      record { world = v; cpu = cpu; ents = ents },
      refl,
      [],
      omega arith,
      e,
      f ∙ sym (append_nil (L.sent w)),
      replies-length boost rom_length cpu [],
    )

    gather-Answers :
        (T : Ticks S) (boost : Bool) (num_cpus rom_length : ℕ) (cpu : Cpu N) (w : S.World)
        (s : Batch S)
        → Accepts
        → Keeps S L w s
        → length s.pending ≤ 1
        → Answers boost rom_length cpu w
            (answer S N boost rom_length cpu (if boost then some s else gather S num_cpus s))
    unfolding gather
    gather-Answers T true num_cpus rom_length cpu w s h k few =
        answer-Answers true rom_length cpu w s h k (omega arith)
    gather-Answers T false num_cpus rom_length cpu w s h k few =
        let g = gather-ends S T num_cpus s few in
        let t = fill S (lanes - 1) s in
        let k' = wait_more-Keeps S L _ num_cpus _ w t g.0 (fill-Keeps S L (lanes - 1) w s k) g.1 in
        rw g.1 (answer-Answers false rom_length cpu w g.0 h k' g.2)

    process_first-Answers :
        (T : Ticks S) (num_cpus rom_length : ℕ) (cpu : Cpu N) (ents : List Ent) (w v : S.World)
        (r : Received)
        → Accepts
        → L.taken v ≡ L.taken w ++ packets r
        → L.sent v ≡ L.sent w
        → Answers
            (S.is_boost v)
            rom_length
            cpu
            w
            (process_first S N num_cpus rom_length cpu ents r v)
    unfolding process_first add packets
    process_first-Answers T num_cpus rom_length cpu ents w v (Received.packet p) h e f =
        gather-Answers T (S.is_boost v) num_cpus rom_length cpu w _ h
          (record { taken = e; sent = f }) (omega arith)
    process_first-Answers T num_cpus rom_length cpu ents w v Received.empty h e f =
        nothing-Answers (S.is_boost v) rom_length cpu ents w v e f
    process_first-Answers T num_cpus rom_length cpu ents w v Received.broken h e f =
        nothing-Answers (S.is_boost v) rom_length cpu ents w v e f

    -- When system calls take time and the socket takes every answer by the last retry, a call returns; the
    -- requests that it has taken from the socket, no more than lanes, are those that it has answered, each
    -- once, in order and to its sender: with the differences in boost mode, else with what the lanes of
    -- the CPU hold after a round on them.
    pub process_requests-Answers :
        (T : Ticks S) (num_cpus rom_length : ℕ) (cpu : Cpu N) (ents : List Ent) (w : S.World)
        → Accepts
        → Answers
            (S.is_boost (S.receive w).1)
            rom_length
            cpu
            w
            (process_requests S N num_cpus rom_length cpu ents w)
    unfolding process_requests
    process_requests-Answers T num_cpus rom_length cpu ents w h =
        process_first-Answers T num_cpus rom_length cpu ents w (S.receive w).1 (S.receive w).0 h
          (L.receive_taken w) (L.receive_sent w)
