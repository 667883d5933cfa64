-- ===== src/Worker/Log.antt =====
-- The traffic of the socket of src/server/server.cpp: gathering the requests of a round takes those of the
-- batch, and sends nothing.
use hsq_over_nand.Base.{
  ℕ, zero, suc, ◌-◌, ◌/◌, ◌≡◌, refl, ap, subst, ◌∙◌, Option, none, some, List, [], ◌∷◌, ◌++◌,
  length, ltb, ◌==◌, ◌&&◌, if◌then◌else◌, Bool-cases, inl, inr,
}
use mathlib.Core.List.{append_assoc}
use hsq_over_nand.Rom.{lanes}
use hsq_over_nand.Worker.{
  Pending, Reply, Received, Sock, Batch, add, take_in, is_packet, is_whole, fill, wait_more,
}

-- An answer with the address that it goes to.
pub record Mail : Type 0 where
  pub to : ℕ
  pub reply : Reply

unfoldable pub packets : Received → List Pending
packets (Received.packet p) = p ∷ []
packets Received.empty = []
packets Received.broken = []

-- A socket whose traffic is written down: the requests taken from it, and the answers that it took whole.
pub record Log (S : Sock) : Type 0 where
  pub taken : S.World → List Pending
  pub sent : S.World → List Mail
  pub receive_taken : (w : S.World) → taken (S.receive w).1 ≡ taken w ++ packets (S.receive w).0
  pub receive_sent : (w : S.World) → sent (S.receive w).1 ≡ sent w
  pub select_taken : (us : ℕ) (w : S.World) → taken (S.select us w).1 ≡ taken w
  pub select_sent : (us : ℕ) (w : S.World) → sent (S.select us w).1 ≡ sent w
  pub send_taken : (addr : ℕ) (r : Reply) (w : S.World) → taken (S.send addr r w).1 ≡ taken w
  pub send_sent :
      (addr : ℕ) (r : Reply) (w : S.World)
      → sent (S.send addr r w).1 ≡ (
          if is_whole S (S.send addr r w).0
          then sent w ++ record { to = addr; reply = r } ∷ []
          else sent w)

pub append_nil : {A : Type 0} (xs : List A) → xs ++ [] ≡ xs
append_nil [] = refl
append_nil (x ∷ xs) = ap (λ l. x ∷ l) (append_nil xs)

abbrev got : {A : Type 0} → A → Option A → A
got a none = a
got a (some x) = x

module _ (S : Sock) (L : Log S) where
  -- Since the call began, exactly the requests of the batch have been taken, and nothing was sent.
  pub record Keeps (start : S.World) (s : Batch S) : Type 0 where
    pub taken : L.taken s.world ≡ L.taken start ++ s.pending
    pub sent : L.sent s.world ≡ L.sent start

  same-Keeps : (start : S.World) (s t : Batch S) → Keeps start s → some s ≡ some t → Keeps start t
  same-Keeps start s t k e = subst (λ (u : Batch S). Keeps start u) (ap (got s) e) k

  take_in-Keeps :
      (start w : S.World) (r : Received) (s : Batch S)
      → L.taken w ≡ (L.taken start ++ s.pending) ++ packets r
      → L.sent w ≡ L.sent start
      → Keeps start (take_in S r w s)
  unfolding take_in add packets
  take_in-Keeps start w (Received.packet p) s e f = record {
    taken = e ∙ append_assoc (L.taken start) s.pending (p ∷ []);
    sent = f;
  }
  take_in-Keeps start w Received.empty s e f = record {
    taken = e ∙ append_nil (L.taken start ++ s.pending);
    sent = f;
  }
  take_in-Keeps start w Received.broken s e f = record {
    taken = e ∙ append_nil (L.taken start ++ s.pending);
    sent = f;
  }

  receive-Keeps :
      (start v : S.World) (s : Batch S)
      → L.taken v ≡ L.taken start ++ s.pending
      → L.sent v ≡ L.sent start
      → let r = S.receive v in Keeps start (take_in S r.0 r.1 s)
  receive-Keeps start v s e f =
      let r = S.receive v in
      take_in-Keeps start r.1 r.0 s
        (L.receive_taken v ∙ ap (λ (l : List Pending). l ++ packets r.0) e) (L.receive_sent v ∙ f)

  pub fill-Keeps :
      (m : ℕ) (start : S.World) (s : Batch S) → Keeps start s → Keeps start (fill S m s)
  unfolding fill
  fill-Keeps zero start s k = k
  fill-Keeps (suc m) start s k =
      let r = S.receive s.world in
      let q = receive-Keeps start s.world s k.taken k.sent in
      elim (Bool-cases (is_packet S r.0)) [
        | inl g ↦ rw g (fill-Keeps m start (take_in S r.0 r.1 s) q)
        | inr g ↦ rw g q
      ]

  pub wait_more-Keeps :
      (f num_cpus deadline : ℕ) (start : S.World) (s t : Batch S)
      → Keeps start s
      → wait_more S f num_cpus deadline s ≡ some t
      → Keeps start t
  unfolding wait_more
  wait_more-Keeps zero num_cpus deadline start s t k e = cc
  wait_more-Keeps (suc f) num_cpus deadline start s t k e =
      let remain = (deadline - S.now s.world) / 1000 in
      let u = S.select remain s.world in
      let r = S.receive u.1 in
      let taken = L.select_taken remain s.world ∙ k.taken in
      let sent = L.select_sent remain s.world ∙ k.sent in
      elim (Bool-cases (ltb (length s.pending) lanes && ltb num_cpus s.active)) [
        | inr g ↦ same-Keeps start s t k (rw g at e)
        | inl g ↦ elim (Bool-cases (remain == 0)) [
          | inl h ↦ same-Keeps start s t k (rw (g, h) at e)
          | inr h ↦ elim (Bool-cases u.0) [
            | inr l ↦
                same-Keeps start (record s { world = u.1 }) t
                  (record { taken = taken; sent = sent }) (rw (g, h, l) at e)
            | inl l ↦
                wait_more-Keeps f num_cpus deadline start (take_in S r.0 r.1 s) t
                  (receive-Keeps start u.1 s taken sent) (rw (g, h, l) at e)
          ]
        ]
      ]
