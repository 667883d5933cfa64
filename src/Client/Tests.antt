-- ===== src/Client/Tests.antt =====
-- A network that loses the first packet of a socket, and brings every answer after it twice.
use hsq_over_nand.Base.{
  ℕ, ◌+◌, ◌-◌, ◌^◌, ◌%◌, ◌<◌, ◌≡◌, refl, Bool, true, false, Option, some, List, [], ◌∷◌, ◌++◌,
  length, ltb, leb, ◌==◌, ◌&&◌, ◌||◌, if◌then◌else◌, arith, ap₂, sym, inl, inr, ◌⊎◌, ◌≢◌,
  Bool-cases,
}
use hsq_over_nand.Client.{
  Request, Response, Receipt, Net, connect, answered, attempts, finish, drain, flash_client,
}
use hsq_over_nand.Client.Loss.{Lossy, flash_client-next}
use hsq_over_nand.Client.Retry.{Queue, Sends, attempts-Sends, flash_client-ends}

-- The packets sent, the requests whose answers have arrived, and whether the socket has a timeout.
record World : Type 0 where
  count : ℕ
  queue : List Request
  limited : Bool

abbrev serve : Request → Response
serve q = record { c = (q.b + 2 ^ 64 - q.a) % 2 ^ 64; is_jmp = leb q.b q.a }

abbrev same : Request → Request → Bool
same p q = (p.a == q.a) && (p.b == q.b)

abbrev has : List Request → Request → Bool
has [] q = false
has (p ∷ ps) q = same p q || has ps q

abbrev front : List Request → Bool → Receipt
front [] true = Receipt.nothing
front [] false = Receipt.blocked
front (p ∷ ps) t = Receipt.answer (serve p)

abbrev rest : List Request → List Request
rest [] = []
rest (p ∷ ps) = ps

abbrev some_left : List Request → Bool
some_left [] = false
some_left (p ∷ ps) = true

abbrev net : Net
net = record {
  World = World;
  socket = λ w. (true, w);
  set_timeout = λ s us w. (true, record w { limited = ltb 0 (s + us) });
  inet_pton = λ w. true;
  close = λ w. w;
  sendto = λ q w. (
    true,
    record w {
      count = w.count + 1;
      queue = if w.count == 0 then w.queue else w.queue ++ q ∷ q ∷ [];
    },
  );
  recvfrom = λ w. (front w.queue w.limited, record w { queue = rest w.queue });
  readable = λ w. (some_left w.queue, w);
  recv_now = λ w. (some_left w.queue, record w { queue = rest w.queue });
}

abbrev request : Request
request = record { a = 5; b = 12 }

abbrev other : Request
other = record { a = 7; b = 7 }

abbrev world : World
world = record { count = 0; queue = []; limited = false }

same_eq : (p q : Request) → same p q ≡ true → q ≡ p
same_eq p q e =
    let h : p.a ≡ q.a = ground arith in
    let k : p.b ≡ q.b = ground arith in ap₂ (λ x y. record { a = x; b = y }) (sym h) (sym k)

same_refl : (p : Request) → same p p ≡ true
same_refl p = ground arith

has-sent :
    (ps : List Request) (req q : Request)
    → has (ps ++ req ∷ req ∷ []) q ≡ true
    → (q ≡ req) ⊎ (has ps q ≡ true)
has-sent [] req q e = inl (same_eq req q (ground arith))
has-sent (p ∷ ps) req q e = elim (Bool-cases (same p q)) [
  | inl h ↦ inr (rw h refl)
  | inr h ↦ elim (has-sent ps req q (rw h at e)) [ inl k ↦ inl k | inr k ↦ inr (rw h k) ]
]

sent-due :
    (t : Bool) (ps : List Request) (req q : Request)
    → (false ≡ true) ⊎ (has (if t then ps else ps ++ req ∷ req ∷ []) q ≡ true)
    → (q ≡ req) ⊎ ((false ≡ true) ⊎ (has ps q ≡ true))
sent-due t ps req q (inl e) = cc
sent-due true ps req q (inr e) = inr (inr e)
sent-due false ps req q (inr e) = elim (has-sent ps req q e) [ inl k ↦ inl k | inr k ↦ inr (inr k) ]

rest-due :
    (ps : List Request) (q : Request)
    → (false ≡ true) ⊎ (has (rest ps) q ≡ true)
    → (false ≡ true) ⊎ (has ps q ≡ true)
rest-due ps q (inl e) = cc
rest-due [] q (inr e) = inr e
rest-due (p ∷ ps) q (inr e) = inr (ground (arith, e))

front-answer :
    (ps : List Request) (t : Bool) (r : Response)
    → front ps t ≡ Receipt.answer r
    → (q : Request) × ((false ≡ true) ⊎ (has ps q ≡ true)) × (r ≡ serve q)
front-answer [] true r e = cc
front-answer [] false r e = cc
front-answer (p ∷ ps) t r e = (p, inr (rw (same_refl p) refl), let k : serve p ≡ r = cc in sym k)

empty : (ps : List Request) (q : Request) → some_left ps ≡ false → has ps q ≡ false
empty [] q e = refl
empty (p ∷ ps) q e = cc

empty-rest : (ps : List Request) (q : Request) → some_left ps ≡ false → has (rest ps) q ≡ false
empty-rest [] q e = refl
empty-rest (p ∷ ps) q e = cc

abbrev lossy : Lossy net serve
lossy = record {
  flying = λ w q. false;
  waiting = λ w q. has w.queue q;
  send_due = λ req q w e. sent-due (w.count == 0) w.queue req q e;
  receive_due = λ q w e. rest-due w.queue q e;
  receive_answer = λ w r e. front-answer w.queue w.limited r e;
  select_waiting = λ q w e. empty w.queue q e;
  recv_waiting = λ q w e. empty-rest w.queue q e;
}

-- The first request is sent twice, and its second answer is left on the socket until it is thrown away.
abbrev between : World
between = record { count = 2; queue = []; limited = true }

flash_client-next_example : serve other ≡ serve other
unfolding flash_client connect finish attempts answered drain
flash_client-next_example =
    flash_client-next net serve lossy other 3 3 3000 5 false request world between
      (record { count = 3; queue = []; limited = true }) (serve request) (serve other) refl
      (λ q e. cc) refl

no_packet : (ps : List Request) → length ps ≡ 0 → some_left ps ≡ false
no_packet [] e = refl
no_packet (p ∷ ps) e = absurd (omega arith)

one_less : (ps : List Request) → 0 < length ps → length (rest ps) < length ps
one_less [] h = absurd (omega arith)
one_less (p ∷ ps) h = omega arith

front-returns : (ps : List Request) (t : Bool) → t ≡ true → front ps t ≢ Receipt.blocked
front-returns [] true e = λ k. cc
front-returns [] false e = λ k. cc
front-returns (p ∷ ps) t e = λ k. cc

is_pos : (n : ℕ) → 0 < n → ltb 0 n ≡ true
is_pos n h = ground arith

abbrev queue_of : Queue net
queue_of = record {
  sent = λ w. w.count;
  queued = λ w. length w.queue;
  send_sent = λ q w. refl;
  receive_sent = λ w. refl;
  close_sent = λ w. refl;
  timed = λ w. w.limited;
  set_timed = λ s us w e h. is_pos (s + us) h;
  send_timed = λ q w. refl;
  receive_timed = λ w. refl;
  receive_returns = λ w e. front-returns w.queue w.limited e;
  select_empty = λ w e. no_packet w.queue e;
  select_queued = λ w. refl;
  read_queued = λ w h. one_less w.queue h;
}

attempts-Sends_example : Sends net queue_of request 6 world (attempts net 5 request world)
attempts-Sends_example = attempts-Sends net queue_of request 5 world

flash_client-ends_example :
    (r : Option Response × World) × (flash_client net 2 3000 5 false request world ≡ some r)
unfolding attempts answered connect
flash_client-ends_example =
    flash_client-ends net queue_of request 2 3000 5 world (omega arith) refl (omega arith)
