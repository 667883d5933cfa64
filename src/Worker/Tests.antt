-- ===== src/Worker/Tests.antt =====
-- A simulated socket with three requests, and the worker of the in-memory flash.
use hsq_over_nand.Base.{
  ℕ, ◌+◌, ◌≤◌, ◌≡◌, refl, Bool, true, false, some, List, [], ◌∷◌, ◌++◌, length, arith,
}
use hsq_over_nand.Nand.{stub, stub_new, blank}
use hsq_over_nand.Rom.{lanes}
use hsq_over_nand.Cpu.{Cpu}
use hsq_over_nand.Cpu.Boot.{fresh}
use hsq_over_nand.Worker.{
  Pending, Reply, Received, Sent, Sock, Batch, send_reply, is_whole, gather, process_requests,
}
use hsq_over_nand.Worker.Gather.{Ticks, gather-ends}
use hsq_over_nand.Worker.Log.{Mail, Log, packets}
use hsq_over_nand.Worker.Answer.{Answers, process_requests-Answers}

record World : Type 0 where
  time : ℕ
  inbox : List Pending
  read : List Pending
  out : List Mail
  boost : Bool

abbrev received : List Pending → Received
received [] = Received.empty
received (p ∷ ps) = Received.packet p

abbrev rest : List Pending → List Pending
rest [] = []
rest (p ∷ ps) = ps

abbrev first : List Pending → List Pending
first [] = []
first (p ∷ ps) = p ∷ []

abbrev any : List Pending → Bool
any [] = false
any (p ∷ ps) = true

abbrev sock : Sock
sock = record {
  World = World;
  receive = λ w. (
    received w.inbox,
    record w { time = w.time + 1; inbox = rest w.inbox; read = w.read ++ first w.inbox },
  );
  select = λ us w. (any w.inbox, record w { time = w.time + 1 });
  now = λ w. w.time;
  is_boost = λ w. w.boost;
  send = λ addr r w. (
    Sent.whole,
    record w { time = w.time + 1; out = w.out ++ record { to = addr; reply = r } ∷ [] },
  );
}

abbrev ticks : Ticks sock
ticks = record { receive_now = λ w. omega arith; select_now = λ us w. omega arith }

first-packets : (read ps : List Pending) → read ++ first ps ≡ read ++ packets (received ps)
unfolding packets
first-packets read [] = refl
first-packets read (p ∷ ps) = refl

log : Log sock
unfolding is_whole
log = record {
  taken = λ w. w.read;
  sent = λ w. w.out;
  receive_taken = λ w. first-packets w.read w.inbox;
  receive_sent = λ w. refl;
  select_taken = λ us w. refl;
  select_sent = λ us w. refl;
  send_taken = λ addr r w. refl;
  send_sent = λ addr r w. refl;
}

accepts : (addr : ℕ) (r : Reply) (w : World) → (send_reply sock 3 addr r w).0 ≡ true
unfolding send_reply is_whole
accepts addr r w = refl

abbrev inbox : List Pending
inbox =
    record { a = 3; b = 10; addr = 1 }
    ∷ record { a = 10; b = 3; addr = 2 }
    ∷ record { a = 1; b = 1; addr = 3 }
    ∷ []

abbrev world : World
world = record { time = 0; inbox = inbox; read = []; out = []; boost = false }

abbrev cpu : Cpu stub
cpu = fresh stub stub_new blank

abbrev start : Batch sock
start = record { pending = []; active = 0; ents = []; world = world }

gather-ends_example : (t : Batch sock) × (gather sock 1 start ≡ some t) × (length t.pending ≤ lanes)
gather-ends_example = gather-ends sock ticks 1 start (omega arith)

process_requests-Answers_example :
    Answers sock log stub false 100 cpu world (process_requests sock stub 1 100 cpu [] world)
process_requests-Answers_example =
    process_requests-Answers sock log stub ticks 1 100 cpu [] world accepts
