-- ===== src/Interserver/HttpServer/Sequential.antt =====
-- Clients that come one after the other (interserver.cc, lines 27-62 and 123-145).
use nox13_interserver.Common.{
  suc, Bool, true, false, Option, none, some, List, [], ◌∷◌, ◌++◌, All, ◌≡◌, ◌≢◌, refl, sym, ap,
  subst, arith, length, length-append,
}
use nox13_interserver.Interserver.Processor.{RequestMsg, ReturnMsg}
use nox13_interserver.Interserver.HttpServer.{
  Server, Phase, at_lock, holds, waits, after_wait, closed, Step, arrive, lock, accept, timed_lock,
  timeout, finish, listen, respond, cleared, reply_of,
}
use nox13_interserver.Interserver.HttpServer.Stages.{
  Closed, InOrder, Steps, here, then, Shape, Stage, idle, wanting, holding, asked, owed, answered,
  got, InTurn, InTurn-Moved,
}

module _ (s : Server) (ts : List Phase) where
  after_lock :
      Stage s (some at_lock) → Stage (record s { locked = true; threads = ts }) (some holds)
  after_lock (wanting f1 f2 f3 f4 f5) = holding f2 refl f3 f4 f5

  after_accept :
      Stage s (some holds) → Stage (record s { accept_post = true; threads = ts }) (some waits)
  after_accept (holding f1 f2 f3 f4 f5) = asked f2 refl f3 f4 f5

  after_timed_lock :
      s.locked ≡ false
      → Stage s (some waits)
      → Stage (record s { locked = true; threads = ts }) (some (after_wait true))
  after_timed_lock h (asked f1 f2 f3 f4 f5) = cc
  after_timed_lock h (owed f1 f2 f3 f4 f5) = cc
  after_timed_lock h (answered f1 f2 f3 f4) = got f1 f2 f3 f4

  after_finish :
      (ret : Bool)
      → Stage s (some (after_wait ret))
      → Stage
          (record s {
            locked = false;
            request_msg = cleared;
            threads = ts;
            replies = s.replies ++ reply_of ret s.response ∷ [];
          })
          none
  after_finish true (got f1 f2 f3 f4) = idle refl f1 f2 f3 (sym f4)
  after_finish false stage = elim stage [ ]

module _ (s : Server) where
  open_stage : (p : Phase) → Stage s (some p) → p ≢ closed
  open_stage _ (wanting f1 f2 f3 f4 f5) e = cc
  open_stage _ (holding f1 f2 f3 f4 f5) e = cc
  open_stage _ (asked f1 f2 f3 f4 f5) e = cc
  open_stage _ (owed f1 f2 f3 f4 f5) e = cc
  open_stage _ (answered f1 f2 f3 f4) e = cc
  open_stage _ (got f1 f2 f3 f4) e = cc

  -- A thread that starts when the others are closed finds the stage idle.
  idle_stage :
      (head : Option Phase)
      → Shape head s.threads
      → All Closed s.threads
      → Stage s head
      → Stage s none
  idle_stage none hs hc st = st
  idle_stage (some p) (ps, (ht, hs)) hc st =
      absurd (open_stage p st (subst (λ l. All Closed l) ht hc).0)

  after_arrive :
      (q : RequestMsg)
      → Stage s none
      → Stage
          (record s {
            request_msg = q;
            threads = at_lock ∷ s.threads;
            requests = s.requests ++ q ∷ [];
          })
          (some at_lock)
  after_arrive q (idle f1 f2 f3 f4 f5) = wanting f1 f2 (ap (λ l. l ++ q ∷ []) f3) f4 f5

  after_listen :
      (head : Option Phase)
      → s.accept_post ≡ true
      → Stage s head
      → Stage (record s { accept_post = false; posted = s.posted ++ s.request_msg ∷ [] }) head
  after_listen _ h (asked f1 f2 f3 f4 f5) =
      owed f1 refl f3 (ground (arith, length-append s.posted (s.request_msg ∷ []))) f5
  after_listen _ h (idle f1 f2 f3 f4 f5) = cc
  after_listen _ h (wanting f1 f2 f3 f4 f5) = cc
  after_listen _ h (holding f1 f2 f3 f4 f5) = cc
  after_listen _ h (owed f1 f2 f3 f4 f5) = cc
  after_listen _ h (answered f1 f2 f3 f4) = cc
  after_listen _ h (got f1 f2 f3 f4) = cc

  after_respond :
      (head : Option Phase) (r : ReturnMsg)
      → length s.posted ≡ suc (length s.received)
      → Stage s head
      → Stage (record s { response = r; locked = false; received = s.received ++ r ∷ [] }) head
  after_respond _ r h (owed f1 f2 f3 f4 f5) =
      answered f2 f3 (ground (arith, length-append s.received (r ∷ [])))
        (ap (λ l. l ++ r ∷ []) (sym f5))
  after_respond _ r h (asked f1 f2 f3 f4 f5) = ground arith
  after_respond _ r h (idle f1 f2 f3 f4 f5) = ground arith
  after_respond _ r h (wanting f1 f2 f3 f4 f5) = ground arith
  after_respond _ r h (holding f1 f2 f3 f4 f5) = ground arith
  after_respond _ r h (answered f1 f2 f3 f4) = ground arith
  after_respond _ r h (got f1 f2 f3 f4) = ground arith

Step-InTurn : {s t : Server} → InTurn s → (x : Step s t) → InOrder x → InTurn t
Step-InTurn {s} v (arrive q) h = record {
  head = some at_lock;
  shape = (s.threads, (refl, h));
  stage = after_arrive s q (idle_stage s v.head v.shape h v.stage);
}
Step-InTurn {s} v (lock i h l) _ =
    let (stage, (go, over)) = InTurn-Moved s i at_lock v h (λ e. cc) in
    record { head = some holds; shape = go holds; stage = after_lock s _ stage }
Step-InTurn {s} v (accept i h) _ =
    let (stage, (go, over)) = InTurn-Moved s i holds v h (λ e. cc) in
    record { head = some waits; shape = go waits; stage = after_accept s _ stage }
Step-InTurn {s} v (timed_lock i h l) _ =
    let (stage, (go, over)) = InTurn-Moved s i waits v h (λ e. cc) in
    record {
      head = some (after_wait true);
      shape = go (after_wait true);
      stage = after_timed_lock s _ l stage;
    }
Step-InTurn {s} v (timeout i h) e = elim e [ ]
Step-InTurn {s} v (finish i ret h) _ =
    let (stage, (go, over)) = InTurn-Moved s i (after_wait ret) v h (λ e. cc) in
    record { head = none; shape = over; stage = after_finish s _ ret stage }
Step-InTurn {s} v (listen h) _ = record {
  head = v.head;
  shape = v.shape;
  stage = after_listen s v.head h v.stage;
}
Step-InTurn {s} v (respond r) h = record {
  head = v.head;
  shape = v.shape;
  stage = after_respond s v.head r h v.stage;
}

Steps-InTurn : {s t : Server} → InTurn s → Steps s t → InTurn t
Steps-InTurn v here = v
Steps-InTurn v (then steps x h) = Step-InTurn (Steps-InTurn v steps) x h

-- The server when the program starts.
abbrev pub new_server : ReturnMsg → Server
new_server response = record {
  accept_post = false;
  request_msg = cleared;
  response = response;
  locked = false;
  threads = [];
  requests = [];
  posted = [];
  received = [];
  replies = [];
}

new_server-InTurn : (response : ReturnMsg) → InTurn (new_server response)
new_server-InTurn response = record {
  head = none;
  shape = tt;
  stage = idle refl refl refl refl refl;
}

-- What holds when every thread is closed.
abbrev pub InStep : Server → Type 0
InStep s =
    (s.requests ≡ s.posted)
    × ((length s.posted ≡ length s.received) × ((s.replies ≡ s.received) × (s.locked ≡ false)))

stage-InStep : (s : Server) → Stage s none → InStep s
stage-InStep s (idle f1 f2 f3 f4 f5) = (f3, (f4, (f5, f1)))

-- Where clients come one after the other and are answered in time, and the component gets one response
-- for each request that it posts, after that, then whenever all threads are closed, the requests were
-- posted as they came, as many responses were received, these were sent to the clients in their order,
-- and the mutex is free.
pub Steps-InStep :
    (response : ReturnMsg) (s : Server)
    → Steps (new_server response) s
    → All Closed s.threads
    → InStep s
Steps-InStep response s steps h =
    let v = Steps-InTurn (new_server-InTurn response) steps in
    stage-InStep s (idle_stage s v.head v.shape h v.stage)
