-- ===== src/Interserver/HttpServer/Stages.antt =====
-- The stages of a client that is served alone (interserver.cc, lines 27-62 and 123-145).
use nox13_interserver.Common.{
  ℕ, zero, suc, true, false, Option, none, some, List, [], ◌∷◌, ◌++◌, All, ◌≡◌, ◌≢◌, refl, subst,
  length, get_elem?,
}
use nox13_interserver.Interserver.HttpServer.{
  Server, Phase, at_lock, holds, waits, after_wait, closed, Step, arrive, timeout, respond,
  set_phase,
}

abbrev pub Closed : Phase → Type 0
Closed p = p ≡ closed

-- A step of clients that come one after the other and are answered in time, where the component gets
-- one response for each request that it posts, after that.
abbrev pub InOrder : {s t : Server} → Step s t → Type 0
InOrder {s} (arrive q) = All Closed s.threads
InOrder (timeout i h) = ⊥
InOrder {s} (respond r) = length s.posted ≡ suc (length s.received)
InOrder step = Unit

pub data Steps (s : Server) : Server → Type 0 where
  here : Steps s s
  then : {t u : Server} → Steps s t → (x : Step t u) → InOrder x → Steps s u

-- The threads, where all but the last one to start are closed, and that one is in a phase.
abbrev pub Shape : Option Phase → List Phase → Type 0
Shape none ts = All Closed ts
Shape (some p) ts = (ps : List Phase) × ((ts ≡ p ∷ ps) × All Closed ps)

-- How far the last thread to start has come, with what is shared.
pub data Stage (s : Server) : Option Phase → Type 0 where
  idle :
      s.locked ≡ false
      → s.accept_post ≡ false
      → s.requests ≡ s.posted
      → length s.posted ≡ length s.received
      → s.replies ≡ s.received
      → Stage s none
  wanting :
      s.locked ≡ false
      → s.accept_post ≡ false
      → s.requests ≡ s.posted ++ s.request_msg ∷ []
      → length s.posted ≡ length s.received
      → s.replies ≡ s.received
      → Stage s (some at_lock)
  holding :
      s.accept_post ≡ false
      → s.locked ≡ true
      → s.requests ≡ s.posted ++ s.request_msg ∷ []
      → length s.posted ≡ length s.received
      → s.replies ≡ s.received
      → Stage s (some holds)
  asked :
      s.locked ≡ true
      → s.accept_post ≡ true
      → s.requests ≡ s.posted ++ s.request_msg ∷ []
      → length s.posted ≡ length s.received
      → s.replies ≡ s.received
      → Stage s (some waits)
  owed :
      s.locked ≡ true
      → s.accept_post ≡ false
      → s.requests ≡ s.posted
      → length s.posted ≡ suc (length s.received)
      → s.replies ≡ s.received
      → Stage s (some waits)
  answered :
      s.accept_post ≡ false
      → s.requests ≡ s.posted
      → length s.posted ≡ length s.received
      → s.received ≡ s.replies ++ s.response ∷ []
      → Stage s (some waits)
  got :
      s.accept_post ≡ false
      → s.requests ≡ s.posted
      → length s.posted ≡ length s.received
      → s.received ≡ s.replies ++ s.response ∷ []
      → Stage s (some (after_wait true))

pub record InTurn (s : Server) : Type 0 where
  pub head : Option Phase
  pub shape : Shape head s.threads
  pub stage : Stage s head

closed-elem :
    (ps : List Phase) (i : ℕ) (q : Phase) → All Closed ps → get_elem? ps i ≡ some q → q ≡ closed
closed-elem [] i q h e = cc
closed-elem (p ∷ ps) zero q (h, hs) e = cc
closed-elem (p ∷ ps) (suc i) q (h, hs) e = closed-elem ps i q hs e

-- A thread in another phase is the last to start, and may go on to any phase.
moves :
    (head : Option Phase) (ts : List Phase) (i : ℕ) (q : Phase)
    → Shape head ts
    → get_elem? ts i ≡ some q
    → q ≢ closed
    → (head ≡ some q)
      × (((x : Phase) → Shape (some x) (set_phase i x ts)) × Shape none (set_phase i closed ts))
moves none ts i q h e hq = absurd (hq (closed-elem ts i q h e))
moves (some p) [] i q (ps, (ht, hs)) e hq = cc
moves (some p) (r ∷ rs) zero q (ps, (ht, hs)) e hq =
    let rest : ps ≡ rs = cc in
    let closed_rest : All Closed rs = subst (λ l. All Closed l) rest hs in
    (cc, ((λ x. (rs, (refl, closed_rest))), (refl, closed_rest)))
moves (some p) (r ∷ rs) (suc i) q (ps, (ht, hs)) e hq =
    let rest : ps ≡ rs = cc in
    absurd (hq (closed-elem rs i q (subst (λ l. All Closed l) rest hs) e))

-- The stage of a thread that is not closed, with where it may go.
abbrev pub Moved : Server → ℕ → Phase → Type 0
Moved s i q =
    Stage s (some q)
    × (((x : Phase) → Shape (some x) (set_phase i x s.threads))
        × Shape none (set_phase i closed s.threads))

pub InTurn-Moved :
    (s : Server) (i : ℕ) (q : Phase)
    → InTurn s
    → get_elem? s.threads i ≡ some q
    → q ≢ closed
    → Moved s i q
InTurn-Moved s i q v h hq =
    let (hh, hm) = moves v.head s.threads i q v.shape h hq in
    (subst (λ p. Stage s p) hh v.stage, hm)
