-- ===== src/Interserver/HttpServer.antt =====
-- interserver.cc: the handlers of the HTTP server, each in a thread of its own, and the component, with
-- the record that they share. The mutex is a flag that whoever unlocks it clears, which is what the
-- code relies on; cpp-netlib's server and the event core only call what is here.
pub mod Stages
pub mod Sequential
use nox13_interserver.Common.{
  ℕ, zero, suc, Bool, true, false, Option, none, some, List, [], ◌∷◌, ◌++◌, String, ◌≡◌, get_elem?,
}
use nox13_interserver.Interserver.Processor.{RequestMsg, ReturnMsg}

-- Where a thread in http_handler::operator() stands: at `lock`, at the write of _accept_post, in
-- `timed_lock`, after it with its result, or past its end.
pub data Phase : Type 0 where
  at_lock holds waits : Phase
  after_wait : Bool → Phase
  closed : Phase

-- Request_process_Info, the threads, the last one first, and what has gone each way: the requests of
-- the clients and the responses to them, the Http_request_events and the Http_response_events.
pub record Server : Type 0 where
  pub accept_post : Bool
  pub request_msg : RequestMsg
  pub response : ReturnMsg
  pub locked : Bool
  pub threads : List Phase
  pub requests : List RequestMsg
  pub posted : List RequestMsg
  pub received : List ReturnMsg
  pub replies : List ReturnMsg

-- Request_msg::clear
abbrev pub cleared : RequestMsg
cleared = record { url = ""; body = "" }

abbrev pub e_service_unavailable : ℕ
e_service_unavailable = 503

abbrev pub not_responses : ReturnMsg
not_responses = record { response = "Datapathid not responses\n"; status = e_service_unavailable }

abbrev pub set_phase : ℕ → Phase → List Phase → List Phase
set_phase i x [] = []
set_phase zero x (p ∷ ps) = x ∷ ps
set_phase (suc i) x (p ∷ ps) = p ∷ set_phase i x ps

-- The response of a thread, by what timed_lock returned.
abbrev pub reply_of : Bool → ReturnMsg → ReturnMsg
reply_of true r = r
reply_of false r = not_responses

-- The end of the handler: it takes the response, unlocks and clears the request.
abbrev pub close_handler : ℕ → Bool → Server → Server
close_handler i ret s = record s {
  locked = false;
  request_msg = cleared;
  threads = set_phase i closed s.threads;
  replies = s.replies ++ reply_of ret s.response ∷ [];
}

-- listen_state, where it finds a request.
abbrev pub listen_state : Server → Server
listen_state s = record s { accept_post = false; posted = s.posted ++ s.request_msg ∷ [] }

abbrev pub response_handler : ReturnMsg → Server → Server
response_handler r s = record s { response = r; locked = false; received = s.received ++ r ∷ [] }

-- What a thread does next, or the component.
pub data Step (s : Server) : Server → Type 0 where
  -- A handler starts, and writes the request.
  arrive :
      (q : RequestMsg)
      → Step s (record s {
        request_msg = q;
        threads = at_lock ∷ s.threads;
        requests = s.requests ++ q ∷ [];
      })
  lock :
      (i : ℕ)
      → get_elem? s.threads i ≡ some at_lock
      → s.locked ≡ false
      → Step s (record s { locked = true; threads = set_phase i holds s.threads })
  accept :
      (i : ℕ)
      → get_elem? s.threads i ≡ some holds
      → Step s (record s { accept_post = true; threads = set_phase i waits s.threads })
  timed_lock :
      (i : ℕ)
      → get_elem? s.threads i ≡ some waits
      → s.locked ≡ false
      → Step s (record s { locked = true; threads = set_phase i (after_wait true) s.threads })
  timeout :
      (i : ℕ)
      → get_elem? s.threads i ≡ some waits
      → Step s (record s { threads = set_phase i (after_wait false) s.threads })
  finish :
      (i : ℕ) (ret : Bool)
      → get_elem? s.threads i ≡ some (after_wait ret)
      → Step s (close_handler i ret s)
  listen : s.accept_post ≡ true → Step s (listen_state s)
  respond : (r : ReturnMsg) → Step s (response_handler r s)

-- Any number of steps.
pub data Reaches (s : Server) : Server → Type 0 where
  stay : Reaches s s
  and : {t u : Server} → Reaches s t → Step t u → Reaches s u
