-- ===== src/Interserver/Awaited.antt =====
-- The thread of the request processor that answers a modify request whose errors are asked for
-- (request_processor.cc, lines 20-47), with the replies that come before it wakes.
use nox13_interserver.Common.{
  ℕ, Bool, true, false, List, [], ◌∷◌, ◌++◌, String, if◌then◌else◌, suc, ◌≤◌, ◌≡◌, arith,
}
use nox13_interserver.Common.Outcome.{ok, >>=-eq-ok}
use nox13_interserver.Interserver.Json.{Json}
use nox13_interserver.Interserver.Processor.{
  RequestProcessor, ReturnMsg, Input, request, reply, join, leave, timer, post_response,
  datapath_join_handler, datapath_leave_handler, handle_reply, wake, run_inputs, step, accepted,
  e_ok,
}
use nox13_interserver.Interserver.Counting.{requests}

-- How often the thread's sleep ends.
abbrev pub wakes : List Input → ℕ
wakes [] = 0
wakes (timer ∷ is) = suc (wakes is)
wakes (i ∷ is) = wakes is

-- The first answer: the reply of a switch, or "Accepted" where the second sleep of the thread ends
-- before one comes.
abbrev pub first_answer : Bool → List Input → ReturnMsg
first_answer sleeping [] = accepted
first_answer sleeping (reply r ∷ is) = record { response = r; status = e_ok }
first_answer true (timer ∷ is) = accepted
first_answer false (timer ∷ is) = first_answer true is
first_answer sleeping (request req ∷ is) = first_answer sleeping is
first_answer sleeping (join d ∷ is) = first_answer sleeping is
first_answer sleeping (leave d ∷ is) = first_answer sleeping is

module _ {Message : Type 0} where
  -- No response is to come, and the thread waits for a request to set its flag.
  abbrev pub Idle : RequestProcessor Message → Type 0
  Idle s = (s.reply_state ≡ false) × (s.auto_mutex ≡ false) × (s.wait_sleeping ≡ false)

  abbrev pub Answered : RequestProcessor Message → List Input → RequestProcessor Message → Type 0
  Answered s is t =
      Idle t
      × (t.posted
          ≡ (if s.reply_state then s.posted ++ first_answer s.wait_sleeping is ∷ [] else s.posted))

  -- How often the sleep still has to end before the thread is idle.
  abbrev due : RequestProcessor Message → ℕ
  due s = if s.wait_sleeping then 1 else if s.auto_mutex then 2 else 0

  -- An idle thread leaves no response to come.
  abbrev Quiet : RequestProcessor Message → Type 0
  Quiet s = due s ≡ 0 → s.reply_state ≡ false

  handle_reply-Answered :
      (r : String) (s t : RequestProcessor Message) (is : List Input)
      → Answered (handle_reply r s) is t
      → Answered s (reply r ∷ is) t
  unfolding handle_reply post_response
  handle_reply-Answered r s t is h = ground arith

  handle_reply-due :
      (r : String) (s : RequestProcessor Message)
      → (due (handle_reply r s) ≡ due s) × ((handle_reply r s).reply_state ≡ false)
  unfolding handle_reply post_response
  handle_reply-due r s = ground arith

  wake-Answered :
      (s t : RequestProcessor Message) (is : List Input)
      → Quiet s
      → Answered (wake s) is t
      → Answered s (timer ∷ is) t
  unfolding wake post_response
  wake-Answered s t is q h = ground arith

  wake-due :
      (s : RequestProcessor Message) (n : ℕ)
      → Quiet s
      → due s ≤ suc n
      → (due (wake s) ≤ n) × Quiet (wake s)
  unfolding wake post_response
  wake-due s n q h = ground arith

  abbrev Same : RequestProcessor Message → RequestProcessor Message → Type 0
  Same s t =
      (t.reply_state ≡ s.reply_state)
      × (t.auto_mutex ≡ s.auto_mutex)
      × (t.wait_sleeping ≡ s.wait_sleeping)
      × (t.posted ≡ s.posted)

  leave-Same :
      (d : ℕ) (s t : RequestProcessor Message) → datapath_leave_handler d s ≡ ok t → Same s t
  unfolding datapath_leave_handler
  leave-Same d s t h = ground arith

  leave-Answered :
      (d : ℕ) (s u t : RequestProcessor Message) (is : List Input)
      → Same s u
      → Answered u is t
      → Answered s (leave d ∷ is) t
  leave-Answered d s u t is same h = ground arith

module _ {Message : Type 0} (parse : String → Json) (atoi : String → ℕ) (dpid_string : ℕ → String)
    (send : ℕ → Message → ℕ) where
  run-Answered :
      (is : List Input) (s t : RequestProcessor Message)
      → requests is ≡ 0
      → due s ≤ wakes is
      → Quiet s
      → run_inputs parse atoi dpid_string send s is ≡ ok t
      → Answered s is t
  unfolding run_inputs step datapath_join_handler
  run-Answered [] s t h0 h1 h2 e = ground arith
  run-Answered (request req ∷ is) s t h0 h1 h2 e = ground arith
  run-Answered (reply r ∷ is) s t h0 h1 h2 e =
      let (same, none_due) = handle_reply-due r s in
      handle_reply-Answered r s t is
        (run-Answered is (handle_reply r s) t h0 (ground arith) (λ _. none_due) e)
  run-Answered (join d ∷ is) s t h0 h1 h2 e =
      run-Answered is (datapath_join_handler d s) t h0 h1 h2 e
  run-Answered (leave d ∷ is) s t h0 h1 h2 e =
      let (u, hu, ht) = >>=-eq-ok (datapath_leave_handler d s) _ e in
      let same = leave-Same d s u hu in
      leave-Answered d s u t is same (run-Answered is u t h0 (ground arith) (λ z. ground arith) ht)
  run-Answered (timer ∷ is) s t h0 h1 h2 e =
      let (less, quiet) = wake-due s (wakes is) h2 h1 in
      wake-Answered s t is h2 (run-Answered is (wake s) t h0 less quiet e)

  -- Where a request has set the thread's flag and no other request follows, then, after any replies from
  -- switches, joins, leaves and at least two ends of the thread's sleeps whose handling is defined, no
  -- response is to come, the flag is clear and the thread does not wait for replies. If a response was to
  -- come, one has been posted since, which is the first reply of a switch, or "Accepted" if the thread's
  -- wait for replies ended before one came; otherwise none has been posted.
  pub run_inputs-Answered :
      (is : List Input) (s t : RequestProcessor Message)
      → s.auto_mutex ≡ true
      → requests is ≡ 0
      → 2 ≤ wakes is
      → run_inputs parse atoi dpid_string send s is ≡ ok t
      → Answered s is t
  run_inputs-Answered is s t h0 h1 h2 = run-Answered is s t h1 (ground arith) (λ z. ground arith)
