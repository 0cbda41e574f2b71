-- ===== src/Interserver/Counting.antt =====
-- Over any sequence of inputs, the request processor's responses against the requests it was given.
use nox13_interserver.Common.{
  ℕ, List, [], ◌∷◌, String, if◌then◌else◌, length, length-append, suc, ◌+◌, ◌≤◌, ◌≡◌, ap, arith,
  inl, inr,
}
use nox13_interserver.Common.Outcome.{ok, >>=-eq-ok}
use nox13_interserver.Interserver.Json.{Json}
use nox13_interserver.Interserver.Replies.{handle_request-Served, Served}
use nox13_interserver.Interserver.Processor.{
  RequestProcessor, ReturnMsg, Input, request, reply, join, leave, timer, post_response,
  datapath_leave_handler, wake, run_inputs, step, accepted, e_ok,
}

abbrev pub requests : List Input → ℕ
requests [] = 0
requests (request req ∷ is) = suc (requests is)
requests (i ∷ is) = requests is

module _ {Message : Type 0} where
  -- The responses posted, and the one that is still to come.
  abbrev pub owed : RequestProcessor Message → ℕ
  owed s = length s.posted + (if s.reply_state then 1 else 0)

  owed-post_response :
      (r : ReturnMsg) (s : RequestProcessor Message) → owed (post_response r s) ≡ owed s
  unfolding post_response
  owed-post_response r s = ground (arith, length-append s.posted (r ∷ []))

  owed-wake : (s : RequestProcessor Message) → owed (wake s) ≡ owed s
  unfolding wake
  owed-wake s = ground (arith, owed-post_response accepted s)

  owed-leave :
      (d : ℕ) (s t : RequestProcessor Message) → datapath_leave_handler d s ≡ ok t → owed t ≡ owed s
  unfolding datapath_leave_handler
  owed-leave d s t h = ground arith

  owed-Served :
      (send : ℕ → Message → ℕ) (a : Json) (s t : RequestProcessor Message)
      → Served send a s t
      → owed t ≤ suc (owed s)
  owed-Served send a s t (inl (x, ((hr, hp), hx))) =
      ground (arith, ap length hp, length-append s.posted (x ∷ []))
  owed-Served send a s t (inr (hr, hp, hs)) = ground (arith, ap length hp)

module _ {Message : Type 0} (parse : String → Json) (atoi : String → ℕ) (dpid_string : ℕ → String)
    (send : ℕ → Message → ℕ) where
  step-owed :
      (i : Input) (s t : RequestProcessor Message)
      → step parse atoi dpid_string send s i ≡ ok t
      → owed t ≤ requests (i ∷ []) + owed s
  unfolding step
  step-owed (request req) s t h = ground (
    arith,
    owed-Served send (parse req.body) s t
        (handle_request-Served send parse atoi dpid_string req s t h),
  )
  step-owed (reply r) s t h =
      ground (arith, owed-post_response (record { response = r; status = e_ok }) s)
  step-owed (join d) s t h = ground arith
  step-owed (leave d) s t h = ground (arith, owed-leave d s t h)
  step-owed timer s t h = ground (arith, owed-wake s)

  requests-cons :
      (i : Input) (is : List Input) → requests (i ∷ is) ≡ requests (i ∷ []) + requests is
  requests-cons (request req) is = omega arith
  requests-cons (reply r) is = omega arith
  requests-cons (join d) is = omega arith
  requests-cons (leave d) is = omega arith
  requests-cons timer is = omega arith

  -- Over any sequence of requests, replies from switches, joins, leaves and ends of the thread's sleep
  -- whose handling is defined, the responses posted and the one still to come are together at most as
  -- many as those at the start and the requests of the sequence.
  pub run_inputs-owed :
      (is : List Input) (s t : RequestProcessor Message)
      → run_inputs parse atoi dpid_string send s is ≡ ok t
      → owed t ≤ requests is + owed s
  unfolding run_inputs
  run_inputs-owed [] s t h = ground arith
  run_inputs-owed (i ∷ is) s t h =
      let (u, hu, ht) = >>=-eq-ok (step parse atoi dpid_string send s i) _ h in
      ground (arith, step-owed i s u hu, run_inputs-owed is u t ht, requests-cons i is)
