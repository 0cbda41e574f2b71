-- ===== src/Interserver/Processor.antt =====
-- request_processor.cc, with http_event.hh. The parameters are what the code calls: the JSON parser
-- (a text it refuses gives null), atoi (the 32 bits of its int), datapathid::string and the core's
-- send_openflow_msg. A datapathid is its number in host order.
pub mod Parts
unfoldable pub use Parts.*
use text.Mathlib.Text.{◌==◌ as string_eq}
use nox13_interserver.Common.{
  ℕ, Bool, true, false, List, [], ◌∷◌, ◌++◌, String, if◌then◌else◌, ◌-◌, ◌+◌,
}
use nox13_interserver.Common.Outcome.{Outcome, ok, throws, undefined, http_request_error, ◌>>=◌}
use nox13_interserver.Interserver.Json.{Json, null}
use nox13_interserver.Interserver.Resolver.{init_interactor, resolver_is_modify, resolve_request}

module _ {Message : Type 0} (send : ℕ → Message → ℕ) where
  abbrev pub resolve_for : Json → Bool → ℕ → Attempt Message (Unit {0})
  resolve_for a mod_req did =
      on_resolver (resolve_request send did a) then_do attempt then_do finish_request mod_req a

module _ {Message : Type 0} (atoi : String → ℕ) (dpid_string : ℕ → String)
    (send : ℕ → Message → ℕ) where
  -- Where no interactor is found, the http_request_error is made and not thrown, so that is_modify
  -- throws.
  abbrev pub for_type : Json → String → Attempt Message (Unit {0})
  for_type a tp = on_resolver (init_interactor tp) then_do λ inited s.
      (attempt (resolver_is_modify s.resolver) then_do λ mod_req.
      attempt (interpret_dpid atoi a) then_do λ did.
      attempt (dpid_check dpid_string s.dpids did) then_do λ _. resolve_for send a mod_req did)
        s

  abbrev pub process_object : Json → Attempt Message (Unit {0})
  process_object a = interpret_type a then_do for_type a

  abbrev pub process_json : Json → Attempt Message (Unit {0})
  process_json null =
      attempt (throws (http_request_error "Invalid POST data format, must be JSON\n" e_bad_request))
  process_json a = process_object a

module _ {Message : Type 0} (parse : String → Json) (atoi : String → ℕ) (dpid_string : ℕ → String)
    (send : ℕ → Message → ℕ) where
  -- The try block of handle_request
  unfoldable pub process_request : RequestMsg → Attempt Message (Unit {0})
  unfolding interpret_type interpret_checkerror interpret_dpid dpid_check
  process_request req =
      if string_eq req.body ""
      then attempt (throws (http_request_error "POST data not found!\n" e_not_found))
      else process_json atoi dpid_string send (parse req.body)

  unfoldable pub handle_request :
      RequestMsg → RequestProcessor Message → Outcome (RequestProcessor Message)
  unfolding process_request post_response construct_return
  handle_request req s =
      let s1 = record s { reply_state = true } in
      if string_eq req.url "/switches/info"
      then reply_to (process_request req s1)
      else ok (post_response invalid_path s1)

module _ {Message : Type 0} where
  unfoldable pub handle_reply : String → RequestProcessor Message → RequestProcessor Message
  unfolding post_response
  handle_reply reply = post_response record { response = reply; status = e_ok }

  unfoldable pub datapath_join_handler : ℕ → RequestProcessor Message → RequestProcessor Message
  datapath_join_handler d s = record s { dpids = s.dpids ++ d ∷ [] }

  unfoldable pub datapath_leave_handler :
      ℕ → RequestProcessor Message → Outcome (RequestProcessor Message)
  unfolding erase_dpid
  datapath_leave_handler d s = elim (erase_dpid d s.dpids) [
    | ok ds ↦ ok (record s { dpids = ds })
    | throws e ↦ throws e
    | undefined ↦ undefined
  ]

  -- auto_set_reply from one co_sleep to the next.
  unfoldable pub wake : RequestProcessor Message → RequestProcessor Message
  unfolding post_response
  wake s =
      if s.wait_sleeping
      then record (post_response accepted s) { auto_mutex = false; wait_sleeping = false }
      else record s { wait_sleeping = s.auto_mutex }

-- What reaches the component, and `timer` for the end of its thread's sleep.
pub data Input : Type 0 where
  request : RequestMsg → Input
  reply : String → Input
  join : ℕ → Input
  leave : ℕ → Input
  timer : Input

module _ {Message : Type 0} (parse : String → Json) (atoi : String → ℕ) (dpid_string : ℕ → String)
    (send : ℕ → Message → ℕ) where
  unfoldable pub step : RequestProcessor Message → Input → Outcome (RequestProcessor Message)
  unfolding handle_request handle_reply datapath_join_handler datapath_leave_handler wake
  step s (request req) = handle_request parse atoi dpid_string send req s
  step s (reply r) = ok (handle_reply r s)
  step s (join d) = ok (datapath_join_handler d s)
  step s (leave d) = datapath_leave_handler d s
  step s timer = ok (wake s)

  unfoldable pub run_inputs :
      RequestProcessor Message → List Input → Outcome (RequestProcessor Message)
  unfolding step
  run_inputs s [] = ok s
  run_inputs s (i ∷ is) = step s i >>= λ t. run_inputs t is
