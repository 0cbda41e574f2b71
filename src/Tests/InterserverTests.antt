-- ===== src/Tests/InterserverTests.antt =====
-- The request processor with one interactor, which asks a switch for its description.
use text.Mathlib.Text.{◌==◌ as string_eq}
use nox13_interserver.Common.{
  arith, ℕ, ◌≤◌, ◌+◌, ◌≡◌, refl, true, false, some, none, List, [], ◌∷◌, String, if◌then◌else◌,
}
use nox13_interserver.Common.Outcome.{Outcome, ok}
use nox13_interserver.Interserver.Json.{
  Json, null, string, dict, end, field, get_dict_value, get_string_noquotes, find_field,
}
use nox13_interserver.Interserver.Resolver.{
  Interactor, find_object, init_interactor, resolver_is_modify, resolve_request,
}
use nox13_interserver.Interserver.Processor.{
  RequestProcessor, ReturnMsg, RequestMsg, Input, request, reply, join, timer,
  datapath_join_handler, handle_request, run_inputs, wake, step, accepted, post_response,
  process_request, interpret_type, find_string, find_dpid, from_host_int, handle_reply,
  interpret_checkerror, interpret_dpid, dpid_check,
}
use nox13_interserver.Interserver.Replies.{handle_request-Served, Served}
use nox13_interserver.Interserver.Counting.{run_inputs-owed, owed, requests}
use nox13_interserver.Interserver.Awaited.{Answered, run_inputs-Answered}

-- A message is its type, and every message is taken.
abbrev desc : Interactor ℕ
desc = record { is_modify = false; request_msg_creator = λ a. ok 18 }

abbrev mod_port : Interactor ℕ
mod_port = record { is_modify = true; request_msg_creator = λ a. ok 16 }

abbrev both_classes : List (String × Interactor ℕ)
both_classes = ("desc", desc) ∷ ("port_mod", mod_port) ∷ []

abbrev document : String → Json
document body =
    if string_eq body "desc"
    then dict (field "type" (string "desc") (field "dpid" (string "7") end))
    else if string_eq body "port_mod"
    then dict (
        field "type" (string "port_mod")
          (field "dpid" (string "7") (field "checkerror" (string "yes") end)))
    else null

abbrev atoi_7 : String → ℕ
atoi_7 s = if string_eq s "7" then 7 else 0

abbrev seven : ℕ → String
seven d = "00:00:00:00:00:07"

abbrev send_ok : ℕ → ℕ → ℕ
send_ok d m = 0

abbrev to_path : String → RequestMsg
to_path body = record { url = "/switches/info"; body = body }

abbrev processor : RequestProcessor ℕ
processor = record {
  auto_mutex = false;
  reply_state = false;
  dpids = 7 ∷ [];
  resolver = record {
    factory = ("desc", desc) ∷ ("port_mod", mod_port) ∷ [];
    res_ids = "desc" ∷ "port_mod" ∷ [];
    temp = none;
    sent = [];
  };
  type_hash = none;
  wait_sleeping = false;
  posted = [];
}

abbrev awaiting : RequestProcessor ℕ
awaiting = record processor {
  reply_state = true;
  type_hash = some ("desc" ∷ "port_mod" ∷ []);
  resolver = record {
    factory = ("desc", desc) ∷ ("port_mod", mod_port) ∷ [];
    res_ids = "desc" ∷ "port_mod" ∷ [];
    temp = none;
    sent = (7, 18) ∷ [];
  };
}

-- A request for the description is sent to datapath 7 and waits for the reply.
asks : handle_request document atoi_7 seven send_ok (to_path "desc") processor ≡ ok awaiting
unfolding handle_request process_request interpret_type interpret_checkerror interpret_dpid
    dpid_check get_dict_value get_string_noquotes find_field find_string find_dpid from_host_int
    init_interactor resolver_is_modify resolve_request find_object post_response
asks = refl

handle_request-Served_example : Served send_ok (document "desc") processor awaiting
handle_request-Served_example =
    handle_request-Served send_ok document atoi_7 seven (to_path "desc") processor awaiting asks

abbrev answered : RequestProcessor ℕ
answered = record awaiting {
  reply_state = false;
  posted = record { response = "switch 7"; status = 200 } ∷ [];
}

-- Its reply is the response; a second reply is not.
asks_once :
    run_inputs document atoi_7 seven send_ok processor
      (request (to_path "desc") ∷ reply "switch 7" ∷ reply "again" ∷ [])
    ≡ ok answered
unfolding run_inputs step handle_request process_request interpret_type interpret_checkerror
    interpret_dpid dpid_check get_dict_value get_string_noquotes find_field find_string find_dpid
    from_host_int init_interactor resolver_is_modify resolve_request find_object post_response
    handle_reply
asks_once = refl

run_inputs-owed_example :
    owed answered
    ≤ requests (request (to_path "desc") ∷ reply "switch 7" ∷ reply "again" ∷ []) + owed processor
run_inputs-owed_example =
    run_inputs-owed document atoi_7 seven send_ok
      (request (to_path "desc") ∷ reply "switch 7" ∷ reply "again" ∷ []) processor answered
      asks_once

abbrev checked : RequestProcessor ℕ
checked = record awaiting { auto_mutex = true }

-- The error of a modify request comes after the thread has woken once.
abbrev error_arrives : List Input
error_arrives = timer ∷ join 8 ∷ reply "bad port" ∷ timer ∷ []

abbrev error_told : RequestProcessor ℕ
error_told = record checked {
  auto_mutex = false;
  reply_state = false;
  dpids = 7 ∷ 8 ∷ [];
  posted = record { response = "bad port"; status = 200 } ∷ [];
}

tells_error : run_inputs document atoi_7 seven send_ok checked error_arrives ≡ ok error_told
unfolding run_inputs step wake handle_reply post_response datapath_join_handler
tells_error = refl

run_inputs-Answered_example : Answered checked error_arrives error_told
run_inputs-Answered_example =
    run_inputs-Answered document atoi_7 seven send_ok error_arrives checked error_told refl refl
      (ground arith) tells_error

abbrev responses : Outcome (RequestProcessor ℕ) → List ReturnMsg
responses (ok s) = s.posted
responses o = []

-- A modify request that asks for errors gets one while the thread sleeps; the next request, which
-- waits for the reply of its switch, is then answered "Accepted" when that sleep ends.
stale_timer :
    responses (
      run_inputs document atoi_7 seven send_ok processor (
        request (to_path "port_mod")
        ∷ timer
        ∷ reply "bad port"
        ∷ request (to_path "desc")
        ∷ timer
        ∷ []))
    ≡ record { response = "bad port"; status = 200 } ∷ accepted ∷ []
unfolding run_inputs step handle_request process_request interpret_type interpret_checkerror
    interpret_dpid dpid_check get_dict_value get_string_noquotes find_field find_string find_dpid
    from_host_int init_interactor resolver_is_modify resolve_request find_object post_response
    handle_reply wake
stale_timer = refl
