-- ===== src/Tests/AnswerTests.antt =====
-- The replies to a request for the statistics of ports, and a client that is answered.
use nox13_interserver.Common.{ℕ, ◌≡◌, refl, true, false, some, List, [], ◌∷◌, String, arith}
use nox13_interserver.Common.Outcome.{ok}
use nox13_interserver.Ethernet.{init_from_string, octets_string}
use nox13_interserver.Ethernet.RoundTrip.{init_from_string-octets_string}
use nox13_interserver.Interserver.Json.{Json, dict, end, get_dict_value, find_field}
use nox13_interserver.Interserver.Processor.{ReturnMsg, RequestMsg}
use nox13_interserver.Interserver.Resolver.{find_object}
use nox13_interserver.Interserver.Builders.Arguments.{find_if_exists, check_args, number_or}
use nox13_interserver.Interserver.Builders.Messages.{port_request}
use nox13_interserver.Interserver.Builders.Registry.{interactors}
use nox13_interserver.Interserver.Builders.Queries.{inter_port_stats, port_creator}
use nox13_interserver.Interserver.Answers.{Printers, port_stats_reply}
use nox13_interserver.Interserver.Answers.Dispatch.{answer}
use nox13_interserver.Interserver.Answers.Served.{interactors-answered}
use nox13_interserver.Interserver.Answers.Kinds.{to_port}
use nox13_interserver.Interserver.HttpServer.{
  Server, arrive, lock, accept, listen, respond, timed_lock, finish, timeout, closed, Reaches, stay,
  and, not_responses,
}
use nox13_interserver.Interserver.HttpServer.Stages.{Steps, here, then}
use nox13_interserver.Interserver.HttpServer.Sequential.{new_server, InStep, Steps-InStep}
use nox13_interserver.Tests.BuilderTests.{stand_in}

abbrev octets : List ℕ
octets = 0 ∷ 255 ∷ 16 ∷ 9 ∷ 160 ∷ 10 ∷ []

init_from_string-octets_string_example : init_from_string (octets_string octets) ≡ some octets
init_from_string-octets_string_example =
    init_from_string-octets_string octets
      (
        ground arith,
        (ground arith, (ground arith, (ground arith, (ground arith, (ground arith, tt))))),
      )
      refl

-- A struct is its text.
abbrev plain : Printers String
plain = record { decimal = λ n. "1"; to_string = λ f s. s }

abbrev no_args : Json
no_args = dict end

finds_port_stats :
    find_object "port_stats" (interactors stand_in) ≡ some (inter_port_stats stand_in)
unfolding find_object
finds_port_stats = refl

asks_all_ports : port_creator stand_in no_args ≡ ok (port_request 0xffffffff)
unfolding port_creator check_args number_or find_if_exists get_dict_value find_field
asks_all_ports = refl

interactors-answered_example :
    (text : String) × (answer plain (port_stats_reply ("eth0" ∷ [])) ≡ some (ok text))
interactors-answered_example =
    interactors-answered stand_in plain "port_stats" (inter_port_stats stand_in) no_args
      (port_request 0xffffffff) (port_stats_reply ("eth0" ∷ [])) finds_port_stats (λ h. cc)
      (λ h. cc) asks_all_ports (to_port 0xffffffff ("eth0" ∷ []))

abbrev question : RequestMsg
question = record { url = "/switches/info"; body = "desc" }

abbrev reply : ReturnMsg
reply = record { response = "switch 7"; status = 200 }

abbrev start : Server
start = new_server reply

abbrev at_end : Server
at_end = record start {
  threads = closed ∷ [];
  requests = question ∷ [];
  posted = question ∷ [];
  received = reply ∷ [];
  replies = reply ∷ [];
}

-- One client, from its request to its response.
one_client : Steps start at_end
one_client =
    then
      (then
        (then
          (then
            (then (then (then here (arrive question) tt) (lock 0 refl refl) tt) (accept 0 refl) tt)
            (listen refl) tt)
          (respond reply) refl)
        (timed_lock 0 refl refl) tt)
      (finish 0 true refl) tt

Steps-InStep_example : InStep at_end
Steps-InStep_example = Steps-InStep reply at_end one_client (refl, tt)

abbrev second_question : RequestMsg
second_question = record { url = "/switches/info"; body = "table_stats" }

-- A response that comes after the time limit is sent to the next client, whose request is not posted.
late_response :
    (s : Server) × (Reaches start s
      × ((s.requests ≡ question ∷ second_question ∷ [])
          × ((s.posted ≡ question ∷ []) × (s.replies ≡ not_responses ∷ reply ∷ []))))
late_response = (
  _,
  (
    and
        (and
          (and
            (and
              (and
                (and
                  (and
                    (and
                      (and
                        (and (and (and stay (arrive question)) (lock 0 refl refl)) (accept 0 refl))
                        (listen refl))
                      (timeout 0 refl))
                    (finish 0 false refl))
                  (arrive second_question))
                (lock 0 refl refl))
              (accept 0 refl))
            (respond reply))
          (timed_lock 0 refl refl))
        (finish 0 true refl),
    (refl, (refl, refl)),
  ),
)
