-- ===== src/Interserver/Processor/Parts.antt =====
-- request_processor.hh and http_event.hh: the state; request_processor.cc, lines 45-114: the parts of
-- handle_request. A datapathid is its number in host order.
use text.Mathlib.Text.{◌==◌ as string_eq}
use Prim.Native.String.{◌++◌ as string_append}
use nox13_interserver.Common.{
  ℕ, Bool, true, false, Option, none, some, List, [], ◌∷◌, ◌++◌, String, if◌then◌else◌, ltb, ◌==◌,
  ◌-◌, ◌+◌, ◌^◌,
}
use nox13_interserver.Common.Outcome.{
  Outcome, ok, throws, undefined, Exception, std_exception, http_request_error,
}
use nox13_interserver.Interserver.Json.{Json, get_dict_value, get_string_noquotes}
use nox13_interserver.Interserver.Resolver.{Resolver}

pub record RequestMsg : Type 0 where
  pub url : String
  pub body : String

pub record ReturnMsg : Type 0 where
  pub response : String
  pub status : ℕ

abbrev pub e_ok : ℕ
e_ok = 200

abbrev pub e_bad_request : ℕ
e_bad_request = 400

abbrev pub e_not_found : ℕ
e_not_found = 404

abbrev pub e_internal_server_error : ℕ
e_internal_server_error = 500

abbrev pub e_not_implemented : ℕ
e_not_implemented = 501

abbrev pub accepted : ReturnMsg
accepted = record { response = "Accepted\n"; status = e_ok }

abbrev pub invalid_path : ReturnMsg
invalid_path = record {
  response = "Invalid path for NOX interserver source\n";
  status = e_not_implemented;
}

-- The component, its responses (Http_response_event) in the order they are posted, the static
-- type_hash of interpret_type, which is none before its first call, and where its thread sleeps:
-- for WAIT_FOR_REQ seconds, or for the microsecond of the poll.
pub record RequestProcessor (Message : Type 0) : Type 0 where
  pub auto_mutex : Bool
  pub reply_state : Bool
  pub dpids : List ℕ
  pub resolver : Resolver Message
  pub type_hash : Option (List String)
  pub wait_sleeping : Bool
  pub posted : List ReturnMsg

-- The two handlers of an exception in handle_request
unfoldable pub construct_return : Exception → ReturnMsg
construct_return (std_exception what) = record { response = what; status = e_internal_server_error }
construct_return (http_request_error what status) = record { response = what; status = status }

unfoldable pub find_string : String → List String → Bool
find_string k [] = false
find_string k (j ∷ js) = if string_eq j k then true else find_string k js

unfoldable pub find_dpid : ℕ → List ℕ → Bool
find_dpid d [] = false
find_dpid d (e ∷ es) = if e == d then true else find_dpid d es

-- erase(find(…)): without the datapath, the end is erased, which is undefined.
unfoldable pub erase_dpid : ℕ → List ℕ → Outcome (List ℕ)
erase_dpid d [] = undefined
erase_dpid d (e ∷ es) =
    let rest = erase_dpid d es in
    if e == d
    then ok es
    else elim rest [ ok fs ↦ ok (e ∷ fs) | throws x ↦ throws x | undefined ↦ undefined ]

-- The int of atoi as the uint64_t of from_host: its sign is extended.
unfoldable pub from_host_int : ℕ → ℕ
from_host_int i = if ltb i (2 ^ 31) then i else i + (2 ^ 64 - 2 ^ 32)

unfoldable pub interpret_checkerror : Json → Outcome Bool
unfolding get_dict_value get_string_noquotes
interpret_checkerror jobj = elim (get_dict_value "checkerror" jobj) [
  | ok none ↦ ok false
  | ok (some t) ↦ ok (if string_eq (get_string_noquotes t) "yes" then true else false)
  | throws e ↦ throws e
  | undefined ↦ undefined
]

unfoldable pub interpret_dpid : (String → ℕ) → Json → Outcome ℕ
unfolding get_dict_value get_string_noquotes from_host_int
interpret_dpid atoi jobj = elim (get_dict_value "dpid" jobj) [
  | ok none ↦ throws (http_request_error "POST data must have dpid field!\n" e_bad_request)
  | ok (some t) ↦
      let id = atoi (get_string_noquotes t) in
      if id == 0
      then throws (http_request_error "POST data containes invalid dpid value\n" e_bad_request)
      else ok (from_host_int id)
  | throws e ↦ throws e
  | undefined ↦ undefined
]

abbrev pub missing_dpid : (ℕ → String) → ℕ → String
missing_dpid dpid_string id =
    string_append "Switch with datapathid " (string_append (dpid_string id) " is not exist\n")

unfoldable pub dpid_check : (ℕ → String) → List ℕ → ℕ → Outcome (Unit {0})
unfolding find_dpid
dpid_check dpid_string dpids id =
    if find_dpid id dpids
    then ok tt
    else throws (http_request_error (missing_dpid dpid_string id) e_not_found)

-- A part of the body of the try block: what it leaves, and how it ends.
abbrev pub Attempt : Type 0 → Type 0 → Type 0
Attempt Message A = RequestProcessor Message → RequestProcessor Message × Outcome A

infixl 5 ◌then_do◌
abbrev pub ◌then_do◌ :
    {Message A B : Type 0} → Attempt Message A → (A → Attempt Message B) → Attempt Message B
(m then_do f) s =
    let (t, r) = m s in
    elim r [ ok a ↦ f a t | throws e ↦ (t, throws e) | undefined ↦ (t, undefined) ]

abbrev pub attempt : {Message A : Type 0} → Outcome A → Attempt Message A
attempt r s = (s, r)

abbrev pub on_resolver :
    {Message A : Type 0} → (Resolver Message → Resolver Message × A) → Attempt Message A
on_resolver f s = let (r, a) = f s.resolver in (record s { resolver = r }, ok a)

module _ {Message : Type 0} where
  unfoldable pub post_response : ReturnMsg → RequestProcessor Message → RequestProcessor Message
  post_response r s =
      if s.reply_state then record s { reply_state = false; posted = s.posted ++ r ∷ [] } else s

  unfoldable pub interpret_type : Json → Attempt Message String
  unfolding find_string get_dict_value get_string_noquotes
  interpret_type jobj s =
      let types : List String = elim s.type_hash [ none ↦ s.resolver.res_ids | some ts ↦ ts ] in
      (
        record s { type_hash = some types },
        elim (get_dict_value "type" jobj) [
          | ok none ↦ throws (http_request_error "POST data must have type field!\n" e_bad_request)
          | ok (some v) ↦
              if find_string (get_string_noquotes v) types
              then ok (get_string_noquotes v)
              else throws
                  (http_request_error "POST data containes invalid type field\n" e_bad_request)
          | throws e ↦ throws e
          | undefined ↦ undefined
        ],
      )

  -- After resolve_request
  abbrev pub finish_request : Bool → Json → ℕ → Attempt Message (Unit {0})
  finish_request mod_req a send_good =
      if send_good == 0
      then (attempt (interpret_checkerror a) then_do λ check s. (
        if mod_req
            then if check then record s { auto_mutex = true } else post_response accepted s
            else s,
        ok tt,
      ))
      else attempt (
          throws
            (http_request_error "nox_core sending interactor msg error\n" e_internal_server_error))

  -- The two handlers of the try block
  abbrev pub reply_to :
      RequestProcessor Message × Outcome (Unit {0}) → Outcome (RequestProcessor Message)
  reply_to (t, ok _) = ok t
  reply_to (t, throws e) = ok (post_response (construct_return e) t)
  reply_to (t, undefined) = undefined
