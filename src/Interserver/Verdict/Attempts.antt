-- ===== src/Interserver/Verdict/Attempts.antt =====
-- How the parts of the try block that look at the document end (request_processor.cc, lines 54-114).
use text.Mathlib.Text.{◌==◌ as string_eq}
use nox13_interserver.Common.{
  ℕ, Bool, true, false, Option, none, some, List, String, if◌then◌else◌, ◌≡◌, ◌≢◌, refl, arith,
  Bool-cases, inl, inr, ◌⊎◌, ◌==◌,
}
use nox13_interserver.Common.Outcome.{
  ok, throws, undefined, Exception, Outcome-cases, http_request_error, std_exception,
}
use nox13_interserver.Interserver.Json.{
  Json, null, number, boolean, string, array, dict, get_dict_value, get_string_noquotes,
}
use nox13_interserver.Interserver.Resolver.{
  Resolver, Interactor, find_object, init_interactor, resolver_is_modify, must_init,
}
use nox13_interserver.Interserver.Processor.{
  RequestProcessor, interpret_type, construct_return, interpret_checkerror, interpret_dpid,
  dpid_check, find_dpid, e_ok, e_internal_server_error, e_not_found, e_bad_request, missing_dpid,
}

-- The status of the response that the exception becomes is not that of success.
abbrev pub Refusal : Exception → Type 0
Refusal e = (construct_return e).status ≢ e_ok

pub get_dict_value-throws : (k : String) (a : Json) (e : Exception) → get_dict_value k a ≢ throws e
unfolding get_dict_value
get_dict_value-throws k null e h = cc
get_dict_value-throws k (number x) e h = cc
get_dict_value-throws k (boolean x) e h = cc
get_dict_value-throws k (string x) e h = cc
get_dict_value-throws k (array x) e h = cc
get_dict_value-throws k (dict x) e h = cc

pub interpret_dpid-throws :
    (atoi : String → ℕ) (a : Json) (e : Exception) → interpret_dpid atoi a ≡ throws e → Refusal e
unfolding interpret_dpid construct_return
interpret_dpid-throws atoi a e h = elim (Outcome-cases (get_dict_value "dpid" a)) [
  | inl (none, h1) ↦ ground arith
  | inl (some t, h1) ↦ elim (Bool-cases (atoi (get_string_noquotes t) == 0)) [
    | inl h2 ↦ ground arith
    | inr h2 ↦ ground arith
  ]
  | inr (inl (x, h1)) ↦ elim (get_dict_value-throws "dpid" a x h1) [ ]
  | inr (inr h1) ↦ ground arith
]

pub interpret_type-throws :
    {Message : Type 0}
    → (a : Json) (s : RequestProcessor Message) (e : Exception) → (interpret_type a s).1 ≡ throws e
    → Refusal e
unfolding interpret_type construct_return
interpret_type-throws a s e h = elim (Outcome-cases (get_dict_value "type" a)) [
  | inl (none, h1) ↦ ground arith
  | inl (some t, h1) ↦ ground arith
  | inr (inl (x, h1)) ↦ elim (get_dict_value-throws "type" a x h1) [ ]
  | inr (inr h1) ↦ ground arith
]

-- interpret_type changes only its static copy of the types.
pub interpret_type-left :
    {Message : Type 0}
    → (a : Json) (s : RequestProcessor Message)
    → (types : Option (List String)) × ((interpret_type a s).0 ≡ record s { type_hash = types })
unfolding interpret_type
interpret_type-left a s = (_, refl)

pub checkerror-cases :
    (a : Json)
    → ((b : Bool) × (interpret_checkerror a ≡ ok b)) ⊎ (interpret_checkerror a ≡ undefined)
unfolding interpret_checkerror
checkerror-cases a = elim (Outcome-cases (get_dict_value "checkerror" a)) [
  | inl (none, h) ↦ inl (false, rw (h, interpret_checkerror) refl)
  | inl (some t, h) ↦ inl (
    if string_eq (get_string_noquotes t) "yes" then true else false,
    rw (h, interpret_checkerror) refl,
  )
  | inr (inl (e, h)) ↦ elim (get_dict_value-throws "checkerror" a e h) [ ]
  | inr (inr h) ↦ inr (rw (h, interpret_checkerror) refl)
]

pub internal_error-Refusal :
    (what : String) → Refusal (http_request_error what e_internal_server_error)
unfolding construct_return
internal_error-Refusal what = ground arith

pub not_found-Refusal : (what : String) → Refusal (http_request_error what e_not_found)
unfolding construct_return
not_found-Refusal what = ground arith

pub dpid_check-found :
    (dpid_string : ℕ → String) (ds : List ℕ) (d : ℕ)
    → find_dpid d ds ≡ true
    → dpid_check dpid_string ds d ≡ ok tt
unfolding dpid_check
dpid_check-found dpid_string ds d h = rw h refl

pub dpid_check-missing :
    (dpid_string : ℕ → String) (ds : List ℕ) (d : ℕ)
    → find_dpid d ds ≡ false
    → dpid_check dpid_string ds d
      ≡ throws (http_request_error (missing_dpid dpid_string d) e_not_found)
unfolding dpid_check
dpid_check-missing dpid_string ds d h = rw h refl

pub bad_request-Refusal : (what : String) → Refusal (http_request_error what e_bad_request)
unfolding construct_return
bad_request-Refusal what = ground arith

pub must_init-Refusal : (what : String) → Refusal (std_exception what)
unfolding construct_return
must_init-Refusal what = ground arith

module _ {Message : Type 0} where
  pub is_modify-none : (r : Resolver Message) → r.temp ≡ none → resolver_is_modify r ≡ must_init
  unfolding resolver_is_modify
  is_modify-none r h = rw h refl

  pub is_modify-some :
      (r : Resolver Message) (i : Interactor Message)
      → r.temp ≡ some i
      → resolver_is_modify r ≡ ok i.is_modify
  unfolding resolver_is_modify
  is_modify-some r i h = rw h refl

  pub init_interactor-sent :
      (tp : String) (r : Resolver Message) → ((init_interactor tp r).0).sent ≡ r.sent
  unfolding init_interactor
  init_interactor-sent tp r = refl

  pub init_interactor-temp :
      (tp : String) (r : Resolver Message)
      → ((init_interactor tp r).0).temp ≡ find_object tp r.factory
  unfolding init_interactor
  init_interactor-temp tp r = refl
