-- ===== src/Interserver/Verdict.antt =====
-- How the try block of handle_request can end (request_processor.cc, lines 129-175).
mod Attempts
pub use Attempts.{Refusal, get_dict_value-throws}
use Attempts.*
use text.Mathlib.Text.{◌==◌ as string_eq}
use nox13_interserver.Common.{
  ℕ, Bool, true, Option, none, some, List, [], ◌∷◌, ◌++◌, String, if◌then◌else◌, ◌+◌, ◌≡◌, ◌≢◌,
  refl, ap, sym, subst, ◌∙◌, arith, Option-cases, Bool-cases, inl, inr, ◌==◌,
}
use nox13_interserver.Common.Outcome.{Outcome, ok, throws, undefined, Exception}
use nox13_interserver.Interserver.Json.{Json, null, number, boolean, string, array, dict}
use nox13_interserver.Interserver.Resolver.{
  Resolver, Interactor, find_object, init_interactor, resolver_is_modify, resolve_request,
}
use nox13_interserver.Interserver.Processor.{
  RequestProcessor, RequestMsg, request, timer, post_response, process_request, interpret_type,
  handle_request, accepted, ◌then_do◌, attempt, finish_request, resolve_for, process_object,
  process_json, interpret_dpid, dpid_check, find_dpid, for_type,
}

module _ {Message : Type 0} (send : ℕ → Message → ℕ) (a : Json) (s : RequestProcessor Message) where
  abbrev pub Sends : Resolver Message → ℕ → Message → Type 0
  Sends r did msg = (find_dpid did s.dpids ≡ true) × (r.sent ≡ s.resolver.sent ++ (did, msg) ∷ [])

  abbrev pub with_resolver : Resolver Message → Option (List String) → RequestProcessor Message
  with_resolver r types = record s { resolver = r; type_hash = types }

  -- How the try block can end: it refuses the request, the interactor of its type throws, the message is handed
  -- over but not taken, or it is taken. Then a modify request is answered at once, or the timer is set.
  pub data Verdict : RequestProcessor Message × Outcome (Unit {0}) → Type 0 where
    refuses :
        (r : Resolver Message) (types : Option (List String)) (e : Exception)
        → r.sent ≡ s.resolver.sent
        → Refusal e
        → Verdict (with_resolver r types, throws e)
    fails :
        (r : Resolver Message) (types : Option (List String)) (tp : String) (i : Interactor Message)
        (e : Exception)
        → find_object tp s.resolver.factory ≡ some i
        → r.sent ≡ s.resolver.sent
        → i.request_msg_creator a ≡ throws e
        → Verdict (with_resolver r types, throws e)
    not_taken :
        (r : Resolver Message) (types : Option (List String)) (did : ℕ) (msg : Message)
        (e : Exception)
        → Sends r did msg
        → send did msg ≢ 0
        → Refusal e
        → Verdict (with_resolver r types, throws e)
    taken :
        (r : Resolver Message) (types : Option (List String)) (did : ℕ) (msg : Message)
        (mod_req check : Bool)
        → Sends r did msg
        → send did msg ≡ 0
        → Verdict (
          if mod_req
              then if check
                then record (with_resolver r types) { auto_mutex = true }
                else post_response accepted (with_resolver r types)
              else with_resolver r types,
          ok tt,
        )
    breaks : (t : RequestProcessor Message) → Verdict (t, undefined)

module _ {Message : Type 0} (send : ℕ → Message → ℕ) where
  finish_request-Verdict :
      (a : Json) (s : RequestProcessor Message) (r : Resolver Message)
      (types : Option (List String)) (did : ℕ) (msg : Message) (mod_req : Bool)
      → Sends send a s r did msg
      → Verdict send a s (finish_request mod_req a (send did msg) (with_resolver send a s r types))
  finish_request-Verdict a s r types did msg mod_req h = elim (Bool-cases (send did msg == 0)) [
    | inl h0 ↦ elim (checkerror-cases a) [
      | inl (b, hb) ↦ rw (h0, ◌==◌, hb) (taken r types did msg mod_req b h (ground arith))
      | inr hb ↦ rw (h0, ◌==◌, hb) (breaks _)
    ]
    | inr h1 ↦
        rw (h1, ◌==◌) (not_taken r types did msg _ h (ground arith) (internal_error-Refusal _))
  ]

  -- What resolve_request leaves and returns, from how the interactor's creator ends.
  abbrev resolved : ℕ → Resolver Message → Outcome Message → Resolver Message × Outcome ℕ
  resolved did r (ok msg) =
      (record r { temp = none; sent = r.sent ++ (did, msg) ∷ [] }, ok (send did msg))
  resolved did r (throws e) = (r, throws e)
  resolved did r undefined = (r, undefined)

  resolve_request-resolved :
      (did : ℕ) (a : Json) (r : Resolver Message) (i : Interactor Message) (o : Outcome Message)
      → r.temp ≡ some i
      → i.request_msg_creator a ≡ o
      → resolve_request send did a r ≡ resolved did r o
  unfolding resolve_request
  resolve_request-resolved did a r i (ok msg) ht h = rw (ht, h) refl
  resolve_request-resolved did a r i (throws e) ht h = rw (ht, h) refl
  resolve_request-resolved did a r i undefined ht h = rw (ht, h) refl

  resolve_for-Verdict :
      (a : Json) (s : RequestProcessor Message) (r : Resolver Message)
      (types : Option (List String)) (tp : String) (i : Interactor Message) (did : ℕ)
      (mod_req : Bool)
      → find_object tp s.resolver.factory ≡ some i
      → r.temp ≡ some i
      → r.sent ≡ s.resolver.sent
      → find_dpid did s.dpids ≡ true
      → Verdict send a s (resolve_for send a mod_req did (with_resolver send a s r types))
  resolve_for-Verdict a s r types tp i did mod_req hf ht hs hd =
      subst
        (λ p. Verdict send a s (
          ((λ t. (record t { resolver = p.0 }, ok p.1))
              then_do attempt
              then_do finish_request mod_req a)
            (with_resolver send a s r types)))
        (sym (resolve_request-resolved did a r i (i.request_msg_creator a) ht refl))
        (go (i.request_msg_creator a) refl)
    where
      go :
          (o : Outcome Message)
          → i.request_msg_creator a ≡ o
          → Verdict send a s (
              ((λ t. (record t { resolver = (resolved did r o).0 }, ok (resolved did r o).1))
                  then_do attempt
                  then_do finish_request mod_req a)
                (with_resolver send a s r types))
      go (ok msg) h =
          finish_request-Verdict a s _ types did msg mod_req (hd, ap (λ l. l ++ (did, msg) ∷ []) hs)
      go (throws e) h = fails r types tp i e hf hs h
      go undefined h = breaks _

  check_dpid-Verdict :
      (dpid_string : ℕ → String) (a : Json) (s : RequestProcessor Message) (r : Resolver Message)
      (types : Option (List String)) (tp : String) (i : Interactor Message) (mod_req : Bool)
      (o : Outcome ℕ)
      → find_object tp s.resolver.factory ≡ some i
      → r.temp ≡ some i
      → r.sent ≡ s.resolver.sent
      → ((e : Exception) → o ≡ throws e → Refusal e)
      → Verdict send a s (
          (attempt o then_do λ did.
          attempt (dpid_check dpid_string s.dpids did) then_do λ _. resolve_for send a mod_req did)
            (with_resolver send a s r types))
  check_dpid-Verdict dpid_string a s r types tp i mod_req (ok did) hf ht hs he =
      elim (Bool-cases (find_dpid did s.dpids)) [
        | inl h ↦
            subst
              (λ o. Verdict send a s (
                (attempt o then_do λ _. resolve_for send a mod_req did)
                  (with_resolver send a s r types)))
              (sym (dpid_check-found dpid_string s.dpids did h))
              (resolve_for-Verdict a s r types tp i did mod_req hf ht hs h)
        | inr h ↦
            subst
              (λ o. Verdict send a s (
                (attempt o then_do λ _. resolve_for send a mod_req did)
                  (with_resolver send a s r types)))
              (sym (dpid_check-missing dpid_string s.dpids did h))
              (refuses r types _ hs (not_found-Refusal _))
      ]
  check_dpid-Verdict dpid_string a s r types tp i mod_req (throws e) hf ht hs he =
      refuses r types e hs (he e refl)
  check_dpid-Verdict dpid_string a s r types tp i mod_req undefined hf ht hs he = breaks _

  modify-Verdict :
      (atoi : String → ℕ) (dpid_string : ℕ → String) (a : Json) (s : RequestProcessor Message)
      (r : Resolver Message) (types : Option (List String)) (tp : String)
      → r.temp ≡ find_object tp s.resolver.factory
      → r.sent ≡ s.resolver.sent
      → Verdict send a s (
          (attempt (resolver_is_modify r) then_do λ mod_req.
          attempt (interpret_dpid atoi a) then_do λ did.
          attempt (dpid_check dpid_string s.dpids did) then_do λ _. resolve_for send a mod_req did)
            (with_resolver send a s r types))
  modify-Verdict atoi dpid_string a s r types tp hf hs = elim (Option-cases r.temp) [
    | inl h ↦ at_modify (sym (is_modify-none r h)) (refuses r types _ hs (must_init-Refusal _))
    | inr (i, h) ↦ at_modify (sym (is_modify-some r i h)) (
        check_dpid-Verdict dpid_string a s r types tp i i.is_modify (interpret_dpid atoi a)
          (sym hf ∙ h) h hs (interpret_dpid-throws atoi a))
  ]
    where
      after : Outcome Bool → RequestProcessor Message × Outcome (Unit {0})
      after o =
          (attempt o then_do λ mod_req. attempt (interpret_dpid atoi a) then_do λ did.
          attempt (dpid_check dpid_string s.dpids did) then_do λ _. resolve_for send a mod_req did)
            (with_resolver send a s r types)

      at_modify :
          {o p : Outcome Bool} → o ≡ p → Verdict send a s (after o) → Verdict send a s (after p)
      at_modify e v = subst (λ o. Verdict send a s (after o)) e v

  with_type-Verdict :
      (atoi : String → ℕ) (dpid_string : ℕ → String) (a : Json) (s : RequestProcessor Message)
      (types : Option (List String)) (o : Outcome String)
      → ((e : Exception) → o ≡ throws e → Refusal e)
      → Verdict send a s (
          (attempt o then_do for_type atoi dpid_string send a)
            (with_resolver send a s s.resolver types))
  with_type-Verdict atoi dpid_string a s types (ok tp) he =
      modify-Verdict atoi dpid_string a s (init_interactor tp s.resolver).0 types tp
        (init_interactor-temp tp s.resolver) (init_interactor-sent tp s.resolver)
  with_type-Verdict atoi dpid_string a s types (throws e) he =
      refuses s.resolver types e refl (he e refl)
  with_type-Verdict atoi dpid_string a s types undefined he = breaks _

  process_object-Verdict :
      (atoi : String → ℕ) (dpid_string : ℕ → String) (a : Json) (s : RequestProcessor Message)
      → Verdict send a s (process_object atoi dpid_string send a s)
  unfolding interpret_type
  process_object-Verdict atoi dpid_string a s =
      with_type-Verdict atoi dpid_string a s (interpret_type a s).0.type_hash (interpret_type a s).1
        (interpret_type-throws a s)

  process_json-Verdict :
      (atoi : String → ℕ) (dpid_string : ℕ → String) (a : Json) (s : RequestProcessor Message)
      → Verdict send a s (process_json atoi dpid_string send a s)
  process_json-Verdict atoi dpid_string null s =
      refuses s.resolver s.type_hash _ refl (bad_request-Refusal _)
  process_json-Verdict atoi dpid_string (number x) s =
      process_object-Verdict atoi dpid_string (number x) s
  process_json-Verdict atoi dpid_string (boolean x) s =
      process_object-Verdict atoi dpid_string (boolean x) s
  process_json-Verdict atoi dpid_string (string x) s =
      process_object-Verdict atoi dpid_string (string x) s
  process_json-Verdict atoi dpid_string (array x) s =
      process_object-Verdict atoi dpid_string (array x) s
  process_json-Verdict atoi dpid_string (dict x) s =
      process_object-Verdict atoi dpid_string (dict x) s

  pub process_request-Verdict :
      (parse : String → Json) (atoi : String → ℕ) (dpid_string : ℕ → String) (req : RequestMsg)
      (s : RequestProcessor Message)
      → Verdict send (parse req.body) s (process_request parse atoi dpid_string send req s)
  unfolding process_request
  process_request-Verdict parse atoi dpid_string req s = elim (Bool-cases (string_eq req.body "")) [
    | inl h ↦ rw h (refuses s.resolver s.type_hash _ refl (not_found-Refusal _))
    | inr h ↦ rw h (process_json-Verdict atoi dpid_string (parse req.body) s)
  ]
