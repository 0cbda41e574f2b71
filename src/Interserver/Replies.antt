-- ===== src/Interserver/Replies.antt =====
-- When and how often the request processor responds (request_processor.cc).
use text.Mathlib.Text.{◌==◌ as string_eq}
use nox13_interserver.Common.{
  ℕ, true, false, some, [], ◌∷◌, ◌++◌, String, ◌≡◌, ◌≢◌, refl, ap, sym, subst, ◌∙◌, arith,
  Bool-cases, inl, inr, ◌⊎◌,
}
use nox13_interserver.Common.Outcome.{Outcome, ok, throws, Exception, ok-injective}
use nox13_interserver.Interserver.Json.{Json}
use nox13_interserver.Interserver.Resolver.{Interactor, find_object}
use nox13_interserver.Interserver.Verdict.{
  Verdict, refuses, fails, not_taken, taken, breaks, process_request-Verdict, with_resolver,
}
use nox13_interserver.Interserver.Processor.{
  RequestProcessor, ReturnMsg, RequestMsg, post_response, handle_request, accepted,
  construct_return, find_dpid, e_ok, reply_to, invalid_path,
}

module _ {Message : Type 0} (send : ℕ → Message → ℕ) (a : Json)
    (s t : RequestProcessor Message) where
  abbrev pub Answers : ReturnMsg → Type 0
  Answers x = (t.reply_state ≡ false) × (t.posted ≡ s.posted ++ x ∷ [])

  abbrev pub Taken : Type 0
  Taken =
      (did : ℕ) × ((msg : Message) × ((find_dpid did s.dpids ≡ true)
          × (t.resolver.sent ≡ s.resolver.sent ++ (did, msg) ∷ [])
          × (send did msg ≡ 0)))

  -- The response of an exception that a registered interactor threw for the document.
  abbrev pub Thrown : ReturnMsg → Type 0
  Thrown x =
      (tp : String) × ((i : Interactor Message) × ((e : Exception) × ((find_object tp
                s.resolver.factory
              ≡ some i)
            × ((i.request_msg_creator a ≡ throws e) × (x ≡ construct_return e)))))

  abbrev pub Served : Type 0
  Served =
      ((x : ReturnMsg) × (Answers x × ((x.status ≢ e_ok) ⊎ (Thrown x ⊎ Taken))))
      ⊎ ((t.reply_state ≡ true) × (t.posted ≡ s.posted) × Taken)

module _ {Message : Type 0} (send : ℕ → Message → ℕ) where
  post_response-Answers :
      (a : Json) (x : ReturnMsg) (s t : RequestProcessor Message)
      → s.reply_state ≡ true
      → post_response x s ≡ t
      → Answers send a s t x
  unfolding post_response
  post_response-Answers a x s t h e = subst (λ t. Answers send a s t x) e (rw h (refl, refl))

  post_response-sent :
      (x : ReturnMsg) (s : RequestProcessor Message)
      → (post_response x s).resolver.sent ≡ s.resolver.sent
  unfolding post_response
  post_response-sent x s = ground arith

  reply_to-Served :
      (a : Json) (s t : RequestProcessor Message)
      (p : RequestProcessor Message × Outcome (Unit {0}))
      → Verdict send a s p
      → s.reply_state ≡ true
      → reply_to p ≡ ok t
      → Served send a s t
  reply_to-Served a s t p (refuses r types e hs he) h1 h2 = inl (
    construct_return e,
    (post_response-Answers a _ (with_resolver send a s r types) t h1 cc, inl he),
  )
  reply_to-Served a s t p (fails r types tp i e hf hs he) h1 h2 = inl (
    construct_return e,
    (
      post_response-Answers a _ (with_resolver send a s r types) t h1 cc,
      inr (inl (tp, (i, (e, (hf, (he, refl)))))),
    ),
  )
  reply_to-Served a s t p (not_taken r types did msg e hs h0 he) h1 h2 = inl (
    construct_return e,
    (post_response-Answers a _ (with_resolver send a s r types) t h1 cc, inl he),
  )
  reply_to-Served a s t p (taken r types did msg true true (hd, hs) h0) h1 h2 =
      subst (λ t. Served send a s t) (ok-injective h2) (inr (h1, refl, (did, (msg, (hd, hs, h0)))))
  reply_to-Served a s t p (taken r types did msg true false (hd, hs) h0) h1 h2 = inl (
    accepted,
    (
      post_response-Answers a _ (with_resolver send a s r types) t h1 cc,
      inr (
          inr (
            did,
            (
              msg,
              (
                hd,
                sym (ap (λ t. t.resolver.sent) (ok-injective h2))
                    ∙ post_response-sent accepted (with_resolver send a s r types)
                    ∙ hs,
                h0,
              ),
            ),
          )),
    ),
  )
  reply_to-Served a s t p (taken r types did msg false check (hd, hs) h0) h1 h2 =
      subst (λ t. Served send a s t) (ok-injective h2) (inr (h1, refl, (did, (msg, (hd, hs, h0)))))
  reply_to-Served a s t p (breaks u) h1 h2 = cc

  -- A request, to the component's path or to another, from any state, ends in one of two ways where
  -- its handling is defined. Either one response is posted and none is to come; then its status is not
  -- 200, or it tells of an exception that a registered interactor threw, or a message was sent to a datapath
  -- that has joined and was taken. Or none is posted and one is to come, and a message was so sent and
  -- taken.
  pub handle_request-Served :
      (parse : String → Json) (atoi : String → ℕ) (dpid_string : ℕ → String) (req : RequestMsg)
      (s t : RequestProcessor Message)
      → handle_request parse atoi dpid_string send req s ≡ ok t
      → Served send (parse req.body) s t
  unfolding handle_request
  handle_request-Served parse atoi dpid_string req s t h =
      elim (Bool-cases (string_eq req.url "/switches/info")) [
        | inl hu ↦
            reply_to-Served (parse req.body) (record s { reply_state = true }) t _
              (process_request-Verdict send parse atoi dpid_string req
                (record s { reply_state = true }))
              refl cc
        | inr hu ↦ inl (
          invalid_path,
          (
            post_response-Answers (parse req.body) _ (record s { reply_state = true }) t refl cc,
            inl (ground arith),
          ),
        )
      ]
