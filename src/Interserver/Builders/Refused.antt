-- ===== src/Interserver/Builders/Refused.antt =====
-- What the request processor does with the exceptions of the interactors that are registered
-- (interact_builders.cc with request_processor.cc, lines 117-195).
use nox13_interserver.Common.{
  ℕ, true, some, String, All, ◌≡◌, ◌≢◌, ◌⊎◌, inl, inr, ap, subst, ◌∙◌, arith,
}
use nox13_interserver.Common.Outcome.{ok}
use nox13_interserver.Interserver.Json.{Json}
use nox13_interserver.Interserver.Resolver.{Interactor, find_object}
use nox13_interserver.Interserver.Processor.{
  RequestProcessor, ReturnMsg, RequestMsg, handle_request, construct_return, e_ok,
  e_internal_server_error,
}
use nox13_interserver.Interserver.Replies.{Answers, Taken, Thrown, handle_request-Served}
use nox13_interserver.Interserver.Builders.Arguments.{Libc}
use nox13_interserver.Interserver.Builders.Messages.{
  OflMsg, ofpmp_flow, ofpmp_aggregate, ofpmp_meter, ofpmp_meter_config,
}
use nox13_interserver.Interserver.Builders.Registry.{interactors, installed_resolver}
use nox13_interserver.Interserver.Builders.Lookup.{find_object-All, factory-interactors}
use nox13_interserver.Interserver.Builders.Failure.{RaisesStd, RaisesStd-ok}
use nox13_interserver.Interserver.Builders.Failure.OfMessages.{
  RaisesStd-set_config, RaisesStd-flow_creator, RaisesStd-flow_mod, RaisesStd-port_creator,
  RaisesStd-queue_creator, RaisesStd-group_creator, RaisesStd-meter_creator, RaisesStd-queue_config,
  RaisesStd-group_mod, RaisesStd-port_mod, RaisesStd-meter_mod,
}

-- Whatever the arguments, the interactor throws only a std::exception.
abbrev pub RaisesStdOnly : Interactor OflMsg → Type 0
RaisesStdOnly i = (args : Json) → RaisesStd (i.request_msg_creator args)

module _ (libc : Libc) where
  interactors-RaisesStd : All (λ e. RaisesStdOnly e.1) (interactors libc)
  interactors-RaisesStd = (
    λ _. RaisesStd-ok _,
    (
      RaisesStd-set_config libc,
      (
        λ _. RaisesStd-ok _,
        (
          λ _. RaisesStd-ok _,
          (
            λ _. RaisesStd-ok _,
            (
              λ _. RaisesStd-ok _,
              (
                RaisesStd-flow_creator libc ofpmp_flow,
                (
                  RaisesStd-flow_mod libc,
                  (
                    RaisesStd-flow_creator libc ofpmp_aggregate,
                    (
                      RaisesStd-port_creator libc,
                      (
                        λ _. RaisesStd-ok _,
                        (
                          RaisesStd-queue_creator libc,
                          (
                            RaisesStd-group_creator libc,
                            (
                              λ _. RaisesStd-ok _,
                              (
                                λ _. RaisesStd-ok _,
                                (
                                  RaisesStd-meter_creator libc ofpmp_meter,
                                  (
                                    RaisesStd-meter_creator libc ofpmp_meter_config,
                                    (
                                      λ _. RaisesStd-ok _,
                                      (
                                        RaisesStd-queue_config libc,
                                        (
                                          RaisesStd-group_mod libc,
                                          (RaisesStd-port_mod libc, (RaisesStd-meter_mod libc, tt)),
                                        ),
                                      ),
                                    ),
                                  ),
                                ),
                              ),
                            ),
                          ),
                        ),
                      ),
                    ),
                  ),
                ),
              ),
            ),
          ),
        ),
      ),
    ),
  )

  Thrown-status :
      (send : ℕ → OflMsg → ℕ) (a : Json) (s t : RequestProcessor OflMsg) (x : ReturnMsg)
      → s.resolver.factory ≡ (installed_resolver libc).factory
      → Thrown send a s t x
      → x.status ≡ e_internal_server_error
  unfolding construct_return
  Thrown-status send a s t x hf (tp, (i, (e, (hi, (he, hx))))) =
      let std =
        find_object-All (λ e. RaisesStdOnly e.1) tp (interactors libc) i (interactors-RaisesStd)
          (subst (λ m. find_object tp m ≡ some i) (hf ∙ factory-interactors libc) hi) a in
      let (what, hw) = std.at e he in
      ap (λ r. r.status) hx ∙ ap (λ e. (construct_return e).status) hw

module _ (send : ℕ → OflMsg → ℕ) (a : Json) (s t : RequestProcessor OflMsg) where
  -- What a request leads to where an exception of an interactor is answered with an error.
  abbrev pub Honest : Type 0
  Honest =
      ((x : ReturnMsg) × (Answers send a s t x × ((x.status ≢ e_ok) ⊎ Taken send a s t)))
      ⊎ ((t.reply_state ≡ true) × (t.posted ≡ s.posted) × Taken send a s t)

-- With the registered interactors, a request, to any path and from any state, ends in one of two ways
-- where its handling is defined: one response is posted and none is to come, whose status is 200 only
-- if a message was sent to a datapath that has joined and was taken; or none is posted, one is to come
-- and a message was so sent and taken.
pub handle_request-Honest :
    (libc : Libc) (send : ℕ → OflMsg → ℕ) (parse : String → Json) (atoi : String → ℕ)
    (dpid_string : ℕ → String) (req : RequestMsg) (s t : RequestProcessor OflMsg)
    → s.resolver.factory ≡ (installed_resolver libc).factory
    → handle_request parse atoi dpid_string send req s ≡ ok t
    → Honest send (parse req.body) s t
handle_request-Honest libc send parse atoi dpid_string req s t hf h =
    elim (handle_request-Served send parse atoi dpid_string req s t h) [
      | inl (x, (ha, inl hx)) ↦ inl (x, (ha, inl hx))
      | inl (x, (ha, inr (inl ht))) ↦
          let failed : x.status ≡ e_internal_server_error =
            Thrown-status libc send (parse req.body) s t x hf ht in
          inl (x, (ha, inl (ground arith)))
      | inl (x, (ha, inr (inr ht))) ↦ inl (x, (ha, inr ht))
      | inr waits ↦ inr waits
    ]
