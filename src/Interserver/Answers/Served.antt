-- ===== src/Interserver/Answers/Served.antt =====
-- The requests that a switch's reply can be turned into a response for: the interactors of
-- msg_resolver.cc with the handlers of interact_answer.cc.
use nox13_interserver.Common.{true, some, String, All, ◌≡◌, ◌≢◌, refl}
use nox13_interserver.Common.Outcome.{Outcome, ok, ◌>>=◌}
use nox13_interserver.Interserver.Json.{Json}
use nox13_interserver.Interserver.Resolver.{Interactor, find_object}
use nox13_interserver.Interserver.Builders.Arguments.{Libc}
use nox13_interserver.Interserver.Builders.Messages.{
  MultipartType, ofpmp_flow, ofpmp_aggregate, ofpmp_meter, ofpmp_meter_config, OflMsg,
}
use nox13_interserver.Interserver.Builders.Queries.{
  flow_information_req_creator, flow_creator, port_creator, queue_creator, group_creator,
  queue_config_creator, meter_creator,
}
use nox13_interserver.Interserver.Builders.Changes.{
  set_config_creator, flow_mod_creator, group_mod_creator, port_mod_creator, meter_mod_creator,
}
use nox13_interserver.Interserver.Builders.Registry.{interactors}
use nox13_interserver.Interserver.Builders.Lookup.{find_object-All}
use nox13_interserver.Interserver.Builders.Ensured.{Ensures, Ensures-ok, Ensures-bind}
use nox13_interserver.Interserver.Answers.{Printers, Reply}
use nox13_interserver.Interserver.Answers.Dispatch.{answer}
use nox13_interserver.Interserver.Answers.Kinds.{RepliesTo, answerable, Answerable, answer-some}

abbrev AnswerableOf : (Json → Outcome OflMsg) → Type 0
AnswerableOf creator = (args : Json) → Ensures Answerable (creator args)

bound :
    {B : Type 0} (m : Outcome B) (f : B → Outcome OflMsg)
    → ((b : B) → Ensures Answerable (f b))
    → Ensures Answerable (m >>= f)
bound m f h = Ensures-bind Answerable m f λ b _. h b

always : (m : OflMsg) → answerable m ≡ true → Ensures Answerable (ok m)
always m h = Ensures-ok Answerable m h

ruleset answerable_rules = (bound, always)

module _ (libc : Libc) where
  flow-Answerable : (type : MultipartType) → AnswerableOf (flow_creator libc type)
  unfolding flow_creator flow_information_req_creator
  flow-Answerable type args = search answerable_rules depth 12

  port-Answerable : AnswerableOf (port_creator libc)
  unfolding port_creator
  port-Answerable args = search answerable_rules

  queue-Answerable : AnswerableOf (queue_creator libc)
  unfolding queue_creator
  queue-Answerable args = search answerable_rules

  group-Answerable : AnswerableOf (group_creator libc)
  unfolding group_creator
  group-Answerable args = search answerable_rules

  queue_config-Answerable : AnswerableOf (queue_config_creator libc)
  unfolding queue_config_creator
  queue_config-Answerable args = search answerable_rules

  meter-Answerable : (type : MultipartType) → AnswerableOf (meter_creator libc type)
  unfolding meter_creator
  meter-Answerable type args = search answerable_rules

  set_config-Answerable : AnswerableOf (set_config_creator libc)
  unfolding set_config_creator
  set_config-Answerable args = search answerable_rules

  flow_mod-Answerable : AnswerableOf (flow_mod_creator libc)
  unfolding flow_mod_creator
  flow_mod-Answerable args = search answerable_rules

  group_mod-Answerable : AnswerableOf (group_mod_creator libc)
  unfolding group_mod_creator
  group_mod-Answerable args = search answerable_rules depth 12

  port_mod-Answerable : AnswerableOf (port_mod_creator libc)
  unfolding port_mod_creator
  port_mod-Answerable args = search answerable_rules depth 12

  meter_mod-Answerable : AnswerableOf (meter_mod_creator libc)
  unfolding meter_mod_creator
  meter_mod-Answerable args = search answerable_rules depth 12

  interactors-Answerable :
      All
        (λ e.
          e.0 ≢ "table_features" → e.0 ≢ "meter_features" → AnswerableOf e.1.request_msg_creator)
        (interactors libc)
  interactors-Answerable = (
    λ _ _ _. always _ refl,
    (
      λ _ _. set_config-Answerable,
      (
        λ _ _ _. always _ refl,
        (
          λ h _. absurd (h refl),
          (
            λ _ _ _. always _ refl,
            (
              λ _ _ _. always _ refl,
              (
                λ _ _. flow-Answerable ofpmp_flow,
                (
                  λ _ _. flow_mod-Answerable,
                  (
                    λ _ _. flow-Answerable ofpmp_aggregate,
                    (
                      λ _ _. port-Answerable,
                      (
                        λ _ _ _. always _ refl,
                        (
                          λ _ _. queue-Answerable,
                          (
                            λ _ _. group-Answerable,
                            (
                              λ _ _ _. always _ refl,
                              (
                                λ _ _ _. always _ refl,
                                (
                                  λ _ _. meter-Answerable ofpmp_meter,
                                  (
                                    λ _ _. meter-Answerable ofpmp_meter_config,
                                    (
                                      λ _ h. absurd (h refl),
                                      (
                                        λ _ _. queue_config-Answerable,
                                        (
                                          λ _ _. group_mod-Answerable,
                                          (
                                            λ _ _. port_mod-Answerable,
                                            (λ _ _. meter_mod-Answerable, tt),
                                          ),
                                        ),
                                      ),
                                    ),
                                  ),
                                ),
                              ),
                            ),
                          ),
                        ),
                      ),
                    ),
                  ),
                ),
              ),
            ),
          ),
        ),
      ),
    ),
  )

module _ {Struct : Type 0} (libc : Libc) (p : Printers Struct) where
  -- Whatever a switch sends in reply to the message of a registered interactor, be it an error, there is
  -- a text that the component posts for it, but for the types "table_features" and "meter_features".
  pub interactors-answered :
      (tp : String) (i : Interactor OflMsg) (args : Json) (m : OflMsg) (r : Reply Struct)
      → find_object tp (interactors libc) ≡ some i
      → tp ≢ "table_features"
      → tp ≢ "meter_features"
      → i.request_msg_creator args ≡ ok m
      → RepliesTo m r
      → (text : String) × (answer p r ≡ some (ok text))
  interactors-answered tp i args m r hi h1 h2 hm hr =
      let entry =
        find_object-All
          (λ e.
            e.0 ≢ "table_features" → e.0 ≢ "meter_features" → AnswerableOf e.1.request_msg_creator)
          tp (interactors libc) i (interactors-Answerable libc) hi in
      answer-some p m r ((entry h1 h2 args).at m hm) hr
