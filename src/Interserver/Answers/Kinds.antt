-- ===== src/Interserver/Answers/Kinds.antt =====
-- The replies that the OpenFlow protocol gives a message, and which of them have handlers of their own
-- (interact_answer.cc, lines 348-403).
use nox13_interserver.Common.{ℕ, Bool, true, false, List, some, String, ◌≡◌, refl}
use nox13_interserver.Common.Outcome.{ok}
use nox13_interserver.Interserver.Builders.Messages.{
  ofpmp_desc, ofpmp_flow, ofpmp_aggregate, ofpmp_table, ofpmp_group_desc, ofpmp_group_features,
  ofpmp_meter, ofpmp_meter_config, ofpmp_meter_features, ofpmp_table_features, ofpmp_port_desc,
  FlowRequest, OflMsg, get_config_request, features_request, multipart_request, flow_request,
  port_request, queue_request, group_request, meter_request, queue_get_config_request,
}
use nox13_interserver.Interserver.Answers.{
  Printers, Reply, handle_sw_config_reply, handle_features_reply, handle_desc, handle_table_stats,
  handle_flow_info, handle_agr_flow_info, handle_port_stats, handle_port_desc, handle_queue_stats,
  handle_group_stats, handle_group_desc, handle_group_features, handle_queue_config,
  handle_meter_stats, handle_meter_config, handle_error, FeaturesReply, DescReply, AggregateReply,
  get_config_reply, features_reply, desc_reply, flow_reply, aggregate_reply, table_reply,
  port_stats_reply, queue_reply, group_reply, group_desc_reply, group_features_reply, meter_reply,
  meter_config_reply, meter_features_reply, table_features_reply, port_desc_reply,
  queue_get_config_reply, error_msg,
}
use nox13_interserver.Interserver.Answers.Dispatch.{answer}

module _ {Struct : Type 0} where
  -- What a switch sends for a message, by the OpenFlow protocol: a reply of the message's type and
  -- multipart type, or an error.
  pub data RepliesTo : OflMsg → Reply Struct → Type 0 where
    to_config : (s : Struct) → RepliesTo get_config_request (get_config_reply s)
    to_features : (r : FeaturesReply) → RepliesTo features_request (features_reply r)
    to_desc : (r : DescReply) → RepliesTo (multipart_request ofpmp_desc) (desc_reply r)
    to_table : (ss : List Struct) → RepliesTo (multipart_request ofpmp_table) (table_reply ss)
    to_table_features :
        (ss : List Struct)
        → RepliesTo (multipart_request ofpmp_table_features) (table_features_reply ss)
    to_port_desc :
        (ss : List Struct) → RepliesTo (multipart_request ofpmp_port_desc) (port_desc_reply ss)
    to_group_desc :
        (ss : List Struct) → RepliesTo (multipart_request ofpmp_group_desc) (group_desc_reply ss)
    to_group_features :
        (s : Struct) → RepliesTo (multipart_request ofpmp_group_features) (group_features_reply s)
    to_meter_features :
        (s : Struct) → RepliesTo (multipart_request ofpmp_meter_features) (meter_features_reply s)
    to_flow :
        (q : FlowRequest) (ss : List Struct)
        → q.type ≡ ofpmp_flow
        → RepliesTo (flow_request q) (flow_reply ss)
    to_aggregate :
        (q : FlowRequest) (r : AggregateReply)
        → q.type ≡ ofpmp_aggregate
        → RepliesTo (flow_request q) (aggregate_reply r)
    to_port : (n : ℕ) (ss : List Struct) → RepliesTo (port_request n) (port_stats_reply ss)
    to_queue : (n q : ℕ) (ss : List Struct) → RepliesTo (queue_request n q) (queue_reply ss)
    to_group : (n : ℕ) (ss : List Struct) → RepliesTo (group_request n) (group_reply ss)
    to_meter : (n : ℕ) (ss : List Struct) → RepliesTo (meter_request ofpmp_meter n) (meter_reply ss)
    to_meter_config :
        (n : ℕ) (ss : List Struct)
        → RepliesTo (meter_request ofpmp_meter_config n) (meter_config_reply ss)
    to_queue_config :
        (n m : ℕ) (ss : List Struct)
        → RepliesTo (queue_get_config_request n) (queue_get_config_reply m ss)
    to_error : (m : OflMsg) (s : Struct) → RepliesTo m (error_msg s)

-- A message whose replies have handlers of their own.
abbrev pub answerable : OflMsg → Bool
answerable (multipart_request ofpmp_table_features) = false
answerable (multipart_request ofpmp_meter_features) = false
answerable m = true

abbrev pub Answerable : OflMsg → Type 0
Answerable m = answerable m ≡ true

module _ {Struct : Type 0} (p : Printers Struct) where
  pub answer-some :
      (m : OflMsg) (r : Reply Struct)
      → Answerable m
      → RepliesTo m r
      → (text : String) × (answer p r ≡ some (ok text))
  unfolding answer handle_sw_config_reply handle_features_reply handle_desc handle_table_stats
      handle_flow_info handle_agr_flow_info handle_port_stats handle_port_desc handle_queue_stats
      handle_group_stats handle_group_desc handle_group_features handle_queue_config
      handle_meter_stats handle_meter_config handle_error
  answer-some _ _ h (to_config s) = (_, refl)
  answer-some _ _ h (to_features x) = (_, refl)
  answer-some _ _ h (to_desc x) = (_, refl)
  answer-some _ _ h (to_table ss) = (_, refl)
  answer-some _ _ h (to_table_features ss) = cc
  answer-some _ _ h (to_port_desc ss) = (_, refl)
  answer-some _ _ h (to_group_desc ss) = (_, refl)
  answer-some _ _ h (to_group_features s) = (_, refl)
  answer-some _ _ h (to_meter_features s) = cc
  answer-some _ _ h (to_flow q ss e) = (_, refl)
  answer-some _ _ h (to_aggregate q x e) = (_, refl)
  answer-some _ _ h (to_port n ss) = (_, refl)
  answer-some _ _ h (to_queue n q ss) = (_, refl)
  answer-some _ _ h (to_group n ss) = (_, refl)
  answer-some _ _ h (to_meter n ss) = (_, refl)
  answer-some _ _ h (to_meter_config n ss) = (_, refl)
  answer-some _ _ h (to_queue_config n m ss) = (_, refl)
  answer-some _ _ h (to_error m s) = (_, refl)
