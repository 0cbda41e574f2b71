-- ===== src/Interserver/Answers/Dispatch.antt =====
-- Interact_answer::install (interact_answer.cc, lines 348-403), and which answers a request gets.
use nox13_interserver.Common.{Option, none, some, String}
use nox13_interserver.Common.Outcome.{Outcome}
use nox13_interserver.Interserver.Answers.{
  Printers, Reply, handle_agr_flow_info, handle_desc, handle_error, handle_features_reply,
  handle_flow_info, handle_group_desc, handle_group_features, handle_group_stats,
  handle_meter_config, handle_meter_stats, handle_port_desc, handle_port_stats, handle_queue_config,
  handle_queue_stats, handle_sw_config_reply, handle_table_stats, aggregate_reply, desc_reply,
  error_msg, features_reply, flow_reply, get_config_reply, group_desc_reply, group_features_reply,
  group_reply, meter_config_reply, meter_features_reply, meter_reply, other_msg, port_desc_reply,
  port_stats_reply, queue_get_config_reply, queue_reply, table_features_reply, table_reply,
}

module _ {Struct : Type 0} (p : Printers Struct) where
  -- What the handler that is registered for the event of the message gives to acceptResponse. There is
  -- none for meter features, and that of table features is handle_desc.
  unfoldable pub answer : Reply Struct → Option (Outcome String)
  answer (get_config_reply s) = some (handle_sw_config_reply p (get_config_reply s))
  answer (features_reply r) = some (handle_features_reply p (features_reply r))
  answer (table_features_reply ss) = some (handle_desc p (table_features_reply ss))
  answer (desc_reply r) = some (handle_desc p (desc_reply r))
  answer (table_reply ss) = some (handle_table_stats p (table_reply ss))
  answer (flow_reply ss) = some (handle_flow_info p (flow_reply ss))
  answer (aggregate_reply r) = some (handle_agr_flow_info p (aggregate_reply r))
  answer (port_stats_reply ss) = some (handle_port_stats p (port_stats_reply ss))
  answer (port_desc_reply ss) = some (handle_port_desc p (port_desc_reply ss))
  answer (queue_reply ss) = some (handle_queue_stats p (queue_reply ss))
  answer (group_reply ss) = some (handle_group_stats p (group_reply ss))
  answer (group_desc_reply ss) = some (handle_group_desc p (group_desc_reply ss))
  answer (group_features_reply s) = some (handle_group_features p (group_features_reply s))
  answer (meter_reply ss) = some (handle_meter_stats p (meter_reply ss))
  answer (meter_config_reply ss) = some (handle_meter_config p (meter_config_reply ss))
  answer (queue_get_config_reply n ss) = some (handle_queue_config p (queue_get_config_reply n ss))
  answer (error_msg s) = some (handle_error p (error_msg s))
  answer (meter_features_reply s) = none
  answer other_msg = none
