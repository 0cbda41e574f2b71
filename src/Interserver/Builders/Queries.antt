-- ===== src/Interserver/Builders/Queries.antt =====
-- The interactors that ask a switch (interact_builders.cc, lines 1015-1553).
use nox13_interserver.Common.{false, [], ◌∷◌}
use nox13_interserver.Common.Outcome.{Outcome, ok, ◌>>=◌, ◌>>◌}
use nox13_interserver.OpenFlow.Codes.{ofpp_any, ofpg_any, ofpg_all, ofptt_all, ofpq_all, ofpm_all}
use nox13_interserver.Interserver.Json.{Json}
use nox13_interserver.Interserver.Resolver.{Interactor}
use nox13_interserver.Interserver.Builders.Arguments.{
  Libc, ArgumentsList, e_num, e_jarray, check_args, number_or,
}
use nox13_interserver.Interserver.Builders.MatchFields.{match_set}
use nox13_interserver.Interserver.Builders.Messages.{
  MultipartType, ofpmp_desc, ofpmp_flow, ofpmp_aggregate, ofpmp_table, ofpmp_group_desc,
  ofpmp_group_features, ofpmp_meter, ofpmp_meter_config, ofpmp_meter_features, ofpmp_table_features,
  ofpmp_port_desc, OflMsg, get_config_request, features_request, multipart_request, flow_request,
  port_request, queue_request, group_request, meter_request, queue_get_config_request,
}

-- An interactor that asks, and one whose message needs no argument.
abbrev pub asks : (Json → Outcome OflMsg) → Interactor OflMsg
asks creator = record { is_modify = false; request_msg_creator = creator }

abbrev pub asks_always : OflMsg → Interactor OflMsg
asks_always msg = asks (λ args. ok msg)

abbrev pub inter_sw_config : Interactor OflMsg
inter_sw_config = asks_always get_config_request

abbrev pub inter_features_request : Interactor OflMsg
inter_features_request = asks_always features_request

abbrev pub inter_table_features : Interactor OflMsg
inter_table_features = asks_always (multipart_request ofpmp_table_features)

abbrev pub inter_desc : Interactor OflMsg
inter_desc = asks_always (multipart_request ofpmp_desc)

abbrev pub inter_table_stats : Interactor OflMsg
inter_table_stats = asks_always (multipart_request ofpmp_table)

abbrev pub inter_port_desc : Interactor OflMsg
inter_port_desc = asks_always (multipart_request ofpmp_port_desc)

abbrev pub inter_group_desc : Interactor OflMsg
inter_group_desc = asks_always (multipart_request ofpmp_group_desc)

abbrev pub inter_group_features : Interactor OflMsg
inter_group_features = asks_always (multipart_request ofpmp_group_features)

abbrev pub inter_meter_features : Interactor OflMsg
inter_meter_features = asks_always (multipart_request ofpmp_meter_features)

abbrev pub flow_args : ArgumentsList
flow_args =
    ("match_set", e_jarray)
    ∷ ("table_id", e_num)
    ∷ ("out_port", e_num)
    ∷ ("out_group", e_num)
    ∷ ("cookie", e_num)
    ∷ ("cookie_mask", e_num)
    ∷ []

module _ (libc : Libc) where
  unfoldable pub flow_information_req_creator : MultipartType → Json → Outcome OflMsg
  unfolding number_or match_set
  flow_information_req_creator type args = do
    table_id ← number_or libc args "table_id" 8 ofptt_all
    out_port ← number_or libc args "out_port" 32 ofpp_any
    out_group ← number_or libc args "out_group" 32 ofpg_any
    cookie ← number_or libc args "cookie" 64 0
    cookie_mask ← number_or libc args "cookie_mask" 64 0
    f ← match_set libc args
    ok (
        flow_request (record {
          type = type;
          table_id = table_id;
          out_port = out_port;
          out_group = out_group;
          cookie = cookie;
          cookie_mask = cookie_mask;
          match = f;
        }))

  unfoldable pub flow_creator : MultipartType → Json → Outcome OflMsg
  unfolding check_args flow_information_req_creator
  flow_creator type args = check_args libc flow_args args >> flow_information_req_creator type args

  abbrev pub inter_flow_info : Interactor OflMsg
  inter_flow_info = asks (flow_creator ofpmp_flow)

  abbrev pub inter_flow_agr_info : Interactor OflMsg
  inter_flow_agr_info = asks (flow_creator ofpmp_aggregate)

  unfoldable pub port_creator : Json → Outcome OflMsg
  unfolding check_args number_or
  port_creator args = do
    check_args libc (("port", e_num) ∷ []) args
    port ← number_or libc args "port" 32 ofpp_any
    ok (port_request port)

  abbrev pub inter_port_stats : Interactor OflMsg
  inter_port_stats = asks port_creator

  unfoldable pub queue_creator : Json → Outcome OflMsg
  unfolding check_args number_or
  queue_creator args = do
    check_args libc (("port", e_num) ∷ ("queue_id", e_num) ∷ []) args
    port ← number_or libc args "port" 32 ofpp_any
    queue ← number_or libc args "queue_id" 32 ofpq_all
    ok (queue_request port queue)

  abbrev pub inter_queue_stats : Interactor OflMsg
  inter_queue_stats = asks queue_creator

  unfoldable pub group_creator : Json → Outcome OflMsg
  unfolding check_args number_or
  group_creator args = do
    check_args libc (("group_id", e_num) ∷ []) args
    group ← number_or libc args "group_id" 32 ofpg_all
    ok (group_request group)

  abbrev pub inter_group_stats : Interactor OflMsg
  inter_group_stats = asks group_creator

  unfoldable pub queue_config_creator : Json → Outcome OflMsg
  unfolding check_args number_or
  queue_config_creator args = do
    check_args libc (("port", e_num) ∷ []) args
    port ← number_or libc args "port" 32 ofpp_any
    ok (queue_get_config_request port)

  abbrev pub inter_queue_config : Interactor OflMsg
  inter_queue_config = asks queue_config_creator

  unfoldable pub meter_creator : MultipartType → Json → Outcome OflMsg
  unfolding check_args number_or
  meter_creator type args = do
    check_args libc (("meter_id", e_num) ∷ []) args
    meter ← number_or libc args "meter_id" 32 ofpm_all
    ok (meter_request type meter)

  abbrev pub inter_meter_stats : Interactor OflMsg
  inter_meter_stats = asks (meter_creator ofpmp_meter)

  abbrev pub inter_meter_config : Interactor OflMsg
  inter_meter_config = asks (meter_creator ofpmp_meter_config)
