-- ===== src/Interserver/Builders/Changes.antt =====
-- The interactors that change a switch (interact_builders.cc, lines 1034-1073 and 1557-1939).
use text.Mathlib.Text.{◌==◌ as string_eq}
use nox13_interserver.Common.{ℕ, true, [], ◌∷◌, String, if◌then◌else◌}
use nox13_interserver.Common.Outcome.{Outcome, ok, ◌>>=◌, ◌>>◌, invalid_argument}
use nox13_interserver.OpenFlow.Codes.{
  ofpp_any, ofpg_any, ofptt_all, ofpm_slowpath, ofpm_controller, ofpm_all, FlowModCommand,
  ofpfc_add, ofpfc_modify, ofpfc_modify_strict, ofpfc_delete, ofpfc_delete_strict,
}
use nox13_interserver.OpenFlow.FlowMod.{FlowMod, flow_mod, with_match, with_instructions}
use nox13_interserver.Interserver.Json.{Json}
use nox13_interserver.Interserver.Resolver.{Interactor}
use nox13_interserver.Interserver.Builders.Arguments.{
  Libc, ArgumentsList, e_string, e_num, e_mac, e_jarray, required, ethernetaddr, number_bits,
  check_args, number_or, required_number, array_at,
}
use nox13_interserver.Interserver.Builders.MatchFields.{match_set}
use nox13_interserver.Interserver.Builders.InstructionFields.{instruction_set}
use nox13_interserver.Interserver.Builders.Parts.{construct_buckets, construct_bands}
use nox13_interserver.Interserver.Builders.Messages.{
  OflMsg, set_config, flow_mod_msg, GroupModCommand, ofpgc_add, ofpgc_modify, ofpgc_delete,
  GroupType, ofpgt_all, ofpgt_select, ofpgt_indirect, ofpgt_ff, group_mod_msg, port_mod_msg,
  MeterModCommand, ofpmc_add, ofpmc_modify, ofpmc_delete, meter_mod_msg,
}

abbrev pub changes : (Json → Outcome OflMsg) → Interactor OflMsg
changes creator = record { is_modify = true; request_msg_creator = creator }

abbrev pub flow_mod_args : ArgumentsList
flow_mod_args =
    ("command", e_string)
    ∷ ("instruction_set", e_jarray)
    ∷ ("match_set", e_jarray)
    ∷ ("cookie", e_num)
    ∷ ("cookie_mask", e_num)
    ∷ ("table_id", e_num)
    ∷ ("idle_timeout", e_num)
    ∷ ("hard_timeout", e_num)
    ∷ ("priority", e_num)
    ∷ ("buffer_id", e_num)
    ∷ ("flags", e_num)
    ∷ ("out_port", e_num)
    ∷ ("out_group", e_num)
    ∷ []

-- A command of another name is OFPFC_DELETE.
unfoldable pub flow_mod_command : String → FlowModCommand
flow_mod_command v =
    if string_eq v "add"
    then ofpfc_add
    else if string_eq v "modify"
    then ofpfc_modify
    else if string_eq v "modify_strict"
    then ofpfc_modify_strict
    else if string_eq v "delete"
    then ofpfc_delete
    else if string_eq v "delete_strict"
    then ofpfc_delete_strict
    else ofpfc_delete

unfoldable pub group_mod_command : String → Outcome GroupModCommand
group_mod_command v =
    if string_eq v "add"
    then ok ofpgc_add
    else if string_eq v "modify"
    then ok ofpgc_modify
    else if string_eq v "delete"
    then ok ofpgc_delete
    else invalid_argument "Invalid command, must be add, modify or delete!\n"

unfoldable pub group_type : String → Outcome GroupType
group_type v =
    if string_eq v "all"
    then ok ofpgt_all
    else if string_eq v "select"
    then ok ofpgt_select
    else if string_eq v "indirect"
    then ok ofpgt_indirect
    else if string_eq v "fast_failover"
    then ok ofpgt_ff
    else invalid_argument "Invalid group_type!\n"

unfoldable pub meter_mod_command : String → Outcome MeterModCommand
meter_mod_command v =
    if string_eq v "add"
    then ok ofpmc_add
    else if string_eq v "modify"
    then ok ofpmc_modify
    else if string_eq v "delete"
    then ok ofpmc_delete
    else invalid_argument "Invalid command!\n"

module _ (libc : Libc) where
  unfoldable pub set_config_creator : Json → Outcome OflMsg
  unfolding check_args required_number
  set_config_creator args = do
    check_args libc (("flags", e_num) ∷ ("max_len", e_num) ∷ []) args
    flags ← required_number libc args "flags" 16 "missing flags field"
    max_len ← required_number libc args "max_len" 16 "missing max_len field"
    ok (set_config flags max_len)

  abbrev pub inter_sw_config_setter : Interactor OflMsg
  inter_sw_config_setter = changes set_config_creator

  -- Inter_flow_mod::request_msg_creator, up to `new FlowMod(…)`.
  unfoldable pub flow_mod_header : Json → Outcome FlowMod
  unfolding required number_or flow_mod_command
  flow_mod_header args = do
    cookie ← number_or libc args "cookie" 64 0
    cookie_mask ← number_or libc args "cookie_mask" 64 0
    table_id ← number_or libc args "table_id" 8 ofptt_all
    command_type ← required args "command" "missing command field\n"
    idle_timeout ← number_or libc args "idle_timeout" 16 0
    hard_timeout ← number_or libc args "hard_timeout" 16 0
    out_port ← number_or libc args "out_port" 32 ofpp_any
    out_group ← number_or libc args "out_group" 32 ofpg_any
    flags ← number_or libc args "flags" 16 0
    priority ← number_or libc args "priority" 16 0
    buffer_id ← number_or libc args "buffer_id" 32 0
    ok (
        flow_mod cookie cookie_mask table_id (flow_mod_command command_type) idle_timeout
          hard_timeout priority buffer_id out_port out_group flags)

  unfoldable pub flow_mod_creator : Json → Outcome OflMsg
  unfolding check_args flow_mod_header match_set instruction_set
  flow_mod_creator args = do
    check_args libc flow_mod_args args
    header ← flow_mod_header args
    f ← match_set libc args
    i ← instruction_set libc args
    ok (flow_mod_msg (with_instructions i (with_match f header)))

  abbrev pub inter_flow_mod : Interactor OflMsg
  inter_flow_mod = changes flow_mod_creator

  unfoldable pub group_mod_creator : Json → Outcome OflMsg
  unfolding check_args required required_number array_at group_mod_command group_type
      construct_buckets
  group_mod_creator args = do
    check_args libc
        (("command", e_string)
          ∷ ("group_type", e_string)
          ∷ ("group_id", e_num)
          ∷ ("buckets", e_jarray)
          ∷ [])
        args
    command_type ← required args "command" "missing command field\n"
    command ← group_mod_command command_type
    type_name ← required args "group_type" "missing group_type field\n"
    type ← group_type type_name
    group_id ← required_number libc args "group_id" 32 "missing group_id field\n"
    js ← array_at libc args "buckets"
    buckets ← construct_buckets libc js []
    ok (
        group_mod_msg
          (record { command = command; type = type; group_id = group_id; buckets = buckets }))

  abbrev pub inter_group_mod : Interactor OflMsg
  inter_group_mod = changes group_mod_creator

  unfoldable pub port_mod_creator : Json → Outcome OflMsg
  unfolding check_args required required_number number_or ethernetaddr
  port_mod_creator args = do
    check_args libc
        (("port", e_num)
          ∷ ("hw_addr", e_mac)
          ∷ ("config", e_num)
          ∷ ("advertise", e_num)
          ∷ ("mask", e_num)
          ∷ [])
        args
    advertise ← required_number libc args "advertise" 32 "missing advertise field\n"
    port_no ← required_number libc args "port" 32 "missing port field\n"
    config ← required_number libc args "config" 32 "missing config field\n"
    mask ← number_or libc args "mask" 32 0xffffffff
    v ← required args "hw_addr" "missing hw_addr field\n"
    addr ← ethernetaddr v
    ok (
        port_mod_msg (record {
          port_no = port_no;
          hw_addr = addr;
          config = config;
          mask = mask;
          advertise = advertise;
        }))

  abbrev pub inter_port_mod : Interactor OflMsg
  inter_port_mod = changes port_mod_creator

  unfoldable pub meter_id_of : String → ℕ
  unfolding number_bits
  meter_id_of v =
      if string_eq v "slowpath"
      then ofpm_slowpath
      else if string_eq v "controller"
      then ofpm_controller
      else if string_eq v "all"
      then ofpm_all
      else number_bits libc 32 v

  unfoldable pub meter_mod_creator : Json → Outcome OflMsg
  unfolding check_args required required_number array_at meter_mod_command meter_id_of
      construct_bands
  meter_mod_creator args = do
    check_args libc
        (("command", e_string)
          ∷ ("flags", e_num)
          ∷ ("meter_id", e_string)
          ∷ ("meter_bands", e_jarray)
          ∷ [])
        args
    command_type ← required args "command" "missing command field\n"
    command ← meter_mod_command command_type
    flags ← required_number libc args "flags" 16 "missing flags field\n"
    meter ← required args "meter_id" "missing meter_id field\n"
    js ← array_at libc args "meter_bands"
    bands ← construct_bands libc js []
    ok (
        meter_mod_msg (record {
          command = command;
          flags = flags;
          meter_id = meter_id_of meter;
          bands = bands;
        }))

  abbrev pub inter_meter_mod : Interactor OflMsg
  inter_meter_mod = changes meter_mod_creator
