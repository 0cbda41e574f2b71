-- ===== src/Interserver/Builders/Messages.antt =====
-- The messages that the interactors build, without the fields that their code leaves unset.
use nox13_interserver.Common.{ℕ, List}
use nox13_interserver.OpenFlow.FlowMod.{Match, FlowMod}
use nox13_interserver.Interserver.Builders.Parts.{Bucket, Band}

-- enum ofp_multipart_types
pub data MultipartType : Type 0 where
  ofpmp_desc ofpmp_flow ofpmp_aggregate ofpmp_table ofpmp_port_stats ofpmp_queue ofpmp_group
        ofpmp_group_desc ofpmp_group_features ofpmp_meter ofpmp_meter_config ofpmp_meter_features
        ofpmp_table_features ofpmp_port_desc :
      MultipartType

-- ofl_msg_multipart_request_flow
pub record FlowRequest : Type 0 where
  pub type : MultipartType
  pub table_id : ℕ
  pub out_port : ℕ
  pub out_group : ℕ
  pub cookie : ℕ
  pub cookie_mask : ℕ
  pub match : Match

pub data GroupModCommand : Type 0 where
  ofpgc_add ofpgc_modify ofpgc_delete : GroupModCommand

pub data GroupType : Type 0 where
  ofpgt_all ofpgt_select ofpgt_indirect ofpgt_ff : GroupType

pub record GroupMod : Type 0 where
  pub command : GroupModCommand
  pub type : GroupType
  pub group_id : ℕ
  pub buckets : List Bucket

pub record PortMod : Type 0 where
  pub port_no : ℕ
  pub hw_addr : List ℕ
  pub config : ℕ
  pub mask : ℕ
  pub advertise : ℕ

pub data MeterModCommand : Type 0 where
  ofpmc_add ofpmc_modify ofpmc_delete : MeterModCommand

pub record MeterMod : Type 0 where
  pub command : MeterModCommand
  pub flags : ℕ
  pub meter_id : ℕ
  pub bands : List Band

pub data OflMsg : Type 0 where
  get_config_request features_request : OflMsg
  set_config : ℕ → ℕ → OflMsg
  multipart_request : MultipartType → OflMsg
  flow_request : FlowRequest → OflMsg
  port_request : ℕ → OflMsg
  queue_request : ℕ → ℕ → OflMsg
  group_request : ℕ → OflMsg
  meter_request : MultipartType → ℕ → OflMsg
  queue_get_config_request : ℕ → OflMsg
  flow_mod_msg : FlowMod → OflMsg
  group_mod_msg : GroupMod → OflMsg
  port_mod_msg : PortMod → OflMsg
  meter_mod_msg : MeterMod → OflMsg
