-- ===== src/OpenFlow/Codes.antt =====
-- Constants of openflow/openflow.h.
use nox13_interserver.Common.{ℕ}

abbrev pub ofpp_in_port : ℕ
ofpp_in_port = 0xfffffff8

abbrev pub ofpp_table : ℕ
ofpp_table = 0xfffffff9

abbrev pub ofpp_normal : ℕ
ofpp_normal = 0xfffffffa

abbrev pub ofpp_flood : ℕ
ofpp_flood = 0xfffffffb

abbrev pub ofpp_controller : ℕ
ofpp_controller = 0xfffffffd

abbrev pub ofpp_local : ℕ
ofpp_local = 0xfffffffe

abbrev pub ofpp_any : ℕ
ofpp_any = 0xffffffff

abbrev pub ofpg_all : ℕ
ofpg_all = 0xfffffffc

abbrev pub ofpg_any : ℕ
ofpg_any = 0xffffffff

abbrev pub ofptt_all : ℕ
ofptt_all = 0xff

abbrev pub ofpq_all : ℕ
ofpq_all = 0xffffffff

abbrev pub ofpm_slowpath : ℕ
ofpm_slowpath = 0xfffffffd

abbrev pub ofpm_controller : ℕ
ofpm_controller = 0xfffffffe

abbrev pub ofpm_all : ℕ
ofpm_all = 0xffffffff

abbrev pub ofp_no_buffer : ℕ
ofp_no_buffer = 0xffffffff

abbrev pub ofp_default_priority : ℕ
ofp_default_priority = 0x8000

abbrev pub ofp_flow_permanent : ℕ
ofp_flow_permanent = 0

-- enum ofp_flow_mod_command
pub data FlowModCommand : Type 0 where
  ofpfc_add ofpfc_modify ofpfc_modify_strict ofpfc_delete ofpfc_delete_strict : FlowModCommand
