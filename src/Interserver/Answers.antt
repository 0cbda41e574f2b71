-- ===== src/Interserver/Answers.antt =====
-- interact_answer.cc: what the component posts for a message of a switch. `Struct` stands for oflib's
-- structs, and a `Printers` for what the code calls to print them: an ostream's decimal numbers, and
-- the functions ofl_structs_…_to_string and ofl_msg_to_string of oflib.
pub mod Dispatch
pub mod Kinds
pub mod Served
use Prim.Native.String.{◌++◌ as string_append}
use nox13_interserver.Common.{
  ℕ, ◌+◌, ◌-◌, ◌/◌, ◌%◌, ◌^◌, List, [], ◌∷◌, map, Option, none, some, String, ltb, ◌==◌,
  if◌then◌else◌,
}
use nox13_interserver.Common.Outcome.{Outcome, ok, throws, undefined}

pub data Printer : Type 0 where
  config table_features table_stats flow_stats port_stats port queue_stats group_stats
        group_desc_stats queue meter_stats meter_config meter_features msg :
      Printer

pub record Printers (Struct : Type 0) : Type 0 where
  pub decimal : ℕ → String
  pub to_string : Printer → Struct → String

-- ofl_msg_features_reply, the fields that are printed.
pub record FeaturesReply : Type 0 where
  pub datapath_id : ℕ
  pub n_buffers : ℕ
  pub n_tables : ℕ
  pub auxiliary_id : ℕ
  pub capabilities : ℕ

-- ofl_msg_reply_desc
pub record DescReply : Type 0 where
  pub mfr_desc : String
  pub hw_desc : String
  pub sw_desc : String
  pub serial_num : String
  pub dp_desc : String

-- ofl_msg_multipart_reply_aggregate
pub record AggregateReply : Type 0 where
  pub packet_count : ℕ
  pub byte_count : ℕ
  pub flow_count : ℕ

-- A message of a switch, by its type, and by its multipart type. An array of structs is a list.
pub data Reply (Struct : Type 0) : Type 0 where
  get_config_reply : Struct → Reply Struct
  features_reply : FeaturesReply → Reply Struct
  desc_reply : DescReply → Reply Struct
  flow_reply : List Struct → Reply Struct
  aggregate_reply : AggregateReply → Reply Struct
  table_reply : List Struct → Reply Struct
  port_stats_reply : List Struct → Reply Struct
  queue_reply : List Struct → Reply Struct
  group_reply : List Struct → Reply Struct
  group_desc_reply : List Struct → Reply Struct
  group_features_reply : Struct → Reply Struct
  meter_reply : List Struct → Reply Struct
  meter_config_reply : List Struct → Reply Struct
  meter_features_reply : Struct → Reply Struct
  table_features_reply : List Struct → Reply Struct
  port_desc_reply : List Struct → Reply Struct
  queue_get_config_reply : ℕ → List Struct → Reply Struct
  error_msg : Struct → Reply Struct
  other_msg : Reply Struct

-- `buf << text << … `
abbrev pub concat : List String → String
concat [] = ""
concat (s ∷ ss) = string_append s (concat ss)

-- (capabilities & (1 << bit) ? "yes" : "no")
abbrev pub yes_no : ℕ → ℕ → String
yes_no bit capabilities = if capabilities / 2 ^ bit % 2 == 1 then "yes" else "no"

module _ {Struct : Type 0} (p : Printers Struct) where
  -- The number as an int of 32 bits.
  unfoldable pub print_int : ℕ → String
  print_int n =
      let i = n % 2 ^ 32 in
      if ltb i (2 ^ 31) then p.decimal i else string_append "-" (p.decimal (2 ^ 32 - i))

  -- The loop over the array.
  unfoldable pub print_all : Printer → List Struct → String
  print_all f [] = ""
  print_all f (s ∷ ss) = string_append (p.to_string f s) (string_append "\n\n" (print_all f ss))

  unfoldable pub handle_sw_config_reply : Reply Struct → Outcome String
  handle_sw_config_reply (get_config_reply c) = ok (string_append (p.to_string config c) "\n")
  handle_sw_config_reply r = undefined

  unfoldable pub handle_features_reply : Reply Struct → Outcome String
  handle_features_reply (features_reply r) = ok (
      concat (
        "Datapathid is:\t"
        ∷ p.decimal r.datapath_id
        ∷ "\n"
        ∷ "Max packet buffered at once: "
        ∷ p.decimal (r.n_buffers % 2 ^ 32)
        ∷ "\n"
        ∷ "Number of tables supported: "
        ∷ p.decimal (r.n_tables % 2 ^ 32)
        ∷ "\n"
        ∷ "Auxiliary ID: "
        ∷ p.decimal (r.auxiliary_id % 2 ^ 32)
        ∷ "\n"
        ∷ "Supported capabilities are:\n"
        ∷ "flow statistics: "
        ∷ yes_no 0 r.capabilities
        ∷ "\n"
        ∷ "table statistics: "
        ∷ yes_no 1 r.capabilities
        ∷ "\n"
        ∷ "port statistics: "
        ∷ yes_no 2 r.capabilities
        ∷ "\n"
        ∷ "group statistics: "
        ∷ yes_no 3 r.capabilities
        ∷ "\n"
        ∷ "reasemble ip fragments: "
        ∷ yes_no 5 r.capabilities
        ∷ "\n"
        ∷ "queue statistics: "
        ∷ yes_no 6 r.capabilities
        ∷ "\n"
        ∷ "block looping ports: "
        ∷ yes_no 8 r.capabilities
        ∷ "\n"
        ∷ []))
  handle_features_reply r = undefined

  -- No event is given to this handler.
  unfoldable pub handle_table_features : Reply Struct → Outcome String
  handle_table_features (table_features_reply ss) =
      ok (concat (map (p.to_string table_features) ss))
  handle_table_features r = undefined

  unfoldable pub handle_desc : Reply Struct → Outcome String
  handle_desc (desc_reply r) = ok (
      concat (
        "Manufacturer:\t" ∷ r.mfr_desc ∷ "\n" ∷ "Hardware:\t" ∷ r.hw_desc ∷ "\n" ∷ "Software:\t"
        ∷ r.sw_desc ∷ "\n" ∷ "Serial number:\t" ∷ r.serial_num ∷ "\n" ∷ "Datapath:\t" ∷ r.dp_desc
        ∷ "\n" ∷ []))
  handle_desc r = undefined

  unfoldable pub handle_table_stats : Reply Struct → Outcome String
  unfolding print_all
  handle_table_stats (table_reply ss) = ok (print_all table_stats ss)
  handle_table_stats r = undefined

  unfoldable pub handle_flow_info : Reply Struct → Outcome String
  unfolding print_all
  handle_flow_info (flow_reply ss) = ok (print_all flow_stats ss)
  handle_flow_info r = undefined

  unfoldable pub handle_agr_flow_info : Reply Struct → Outcome String
  unfolding print_int
  handle_agr_flow_info (aggregate_reply r) = ok (
      concat (
        "Byte count: "
        ∷ print_int r.byte_count
        ∷ "\n"
        ∷ "Packet count: "
        ∷ print_int r.packet_count
        ∷ "\n"
        ∷ "Flow count: "
        ∷ print_int r.flow_count
        ∷ "\n"
        ∷ []))
  handle_agr_flow_info r = undefined

  unfoldable pub handle_port_stats : Reply Struct → Outcome String
  unfolding print_all
  handle_port_stats (port_stats_reply ss) = ok (print_all port_stats ss)
  handle_port_stats r = undefined

  unfoldable pub handle_port_desc : Reply Struct → Outcome String
  unfolding print_all
  handle_port_desc (port_desc_reply ss) = ok (print_all port ss)
  handle_port_desc r = undefined

  unfoldable pub handle_queue_stats : Reply Struct → Outcome String
  unfolding print_all
  handle_queue_stats (queue_reply ss) = ok (print_all queue_stats ss)
  handle_queue_stats r = undefined

  unfoldable pub handle_group_stats : Reply Struct → Outcome String
  unfolding print_all
  handle_group_stats (group_reply ss) = ok (print_all group_stats ss)
  handle_group_stats r = undefined

  unfoldable pub handle_group_desc : Reply Struct → Outcome String
  unfolding print_all
  handle_group_desc (group_desc_reply ss) = ok (print_all group_desc_stats ss)
  handle_group_desc r = undefined

  unfoldable pub handle_group_features : Reply Struct → Outcome String
  handle_group_features (group_features_reply s) = ok (string_append (p.to_string msg s) "\n\n")
  handle_group_features r = undefined

  unfoldable pub handle_queue_config : Reply Struct → Outcome String
  unfolding print_all print_int
  handle_queue_config (queue_get_config_reply n ss) =
      ok (concat ("Port to be queried" ∷ print_int n ∷ "\n" ∷ print_all queue ss ∷ []))
  handle_queue_config r = undefined

  unfoldable pub handle_meter_stats : Reply Struct → Outcome String
  unfolding print_all
  handle_meter_stats (meter_reply ss) = ok (print_all meter_stats ss)
  handle_meter_stats r = undefined

  unfoldable pub handle_meter_config : Reply Struct → Outcome String
  unfolding print_all
  handle_meter_config (meter_config_reply ss) = ok (print_all meter_config ss)
  handle_meter_config r = undefined

  -- Nor to this one.
  unfoldable pub handle_meter_features : Reply Struct → Outcome String
  handle_meter_features (meter_features_reply s) =
      ok (string_append (p.to_string meter_features s) "\n\n")
  handle_meter_features r = undefined

  unfoldable pub handle_error : Reply Struct → Outcome String
  handle_error (error_msg s) = ok (string_append (p.to_string msg s) "\n")
  handle_error r = undefined
