-- ===== src/Tests/BuilderTests.antt =====
-- The request builders on a flow request, with stand-ins for the C library that read the texts below.
use text.Mathlib.Text.{◌==◌ as string_eq}
use nox13_interserver.Common.{
  inl, inr, arith, ℕ, ◌*◌, ◌+◌, ◌-◌, ◌≡◌, ◌≢◌, ◌↔◌, refl, true, false, some, none, List, [], ◌∷◌,
  String, All, if◌then◌else◌,
}
use nox13_interserver.Common.Outcome.{ok, undefined, ◌>>=◌}
use nox13_interserver.Ethernet.{codes}
use nox13_interserver.OpenFlow.Actions.{
  output, pop_vlan, copy_ttl_in, append_action, store, make_room, create_output, create_pop_vlan,
  new_actions,
}
use nox13_interserver.OpenFlow.Actions.Growth.{holding}
use nox13_interserver.OpenFlow.Codes.{ofpfc_add, ofpp_any, ofpg_any}
use nox13_interserver.OpenFlow.FlowMod.{FlowMod, flow_mod}
use nox13_interserver.Interserver.Json.{
  Json, null, string, array, dict, end, field, nil, cons, Fields, get_dict_value,
  get_string_noquotes, find_field,
}
use nox13_interserver.Interserver.Resolver.{
  init_interactor, resolver_is_modify, find_object, resolve_request,
}
use nox13_interserver.Interserver.Processor.{
  RequestProcessor, RequestMsg, handle_request, post_response, process_request, interpret_type,
  find_string, find_dpid, from_host_int, interpret_checkerror, interpret_dpid, dpid_check,
  construct_return,
}
use nox13_interserver.Interserver.Builders.Arguments.{
  Libc, e_num, e_mac, is_valid_number, is_valid_eth, find_if_exists, required, array_at, as_array,
  strtonum, number_bits, check_arg, check_args, number_or, required_number, ArgumentsList,
}
use nox13_interserver.Interserver.Builders.ActionFields.{
  output_port, output_action, pop_action, construct_action, construct_actions, action_set,
}
use nox13_interserver.Interserver.Builders.Messages.{OflMsg}
use nox13_interserver.Interserver.Builders.Queries.{port_creator}
use nox13_interserver.Interserver.Builders.Changes.{flow_mod_header, flow_mod_command}
use nox13_interserver.Interserver.Builders.Registry.{installed_resolver}
use nox13_interserver.Interserver.Builders.Refused.{Honest, handle_request-Honest}
use nox13_interserver.Interserver.Builders.Checked.{ValidArg, check_args_iff}
use nox13_interserver.Interserver.Builders.Described.{Describes, flow_mod_header-Describes}
use nox13_interserver.Interserver.Builders.Independent.OfActions.{one_by_one, action_set-one_by_one}
use nox13_interserver.Interserver.Builders.Defined.OfActions.{construct_action-Defined}

-- The decimal number of digits.
abbrev decimal : ℕ → List ℕ → ℕ
decimal n [] = n
decimal n (c ∷ s) = decimal (n * 10 + (c - 48)) s

abbrev out_2 : Json
out_2 = dict (field "action_type" (string "output") (field "out_port" (string "2") end))

abbrev pop_tag : Json
pop_tag = dict (field "action_type" (string "pop") (field "tag_type" (string "vlan") end))

abbrev pub stand_in : Libc
stand_in = record {
  strtoll = λ base s. decimal 0 (codes s);
  inet_pton = λ s. if string_eq s "10.0.0.1" then some (10 ∷ 0 ∷ 0 ∷ 1 ∷ []) else none;
  inet_pton6 = λ s. none;
  parse = λ s. if string_eq s "both" then array (cons out_2 (cons pop_tag nil)) else null;
  junk_type = copy_ttl_in;
  string_object = λ s. [];
}

abbrev both : Json
both = dict (field "action_set" (string "both") end)

-- The two actions of the document are built in their order.
builds_both : action_set stand_in both ≡ ok (holding (output 2 0 ∷ pop_vlan ∷ []))
unfolding action_set array_at as_array find_if_exists get_dict_value get_string_noquotes find_field
    construct_actions construct_action check_args check_arg required required_number output_action
    output_port number_bits strtonum pop_action create_output create_pop_vlan append_action store
    make_room new_actions holding is_valid_number
builds_both = refl

action_set-one_by_one_example :
    action_set stand_in both
    ≡ (array_at stand_in both "action_set" >>= one_by_one stand_in >>= λ ys. ok (holding ys))
action_set-one_by_one_example = action_set-one_by_one stand_in both

abbrev set_source : Fields
set_source = field "action_type" (string "set_field") (field "ipv4_src" (string "10.0.0.1") end)

sets_field : find_if_exists (dict set_source) "action_type" ≢ ok (some "change_ttl")
unfolding find_if_exists get_dict_value get_string_noquotes find_field
sets_field h = cc

construct_action-Defined_example :
    construct_action stand_in (dict set_source) (holding (pop_vlan ∷ [])) ≢ undefined
construct_action-Defined_example =
    construct_action-Defined stand_in set_source (pop_vlan ∷ []) sets_field

abbrev two_tags : ArgumentsList
two_tags = ("port", e_num) ∷ ("hw_addr", e_mac) ∷ []

abbrev port_5 : Json
port_5 = dict (field "port" (string "5") (field "hw_addr" (string "garbage") end))

-- No text is refused as an Ethernet address.
accepts_garbage : check_args stand_in two_tags port_5 ≡ ok tt
unfolding check_args check_arg find_if_exists get_dict_value get_string_noquotes find_field
    is_valid_number is_valid_eth
accepts_garbage = refl

check_args_iff_example :
    (check_args stand_in two_tags port_5 ≡ ok tt) ↔ All (ValidArg stand_in port_5) two_tags
check_args_iff_example = check_args_iff stand_in port_5 two_tags

-- A flow_mod for table 2, of which the rest is left out.
abbrev add_flow : Json
add_flow = dict (field "command" (string "add") (field "table_id" (string "2") end))

abbrev added : FlowMod
added = flow_mod 0 0 2 ofpfc_add 0 0 0 0 ofpp_any ofpg_any 0

Describes-added : Describes stand_in add_flow added
unfolding find_if_exists get_dict_value get_string_noquotes find_field strtonum
Describes-added = (
  refl,
  (ground arith, inl (refl, refl)),
  (ground arith, inl (refl, refl)),
  (ground arith, inr ("2", refl, refl)),
  (ground arith, inl (refl, refl)),
  (ground arith, inl (refl, refl)),
  (ground arith, inl (refl, refl)),
  (ground arith, inl (refl, refl)),
  (ground arith, inl (refl, refl)),
  (ground arith, inl (refl, refl)),
  (ground arith, inl (refl, refl)),
)

flow_mod_header-Describes_example : flow_mod_header stand_in add_flow ≡ ok added
flow_mod_header-Describes_example =
    flow_mod_header-Describes stand_in add_flow added Describes-added

-- A table number that does not fit is cut to 8 bits.
wraps_table :
    flow_mod_header stand_in
      (dict (field "command" (string "add") (field "table_id" (string "258") end)))
    ≡ ok added
unfolding flow_mod_header number_or required find_if_exists get_dict_value get_string_noquotes
    find_field number_bits strtonum flow_mod_command
wraps_table = refl

made_port_mod : (init_interactor "port_mod" (installed_resolver stand_in)).1 ≡ true
unfolding init_interactor installed_resolver find_object
made_port_mod = refl

-- A request for the statistics of a port that is no number.
abbrev bad_port : Json
bad_port =
    dict (
      field "type" (string "port_stats")
        (field "dpid" (string "7") (field "port" (string "x") end)))

abbrev seven : String → ℕ
seven s = 7

abbrev seven_string : ℕ → String
seven_string d = "00:00:00:00:00:07"

abbrev taken : ℕ → OflMsg → ℕ
taken d m = 0

abbrev to_path : RequestMsg
to_path = record { url = "/switches/info"; body = "bad" }

abbrev processor : RequestProcessor OflMsg
processor = record {
  auto_mutex = false;
  reply_state = false;
  dpids = 7 ∷ [];
  resolver = record (installed_resolver stand_in) { res_ids = "port_stats" ∷ [] };
  type_hash = none;
  wait_sleeping = false;
  posted = [];
}

abbrev refused : RequestProcessor OflMsg
refused = record processor {
  type_hash = some ("port_stats" ∷ []);
  resolver = (init_interactor "port_stats" processor.resolver).0;
  posted = record { response = "port has invalid value!\n"; status = 500 } ∷ [];
}

refuses_port :
    handle_request (λ body. bad_port) seven seven_string taken to_path processor ≡ ok refused
unfolding handle_request process_request interpret_type interpret_checkerror interpret_dpid
    dpid_check get_dict_value get_string_noquotes find_field find_string find_dpid from_host_int
    init_interactor resolver_is_modify resolve_request find_object post_response installed_resolver
    construct_return check_args check_arg find_if_exists is_valid_number port_creator
refuses_port = refl

handle_request-Honest_example : Honest taken bad_port processor refused
handle_request-Honest_example =
    handle_request-Honest stand_in taken (λ body. bad_port) seven seven_string to_path processor
      refused refl refuses_port
