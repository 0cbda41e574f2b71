-- ===== src/Interserver/Builders/ActionFields.antt =====
-- Action_fields_builder::construct_action (interact_builders.cc, lines 253-527), and the loop over an
-- "action_set" that its callers have.
use text.Mathlib.Text.{◌==◌ as string_eq}
use nox13_interserver.Common.{
  ℕ, ◌*◌, ◌||◌, ◌==◌, Bool, Option, none, some, List, [], ◌∷◌, String, if◌then◌else◌,
}
use nox13_interserver.Common.Outcome.{Outcome, ok, ◌>>=◌, ◌>>◌, invalid_argument}
use nox13_interserver.OpenFlow.Codes.{
  ofpp_in_port, ofpp_table, ofpp_normal, ofpp_flood, ofpp_controller, ofpp_local,
}
use nox13_interserver.OpenFlow.Actions.{
  Actions, new_actions, number, address, TagType, push_vlan, push_mpls, push_pbb, copy_ttl_in,
  copy_ttl_out, dec_nw_ttl, dec_mpls_ttl, create_output, create_copy_ttl, create_dec_ttl,
  create_push, create_pop_vlan, create_pop_mpls, create_set_nw_ttl, create_set_mpls_ttl,
  create_set_queue, create_group, create_set_field,
}
use nox13_interserver.Interserver.Json.{Json}
use nox13_interserver.Interserver.Builders.Arguments.{
  Libc, find_if_exists, required, first_of, or_undefined, ethernetaddr, number_bits, check_args,
  required_number, array_at,
}
use nox13_interserver.Interserver.Builders.Tables.{Field, fields, action_tags, special_fields}

-- The cases of the switch on the size, which is in bytes.
abbrev pub sized : ℕ → Bool
sized n = n == 1 || n == 2 || n == 4 || n == 8

abbrev pub ipv4_keys : List String
ipv4_keys = "ipv4_src" ∷ "ipv4_dst" ∷ []

abbrev pub ipv6_keys : List String
ipv6_keys = "ipv6_src" ∷ "ipv6_dst" ∷ "ipv6_nd_target" ∷ "ipv6_nd_tll" ∷ "ipv6_nd_sll" ∷ []

module _ (libc : Libc) where
  -- The number of a port, or the port of a name.
  unfoldable pub output_port : String → ℕ
  unfolding number_bits
  output_port v =
      if string_eq v "in_port"
      then ofpp_in_port
      else if string_eq v "table"
      then ofpp_table
      else if string_eq v "normal"
      then ofpp_normal
      else if string_eq v "flood"
      then ofpp_flood
      else if string_eq v "controller"
      then ofpp_controller
      else if string_eq v "local"
      then ofpp_local
      else number_bits libc 32 v

  unfoldable pub output_action : Json → Actions → Outcome Actions
  unfolding required output_port create_output
  output_action args acts = do
    v ← required args "out_port" "missing out_port argument in action output!\n"
    create_output (output_port v) acts

  unfoldable pub set_queue_action : Json → Actions → Outcome Actions
  unfolding required_number create_set_queue
  set_queue_action args acts = do
    id ← required_number libc args "queue_id" 32 "missing queue_id argument in action set_queue!\n"
    create_set_queue id acts

  unfoldable pub group_action : Json → Actions → Outcome Actions
  unfolding required_number create_group
  group_action args acts = do
    id ← required_number libc args "group_id" 32 "missing group_id argument in action group!\n"
    create_group id acts

  unfoldable pub push_type : String → Outcome TagType
  push_type tt =
      if string_eq tt "vlan"
      then ok push_vlan
      else if string_eq tt "mpls"
      then ok push_mpls
      else if string_eq tt "pbb"
      then ok push_pbb
      else invalid_argument "invalid tag_type in action push!\n"

  unfoldable pub push_action : Json → Actions → Outcome Actions
  unfolding required required_number push_type create_push
  push_action args acts = do
    tt ← required args "tag_type" "missing tag_type argument in action push!\n"
    ethertype ←
        required_number libc args "ethertype" 16 "missing ethertype argument in action push!\n"
    type ← push_type tt
    create_push type ethertype acts

  unfoldable pub pop_action : Json → Actions → Outcome Actions
  unfolding required required_number create_pop_vlan create_pop_mpls
  pop_action args acts = do
    tt ← required args "tag_type" "missing tag_type argument in action pop!\n"
    if string_eq tt "vlan"
        then create_pop_vlan acts
        else if string_eq tt "mpls"
        then pop_mpls_action
        else invalid_argument "invalid tag_type in action pop!\n"
    where
      pop_mpls_action : Outcome Actions
      pop_mpls_action = do
        ethertype ←
            required_number libc args "ethertype" 16 "missing ethertype argument in action pop!\n"
        create_pop_mpls ethertype acts

  unfoldable pub set_ttl_action : Json → Actions → Outcome Actions
  unfolding required required_number create_set_nw_ttl create_set_mpls_ttl
  set_ttl_action args acts = do
    ttl ← required_number libc args "ttl" 8 "missing ttl argument in action change ttl!\n"
    type ← required args "ttl_type" "missing ttl_type argument in action change ttl!\n"
    if string_eq type "ip"
        then create_set_nw_ttl ttl acts
        else if string_eq type "mpls"
        then create_set_mpls_ttl ttl acts
        else invalid_argument "invalid ttl_type in action chage ttl!\n"

  unfoldable pub dec_ttl_action : Json → Actions → Outcome Actions
  unfolding required create_dec_ttl
  dec_ttl_action args acts = do
    type ← required args "ttl_type" "missing ttl_type argument in action change ttl!\n"
    if string_eq type "ip"
        then create_dec_ttl dec_nw_ttl acts
        else if string_eq type "mpls"
        then create_dec_ttl dec_mpls_ttl acts
        else invalid_argument "invalid ttl_type in action change ttl!\n"

  unfoldable pub copy_ttl_action : Json → Actions → Outcome Actions
  unfolding required
  copy_ttl_action args acts = do
    type ← required args "ttl_type" "missing ttl_type argument in action change ttl!\n"
    if string_eq type "in"
        then create_copy_ttl libc.junk_type copy_ttl_in acts
        else if string_eq type "out"
        then create_copy_ttl libc.junk_type copy_ttl_out acts
        else invalid_argument "invalid ttl_type in action change ttl!\n"

  unfoldable pub change_ttl_action : Json → Actions → Outcome Actions
  unfolding required set_ttl_action dec_ttl_action copy_ttl_action
  change_ttl_action args acts = do
    ta ← required args "ttl_action" "missing ttl_action argument in action change ttl!\n"
    if string_eq ta "set"
        then set_ttl_action args acts
        else if string_eq ta "decrement"
        then dec_ttl_action args acts
        else if string_eq ta "copy"
        then copy_ttl_action args acts
        else invalid_argument "invalid ttl_action!\n"

  -- The loop over the numbers: the first key that exists and whose size is 1, 2, 4 or 8.
  unfoldable pub set_number : List Field → Json → Actions → Outcome Actions
  unfolding find_if_exists number_bits create_set_field
  set_number [] args acts = ok acts
  set_number (f ∷ fs) args acts =
      let rest = set_number fs args acts in
      find_if_exists args f.key >>= λ v. elim v [
        | none ↦ rest
        | some s ↦
            if sized f.size
            then create_set_field f.key (number f.size (number_bits libc (8 * f.size) s)) acts
            else rest
      ]

  -- What set_field does with the first address of each kind.
  unfoldable pub set_first :
      Json
      → Actions
      → Option (String × String)
      → Option (String × String)
      → Option (String × String)
      → Outcome Actions
  unfolding ethernetaddr set_number create_set_field
  set_first args acts (some (key, v)) ipv6 eth =
      or_undefined (libc.inet_pton v) >>= λ a. create_set_field key (address a) acts
  set_first args acts none (some (key, v)) eth =
      or_undefined (libc.inet_pton6 v) >>= λ a. create_set_field key (address a) acts
  set_first args acts none none (some (key, v)) =
      ethernetaddr v >>= λ a. create_set_field key (address a) acts
  set_first args acts none none none = set_number (special_fields fields) args acts

  -- The operator `|` reads both Ethernet addresses, so that the later one counts.
  unfoldable pub set_field_action : Json → Actions → Outcome Actions
  unfolding first_of set_first
  set_field_action args acts = do
    ipv4 ← first_of args ("ipv4_src" ∷ "ipv4_dst" ∷ [])
    ipv6 ←
        first_of args
          ("ipv6_src" ∷ "ipv6_dst" ∷ "ipv6_nd_target" ∷ "ipv6_nd_tll" ∷ "ipv6_nd_sll" ∷ [])
    eth ← first_of args ("eth_src" ∷ "eth_dst" ∷ [])
    set_first args acts ipv4 ipv6 eth

  unfoldable pub construct_action : Json → Actions → Outcome Actions
  unfolding check_args required output_action set_queue_action group_action push_action pop_action
      change_ttl_action set_field_action
  construct_action args acts = do
    check_args libc action_tags args
    value ← required args "action_type" "missing action_type field in action\n"
    if string_eq value "output"
        then output_action args acts
        else if string_eq value "set_queue"
        then set_queue_action args acts
        else if string_eq value "group"
        then group_action args acts
        else if string_eq value "push"
        then push_action args acts
        else if string_eq value "pop"
        then pop_action args acts
        else if string_eq value "change_ttl"
        then change_ttl_action args acts
        else if string_eq value "set_field"
        then set_field_action args acts
        else ok acts

  unfoldable pub construct_actions : List Json → Actions → Outcome Actions
  unfolding construct_action
  construct_actions [] acts = ok acts
  construct_actions (j ∷ js) acts = construct_action j acts >>= construct_actions js

  -- new Actions(), and the loop over the array of "action_set".
  unfoldable pub action_set : Json → Outcome Actions
  unfolding array_at construct_actions new_actions
  action_set args = array_at libc args "action_set" >>= λ js. construct_actions js new_actions
