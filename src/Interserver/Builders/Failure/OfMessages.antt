-- ===== src/Interserver/Builders/Failure/OfMessages.antt =====
-- Every interactor throws std::exceptions only (interact_builders.cc, lines 531-1939).
use nox13_interserver.Common.{◌*◌, Option, none, some, List, [], ◌∷◌, String}
use nox13_interserver.Common.Outcome.{Outcome, ok}
use nox13_interserver.OpenFlow.Actions.{FieldValue, number}
use nox13_interserver.OpenFlow.FlowMod.{Match}
use nox13_interserver.OpenFlow.Instructions.{Instruction}
use nox13_interserver.Interserver.Json.{Json}
use nox13_interserver.Interserver.Builders.Arguments.{Libc, find_if_exists, number_bits}
use nox13_interserver.Interserver.Builders.Tables.{Field}
use nox13_interserver.Interserver.Builders.ActionFields.{sized}
use nox13_interserver.Interserver.Builders.MatchFields.{
  add_maskable, add_found, add_eth, match_numbers, construct_match, construct_matches, match_set,
}
use nox13_interserver.Interserver.Builders.InstructionFields.{
  write_metadata_instruction, construct_instruction, construct_instructions, instruction_set,
}
use nox13_interserver.Interserver.Builders.Parts.{
  Bucket, Band, construct_bucket, construct_buckets, band_type, construct_band, construct_bands,
}
use nox13_interserver.Interserver.Builders.Messages.{MultipartType}
use nox13_interserver.Interserver.Builders.Queries.{
  flow_information_req_creator, flow_creator, port_creator, queue_creator, group_creator,
  queue_config_creator, meter_creator,
}
use nox13_interserver.Interserver.Builders.Changes.{
  group_mod_command, group_type, meter_mod_command, set_config_creator, flow_mod_header,
  flow_mod_creator, group_mod_creator, port_mod_creator, meter_mod_creator,
}
use nox13_interserver.Interserver.Builders.Failure.{
  RaisesStd, RaisesStd-ok, RaisesStd-if, RaisesStd-bind, RaisesStd-bind-option, std_rules,
  argument_rules,
}
use nox13_interserver.Interserver.Builders.Failure.OfActions.{RaisesStd-action_set}

abbrev RaisesStdOn : (String → Outcome FieldValue) → Type 0
RaisesStdOn convert = (v : String) → RaisesStd (convert v)

RaisesStd-add_maskable :
    (convert : String → Outcome FieldValue) (args : Json) (key v : String) (f : Match)
    → RaisesStdOn convert
    → RaisesStd (add_maskable convert args key v f)
unfolding add_maskable
RaisesStd-add_maskable convert args key v f h = RaisesStd-bind (convert v) _ (h v) λ value.
    RaisesStd-bind-option (find_if_exists args _) _ (search std_rules) (search std_rules)
      λ m. RaisesStd-bind (convert m) _ (h m) λ _. RaisesStd-ok _

RaisesStd-add_found :
    (convert : String → Outcome FieldValue) (args : Json) (found : Option (String × String))
    (f : Match)
    → RaisesStdOn convert
    → RaisesStd (add_found convert args found f)
unfolding add_found
RaisesStd-add_found convert args none f h = RaisesStd-ok f
RaisesStd-add_found convert args (some (key, v)) f h = RaisesStd-add_maskable convert args key v f h

module _ (libc : Libc) (args : Json) where
  RaisesStd-match_numbers : (fs : List Field) (f : Match) → RaisesStd (match_numbers libc fs args f)
  unfolding match_numbers
  RaisesStd-match_numbers [] f = RaisesStd-ok f
  RaisesStd-match_numbers (x ∷ xs) f =
      RaisesStd-bind-option (find_if_exists args x.key) _ (search std_rules)
        (RaisesStd-match_numbers xs f)
        λ s.
          RaisesStd-bind _ (match_numbers libc xs args)
            (RaisesStd-if (sized x.size) _ _
              (RaisesStd-add_maskable (λ v. ok (number x.size (number_bits libc (8 * x.size) v)))
                args x.key s f λ v. RaisesStd-ok _)
              (RaisesStd-ok f))
            (RaisesStd-match_numbers xs)

  RaisesStd-add_eth :
      (found : Option (String × String)) (f : Match) → RaisesStd (add_eth libc args found f)
  unfolding add_eth
  RaisesStd-add_eth none f = RaisesStd-ok f
  RaisesStd-add_eth (some (key, v)) f =
      RaisesStd-bind-option (find_if_exists args _) _ (search std_rules) (search argument_rules)
        λ m. RaisesStd-ok _

  RaisesStd-construct_match : (f : Match) → RaisesStd (construct_match libc args f)
  unfolding construct_match
  RaisesStd-construct_match f =
      search (argument_rules, RaisesStd-add_found, RaisesStd-add_eth, RaisesStd-match_numbers) depth
        14

module _ (libc : Libc) where
  RaisesStd-construct_matches :
      (js : List Json) (f : Match) → RaisesStd (construct_matches libc js f)
  unfolding construct_matches
  RaisesStd-construct_matches [] f = RaisesStd-ok f
  RaisesStd-construct_matches (j ∷ js) f =
      search (std_rules, RaisesStd-construct_match libc j, RaisesStd-construct_matches js)

  RaisesStd-match_set : (args : Json) → RaisesStd (match_set libc args)
  unfolding match_set
  RaisesStd-match_set args = search (argument_rules, RaisesStd-construct_matches)

  RaisesStd-write_metadata :
      (args : Json) (is : List Instruction) → RaisesStd (write_metadata_instruction libc args is)
  unfolding write_metadata_instruction
  RaisesStd-write_metadata args is = search argument_rules

  RaisesStd-construct_instruction :
      (args : Json) (is : List Instruction) → RaisesStd (construct_instruction libc args is)
  unfolding construct_instruction
  RaisesStd-construct_instruction args is =
      search (argument_rules, RaisesStd-write_metadata, RaisesStd-action_set) depth 14

  RaisesStd-construct_instructions :
      (js : List Json) (is : List Instruction) → RaisesStd (construct_instructions libc js is)
  unfolding construct_instructions
  RaisesStd-construct_instructions [] is = RaisesStd-ok is
  RaisesStd-construct_instructions (j ∷ js) is =
      search (std_rules, RaisesStd-construct_instruction j, RaisesStd-construct_instructions js)

  RaisesStd-instruction_set : (args : Json) → RaisesStd (instruction_set libc args)
  unfolding instruction_set
  RaisesStd-instruction_set args = search (argument_rules, RaisesStd-construct_instructions)

  RaisesStd-construct_buckets :
      (js : List Json) (bs : List Bucket) → RaisesStd (construct_buckets libc js bs)
  unfolding construct_buckets construct_bucket
  RaisesStd-construct_buckets [] bs = RaisesStd-ok bs
  RaisesStd-construct_buckets (j ∷ js) bs =
      search (argument_rules, RaisesStd-action_set, RaisesStd-construct_buckets js) depth 9

  RaisesStd-construct_bands :
      (js : List Json) (bs : List Band) → RaisesStd (construct_bands libc js bs)
  unfolding construct_bands construct_band band_type
  RaisesStd-construct_bands [] bs = RaisesStd-ok bs
  RaisesStd-construct_bands (j ∷ js) bs =
      search (argument_rules, RaisesStd-construct_bands js) depth 12

  pub RaisesStd-flow_creator :
      (type : MultipartType) (args : Json) → RaisesStd (flow_creator libc type args)
  unfolding flow_creator flow_information_req_creator
  RaisesStd-flow_creator type args = search (argument_rules, RaisesStd-match_set) depth 9

  pub RaisesStd-port_creator : (args : Json) → RaisesStd (port_creator libc args)
  unfolding port_creator
  RaisesStd-port_creator args = search argument_rules

  pub RaisesStd-queue_creator : (args : Json) → RaisesStd (queue_creator libc args)
  unfolding queue_creator
  RaisesStd-queue_creator args = search argument_rules

  pub RaisesStd-group_creator : (args : Json) → RaisesStd (group_creator libc args)
  unfolding group_creator
  RaisesStd-group_creator args = search argument_rules

  pub RaisesStd-queue_config : (args : Json) → RaisesStd (queue_config_creator libc args)
  unfolding queue_config_creator
  RaisesStd-queue_config args = search argument_rules

  pub RaisesStd-meter_creator :
      (type : MultipartType) (args : Json) → RaisesStd (meter_creator libc type args)
  unfolding meter_creator
  RaisesStd-meter_creator type args = search argument_rules

  pub RaisesStd-set_config : (args : Json) → RaisesStd (set_config_creator libc args)
  unfolding set_config_creator
  RaisesStd-set_config args = search argument_rules

  RaisesStd-header : (args : Json) → RaisesStd (flow_mod_header libc args)
  unfolding flow_mod_header
  RaisesStd-header args = search argument_rules depth 14

  pub RaisesStd-flow_mod : (args : Json) → RaisesStd (flow_mod_creator libc args)
  unfolding flow_mod_creator
  RaisesStd-flow_mod args =
      search (argument_rules, RaisesStd-header, RaisesStd-match_set, RaisesStd-instruction_set)

  pub RaisesStd-group_mod : (args : Json) → RaisesStd (group_mod_creator libc args)
  unfolding group_mod_creator group_mod_command group_type
  RaisesStd-group_mod args = search (argument_rules, RaisesStd-construct_buckets) depth 16

  pub RaisesStd-port_mod : (args : Json) → RaisesStd (port_mod_creator libc args)
  unfolding port_mod_creator
  RaisesStd-port_mod args = search argument_rules depth 10

  pub RaisesStd-meter_mod : (args : Json) → RaisesStd (meter_mod_creator libc args)
  unfolding meter_mod_creator meter_mod_command
  RaisesStd-meter_mod args = search (argument_rules, RaisesStd-construct_bands) depth 16
