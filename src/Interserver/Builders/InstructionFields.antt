-- ===== src/Interserver/Builders/InstructionFields.antt =====
-- Instruction_fields_builder::construct_instruction (interact_builders.cc, lines 531-647).
use text.Mathlib.Text.{◌==◌ as string_eq}
use nox13_interserver.Common.{ℕ, Option, none, some, List, [], ◌∷◌, String, if◌then◌else◌}
use nox13_interserver.Common.Outcome.{Outcome, ok, ◌>>=◌, ◌>>◌}
use nox13_interserver.OpenFlow.Instructions.{
  Instruction, new_instructions, create_apply, create_write, create_goto_table,
  create_write_metadata, create_write_metadata_masked, create_clear_actions, create_meter,
}
use nox13_interserver.Interserver.Json.{Json}
use nox13_interserver.Interserver.Builders.Arguments.{
  Libc, ArgumentsList, e_string, e_num, e_jarray, find_if_exists, required, number_bits, check_args,
  required_number, array_at,
}
use nox13_interserver.Interserver.Builders.ActionFields.{action_set}

abbrev pub instr_tags : ArgumentsList
instr_tags =
    ("instr_type", e_string)
    ∷ ("goto_id", e_num)
    ∷ ("metadata", e_num)
    ∷ ("metadata_mask", e_num)
    ∷ ("meter_id", e_num)
    ∷ ("action_set", e_jarray)
    ∷ []

module _ (libc : Libc) where
  unfoldable pub write_metadata_instruction : Json → List Instruction → Outcome (List Instruction)
  unfolding required_number find_if_exists number_bits create_write_metadata
      create_write_metadata_masked
  write_metadata_instruction args instr = do
    md ← required_number libc args "metadata" 64 "missing metadata field"
    mask ← find_if_exists args "metadata_mask"
    ok (with_mask md mask)
    where
      with_mask : ℕ → Option String → List Instruction
      with_mask md none = create_write_metadata md instr
      with_mask md (some s) = create_write_metadata_masked md (number_bits libc 64 s) instr

  unfoldable pub construct_instruction : Json → List Instruction → Outcome (List Instruction)
  unfolding check_args required required_number write_metadata_instruction action_set
      create_goto_table create_write create_apply create_clear_actions create_meter
  construct_instruction args instr = do
    check_args libc instr_tags args
    value ← required args "instr_type" "missing instr_type field\n"
    if string_eq value "goto_table"
        then (required_number libc args "goto_id" 8 "missing goto_id argument\n" >>= λ id.
            ok (create_goto_table id instr))
        else if string_eq value "write_metadata"
        then write_metadata_instruction args instr
        else if string_eq value "write_actions"
        then (action_set libc args >>= λ ac. ok (create_write ac instr))
        else if string_eq value "apply_actions"
        then (action_set libc args >>= λ ac. ok (create_apply ac instr))
        else if string_eq value "clear_actions"
        then ok (create_clear_actions instr)
        else if string_eq value "meter"
        then (required_number libc args "meter_id" 32 "missing meter_id field" >>= λ id.
            ok (create_meter id instr))
        else ok instr

  unfoldable pub construct_instructions : List Json → List Instruction → Outcome (List Instruction)
  unfolding construct_instruction
  construct_instructions [] instr = ok instr
  construct_instructions (j ∷ js) instr =
      construct_instruction j instr >>= construct_instructions js

  -- new Instruction(), and the loop over the array of "instruction_set".
  unfoldable pub instruction_set : Json → Outcome (List Instruction)
  unfolding array_at construct_instructions
  instruction_set args =
      array_at libc args "instruction_set" >>= λ js. construct_instructions js new_instructions
