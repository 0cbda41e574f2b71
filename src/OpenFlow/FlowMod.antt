-- ===== src/OpenFlow/FlowMod.antt =====
-- lib/flowmod.cc, and the matches of include/flow.hh as lists of named fields. The hash map of a
-- match belongs to oflib: only what `Flow` puts into it is listed, in the order of the calls.
use nox13_interserver.Common.{ℕ, Option, none, some, List, [], ◌∷◌, ◌++◌, String}
use nox13_interserver.OpenFlow.Codes.{FlowModCommand}
use nox13_interserver.OpenFlow.Actions.{FieldValue}
use nox13_interserver.OpenFlow.Instructions.{Instruction}

-- One field that Add_Field puts, with its mask if it is given one.
pub record MatchField : Type 0 where
  pub name : String
  pub value : FieldValue
  pub mask : Option FieldValue

abbrev pub Match : Type 0
Match = List MatchField

-- Flow::Add_Field(name, value) and Flow::Add_Field(name, value, mask)
abbrev pub add_field : String → FieldValue → Match → Match
add_field name value m = m ++ record { name = name; value = value; mask = none } ∷ []

abbrev pub add_field_masked : String → FieldValue → FieldValue → Match → Match
add_field_masked name value mask m =
    m ++ record { name = name; value = value; mask = some mask } ∷ []

pub record FlowMod : Type 0 where
  pub cookie : ℕ
  pub cookie_mask : ℕ
  pub table_id : ℕ
  pub command : FlowModCommand
  pub idle_timeout : ℕ
  pub hard_timeout : ℕ
  pub priority : ℕ
  pub buffer_id : ℕ
  pub out_port : ℕ
  pub out_group : ℕ
  pub flags : ℕ
  pub match : Option Match
  pub instructions : List Instruction

-- The constructor with eleven arguments.
abbrev pub flow_mod : ℕ → ℕ → ℕ → FlowModCommand → ℕ → ℕ → ℕ → ℕ → ℕ → ℕ → ℕ → FlowMod
flow_mod cookie cookie_mask table_id cmd idlet hardt prio buff_id out_port out_group flags =
    record {
      cookie = cookie;
      cookie_mask = cookie_mask;
      table_id = table_id;
      command = cmd;
      idle_timeout = idlet;
      hard_timeout = hardt;
      priority = prio;
      buffer_id = buff_id;
      out_port = out_port;
      out_group = out_group;
      flags = flags;
      match = none;
      instructions = [];
    }

-- AddMatch and AddInstructions
abbrev pub with_match : Match → FlowMod → FlowMod
with_match m f = record f { match = some m }

abbrev pub with_instructions : List Instruction → FlowMod → FlowMod
with_instructions insts f = record f { instructions = insts }
