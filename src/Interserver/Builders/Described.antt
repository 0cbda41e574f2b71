-- ===== src/Interserver/Builders/Described.antt =====
-- Which flow_mod a document describes (interact_builders.cc, lines 1590-1661), by its keys and what a
-- missing key stands for.
use native.Mathlib.Nat.{mod-eq_of_lt}
use nox13_interserver.Common.{ℕ, ◌<◌, ◌^◌, String, [], none, some, ◌≡◌, ◌⊎◌, inl, inr, refl, arith}
use nox13_interserver.Common.Outcome.{ok}
use nox13_interserver.OpenFlow.Codes.{
  ofpp_any, ofpg_any, ofptt_all, FlowModCommand, ofpfc_add, ofpfc_modify, ofpfc_modify_strict,
  ofpfc_delete, ofpfc_delete_strict,
}
use nox13_interserver.OpenFlow.FlowMod.{FlowMod}
use nox13_interserver.Interserver.Json.{Json}
use nox13_interserver.Interserver.Builders.Arguments.{
  Libc, find_if_exists, strtonum, required, number_bits, number_or,
}
use nox13_interserver.Interserver.Builders.Changes.{flow_mod_header, flow_mod_command}

abbrev pub command_text : FlowModCommand → String
command_text ofpfc_add = "add"
command_text ofpfc_modify = "modify"
command_text ofpfc_modify_strict = "modify_strict"
command_text ofpfc_delete = "delete"
command_text ofpfc_delete_strict = "delete_strict"

flow_mod_command-command_text : (c : FlowModCommand) → flow_mod_command (command_text c) ≡ c
unfolding flow_mod_command
flow_mod_command-command_text ofpfc_add = refl
flow_mod_command-command_text ofpfc_modify = refl
flow_mod_command-command_text ofpfc_modify_strict = refl
flow_mod_command-command_text ofpfc_delete = refl
flow_mod_command-command_text ofpfc_delete_strict = refl

module _ (libc : Libc) (args : Json) where
  -- The document gives the number for the key, or leaves the key out where that means the number.
  abbrev pub Gives : String → ℕ → ℕ → ℕ → Type 0
  Gives key bits missing n =
      (n < 2 ^ bits)
      × (((find_if_exists args key ≡ ok none) × (n ≡ missing))
          ⊎ ((text : String) × (find_if_exists args key ≡ ok (some text))
              × (strtonum libc text ≡ n)))

  abbrev pub Describes : FlowMod → Type 0
  Describes m =
      (find_if_exists args "command" ≡ ok (some (command_text m.command)))
      × Gives "cookie" 64 0 m.cookie
      × Gives "cookie_mask" 64 0 m.cookie_mask
      × Gives "table_id" 8 ofptt_all m.table_id
      × Gives "idle_timeout" 16 0 m.idle_timeout
      × Gives "hard_timeout" 16 0 m.hard_timeout
      × Gives "priority" 16 0 m.priority
      × Gives "buffer_id" 32 0 m.buffer_id
      × Gives "out_port" 32 ofpp_any m.out_port
      × Gives "out_group" 32 ofpg_any m.out_group
      × Gives "flags" 16 0 m.flags

  number_or-Gives :
      (key : String) (bits missing n : ℕ)
      → Gives key bits missing n
      → number_or libc args key bits missing ≡ ok n
  unfolding number_or number_bits
  number_or-Gives key bits missing n (fits, inl (h, e)) = ground arith
  number_or-Gives key bits missing n (fits, inr (text, h, e)) = rw (h, e, mod-eq_of_lt fits) refl

  -- A document that describes a flow_mod is read as that flow_mod, without match and instructions, which
  -- are added later. It describes it if its "command" is the name of the command, and if each of the ten
  -- numbers, which has to be within the width of its field, either is what the text of its key is read
  -- as, or is the field's default and its key is missing: any port, any group, all tables, otherwise 0.
  pub flow_mod_header-Describes :
      (m : FlowMod)
      → Describes m
      → flow_mod_header libc args ≡ ok (record m { match = none; instructions = [] })
  unfolding flow_mod_header required
  flow_mod_header-Describes m (h, h1, h2, h3, h4, h5, h6, h7, h8, h9, h10) =
      rw
        (
          h,
          number_or-Gives "cookie" 64 0 m.cookie h1,
          number_or-Gives "cookie_mask" 64 0 m.cookie_mask h2,
          number_or-Gives "table_id" 8 ofptt_all m.table_id h3,
          number_or-Gives "idle_timeout" 16 0 m.idle_timeout h4,
          number_or-Gives "hard_timeout" 16 0 m.hard_timeout h5,
          number_or-Gives "priority" 16 0 m.priority h6,
          number_or-Gives "buffer_id" 32 0 m.buffer_id h7,
          number_or-Gives "out_port" 32 ofpp_any m.out_port h8,
          number_or-Gives "out_group" 32 ofpg_any m.out_group h9,
          number_or-Gives "flags" 16 0 m.flags h10,
          flow_mod_command-command_text m.command,
        )
        refl
