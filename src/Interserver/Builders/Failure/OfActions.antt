-- ===== src/Interserver/Builders/Failure/OfActions.antt =====
-- The builder of actions throws std::exceptions only (interact_builders.cc, lines 253-600).
use nox13_interserver.Common.{ℕ, zero, suc, Option, none, some, List, [], ◌∷◌, String}
use nox13_interserver.OpenFlow.Actions.{
  Action, Actions, Slot, unwritten, pointer, TtlType, copy_ttl_in, copy_ttl_out, dec_nw_ttl,
  dec_mpls_ttl, FieldValue, append_action, store, follow, create_output, create_copy_ttl,
  create_dec_ttl, create_push, create_pop_vlan, create_pop_mpls, create_set_nw_ttl,
  create_set_mpls_ttl, create_set_queue, create_group, create_set_field,
}
use nox13_interserver.Interserver.Json.{Json}
use nox13_interserver.Interserver.Builders.Arguments.{Libc, find_if_exists}
use nox13_interserver.Interserver.Builders.Tables.{Field, fields, special_fields}
use nox13_interserver.Interserver.Builders.ActionFields.{
  sized, push_type, output_action, set_queue_action, group_action, push_action, pop_action,
  set_ttl_action, dec_ttl_action, copy_ttl_action, change_ttl_action, set_number, set_first,
  set_field_action, construct_action, construct_actions, action_set,
}
use nox13_interserver.Interserver.Builders.Failure.{
  RaisesStd, RaisesStd-if, RaisesStd-bind-option, std_rules, argument_rules,
}

RaisesStd-store : (x : Action) (a : Actions) → RaisesStd (store x a)
unfolding store
RaisesStd-store x a = search std_rules

RaisesStd-append : (x : Action) (a : Actions) → RaisesStd (append_action x a)
unfolding append_action
RaisesStd-append x a = RaisesStd-store x _

RaisesStd-follow : (slots : List Slot) (i : ℕ) → RaisesStd (follow slots i)
RaisesStd-follow [] i = search std_rules
RaisesStd-follow (unwritten ∷ slots) zero = search std_rules
RaisesStd-follow (pointer x ∷ slots) zero = search std_rules
RaisesStd-follow (unwritten ∷ slots) (suc i) = RaisesStd-follow slots i
RaisesStd-follow (pointer x ∷ slots) (suc i) = RaisesStd-follow slots i

RaisesStd-create_copy_ttl :
    (junk type : TtlType) (a : Actions) → RaisesStd (create_copy_ttl junk type a)
unfolding create_copy_ttl
RaisesStd-create_copy_ttl junk dec_nw_ttl a = search std_rules
RaisesStd-create_copy_ttl junk dec_mpls_ttl a = search std_rules
RaisesStd-create_copy_ttl junk copy_ttl_in a = search (std_rules, RaisesStd-follow, RaisesStd-store)
RaisesStd-create_copy_ttl junk copy_ttl_out a =
    search (std_rules, RaisesStd-follow, RaisesStd-store)

RaisesStd-create_dec_ttl : (type : TtlType) (a : Actions) → RaisesStd (create_dec_ttl type a)
unfolding create_dec_ttl
RaisesStd-create_dec_ttl copy_ttl_in a = search std_rules
RaisesStd-create_dec_ttl copy_ttl_out a = search std_rules
RaisesStd-create_dec_ttl dec_nw_ttl a = search RaisesStd-append
RaisesStd-create_dec_ttl dec_mpls_ttl a = search RaisesStd-append

RaisesStd-create_set_field :
    (field : String) (value : FieldValue) (a : Actions) → RaisesStd (create_set_field field value a)
unfolding create_set_field
RaisesStd-create_set_field field value a = RaisesStd-append _ a

ruleset action_rules = (
  argument_rules, RaisesStd-append, RaisesStd-store, RaisesStd-create_copy_ttl,
  RaisesStd-create_dec_ttl, RaisesStd-create_set_field,
)

RaisesStd-push_type : (libc : Libc) (type : String) → RaisesStd (push_type libc type)
unfolding push_type
RaisesStd-push_type libc type = search std_rules depth 9

module _ (libc : Libc) (args : Json) where
  RaisesStd-output : (a : Actions) → RaisesStd (output_action libc args a)
  unfolding output_action create_output
  RaisesStd-output a = search action_rules

  RaisesStd-set_queue : (a : Actions) → RaisesStd (set_queue_action libc args a)
  unfolding set_queue_action create_set_queue
  RaisesStd-set_queue a = search action_rules

  RaisesStd-group : (a : Actions) → RaisesStd (group_action libc args a)
  unfolding group_action create_group
  RaisesStd-group a = search action_rules

  RaisesStd-push : (a : Actions) → RaisesStd (push_action libc args a)
  unfolding push_action create_push
  RaisesStd-push a = search (action_rules, RaisesStd-push_type) depth 9

  RaisesStd-pop : (a : Actions) → RaisesStd (pop_action libc args a)
  unfolding pop_action create_pop_vlan create_pop_mpls
  RaisesStd-pop a = search action_rules depth 9

  RaisesStd-set_ttl : (a : Actions) → RaisesStd (set_ttl_action libc args a)
  unfolding set_ttl_action create_set_nw_ttl create_set_mpls_ttl
  RaisesStd-set_ttl a = search action_rules depth 9

  RaisesStd-dec_ttl : (a : Actions) → RaisesStd (dec_ttl_action libc args a)
  unfolding dec_ttl_action
  RaisesStd-dec_ttl a = search action_rules depth 9

  RaisesStd-copy_ttl : (a : Actions) → RaisesStd (copy_ttl_action libc args a)
  unfolding copy_ttl_action
  RaisesStd-copy_ttl a = search action_rules depth 9

  RaisesStd-change_ttl : (a : Actions) → RaisesStd (change_ttl_action libc args a)
  unfolding change_ttl_action
  RaisesStd-change_ttl a =
      search (argument_rules, RaisesStd-set_ttl, RaisesStd-dec_ttl, RaisesStd-copy_ttl) depth 9

  RaisesStd-set_number : (fs : List Field) (a : Actions) → RaisesStd (set_number libc fs args a)
  unfolding set_number
  RaisesStd-set_number [] a = search std_rules
  RaisesStd-set_number (f ∷ fs) a =
      RaisesStd-bind-option (find_if_exists args f.key) _ (search std_rules)
        (RaisesStd-set_number fs a)
        λ s. RaisesStd-if (sized f.size) _ _ (search action_rules) (RaisesStd-set_number fs a)

  RaisesStd-set_first :
      (ipv4 ipv6 eth : Option (String × String)) (a : Actions)
      → RaisesStd (set_first libc args a ipv4 ipv6 eth)
  unfolding set_first
  RaisesStd-set_first (some (k, v)) ipv6 eth a = search action_rules
  RaisesStd-set_first none (some (k, v)) eth a = search action_rules
  RaisesStd-set_first none none (some (k, v)) a = search action_rules
  RaisesStd-set_first none none none a = RaisesStd-set_number (special_fields fields) a

  RaisesStd-set_field : (a : Actions) → RaisesStd (set_field_action libc args a)
  unfolding set_field_action
  RaisesStd-set_field a = search (argument_rules, RaisesStd-set_first) depth 9

  RaisesStd-construct_action : (a : Actions) → RaisesStd (construct_action libc args a)
  unfolding construct_action
  RaisesStd-construct_action a =
      search
        (
          argument_rules, RaisesStd-output, RaisesStd-set_queue, RaisesStd-group, RaisesStd-push,
          RaisesStd-pop, RaisesStd-change_ttl, RaisesStd-set_field,
        )
        depth 14

module _ (libc : Libc) where
  RaisesStd-construct_actions :
      (js : List Json) (a : Actions) → RaisesStd (construct_actions libc js a)
  unfolding construct_actions
  RaisesStd-construct_actions [] a = search std_rules
  RaisesStd-construct_actions (j ∷ js) a =
      search (std_rules, RaisesStd-construct_action libc j, RaisesStd-construct_actions js)

  pub RaisesStd-action_set : (args : Json) → RaisesStd (action_set libc args)
  unfolding action_set
  RaisesStd-action_set args = search (argument_rules, RaisesStd-construct_actions)
