-- ===== src/Interserver/Builders/Independent/OfActions.antt =====
-- The builders of one action, and of an "action_set" (interact_builders.cc, lines 253-600).
use nox13_interserver.Common.{
  ℕ, Option, none, some, List, [], ◌∷◌, ◌++◌, String, ◌≡◌, refl, ap, sym, ◌∙◌,
}
use nox13_interserver.Common.Outcome.{Outcome, ok, throws, undefined, ◌>>=◌}
use mathlib.Core.List.{append-nil, append_assoc}
use nox13_interserver.OpenFlow.Actions.{
  Action, TtlType, copy_ttl_in, copy_ttl_out, dec_nw_ttl, dec_mpls_ttl, FieldValue, create_output,
  create_copy_ttl, create_dec_ttl, create_push, create_pop_vlan, create_pop_mpls, create_set_nw_ttl,
  create_set_mpls_ttl, create_set_queue, create_group, create_set_field, new_actions,
}
use nox13_interserver.OpenFlow.Actions.Growth.{
  holding, create_copy_ttl-undefined, create_set_mpls_ttl-undefined,
}
use nox13_interserver.Interserver.Json.{Json}
use nox13_interserver.Interserver.Builders.Arguments.{Libc, find_if_exists, array_at}
use nox13_interserver.Interserver.Builders.Tables.{Field, fields, special_fields}
use nox13_interserver.Interserver.Builders.ActionFields.{
  sized, output_action, set_queue_action, group_action, push_action, pop_action, set_ttl_action,
  dec_ttl_action, copy_ttl_action, change_ttl_action, set_number, set_first, set_field_action,
  construct_action, construct_actions, action_set,
}
use nox13_interserver.Interserver.Builders.Independent.{
  Adds, Adds-ok, Adds-if, Adds-bind-option, Adds-append, adds_rules, built, built-Adds,
}

Adds-create_copy_ttl : (junk type : TtlType) → Adds (create_copy_ttl junk type)
Adds-create_copy_ttl junk copy_ttl_in = record {
  adds = undefined;
  at = λ xs. create_copy_ttl-undefined junk copy_ttl_in xs (λ h. cc) (λ h. cc);
}
Adds-create_copy_ttl junk copy_ttl_out = record {
  adds = undefined;
  at = λ xs. create_copy_ttl-undefined junk copy_ttl_out xs (λ h. cc) (λ h. cc);
}
Adds-create_copy_ttl junk dec_nw_ttl = unfold create_copy_ttl in Adds-ok
Adds-create_copy_ttl junk dec_mpls_ttl = unfold create_copy_ttl in Adds-ok

Adds-create_set_mpls_ttl : (ttl : ℕ) → Adds (create_set_mpls_ttl ttl)
Adds-create_set_mpls_ttl ttl = record { adds = undefined; at = create_set_mpls_ttl-undefined ttl }

Adds-create_set_field : (field : String) (value : FieldValue) → Adds (create_set_field field value)
unfolding create_set_field
Adds-create_set_field field value = Adds-append _

module _ (libc : Libc) (args : Json) where
  Adds-output : Adds (output_action libc args)
  unfolding output_action create_output
  Adds-output = search adds_rules

  Adds-set_queue : Adds (set_queue_action libc args)
  unfolding set_queue_action create_set_queue
  Adds-set_queue = search adds_rules

  Adds-group : Adds (group_action libc args)
  unfolding group_action create_group
  Adds-group = search adds_rules

  Adds-push : Adds (push_action libc args)
  unfolding push_action create_push
  Adds-push = search adds_rules depth 9

  Adds-pop : Adds (pop_action libc args)
  unfolding pop_action create_pop_vlan create_pop_mpls
  Adds-pop = search adds_rules depth 9

  Adds-set_ttl : Adds (set_ttl_action libc args)
  unfolding set_ttl_action create_set_nw_ttl
  Adds-set_ttl = search (adds_rules, Adds-create_set_mpls_ttl) depth 9

  Adds-dec_ttl : Adds (dec_ttl_action libc args)
  unfolding dec_ttl_action create_dec_ttl
  Adds-dec_ttl = search adds_rules depth 9

  Adds-copy_ttl : Adds (copy_ttl_action libc args)
  unfolding copy_ttl_action
  Adds-copy_ttl = search (adds_rules, Adds-create_copy_ttl) depth 9

  Adds-change_ttl : Adds (change_ttl_action libc args)
  unfolding change_ttl_action
  Adds-change_ttl = search (adds_rules, Adds-set_ttl, Adds-dec_ttl, Adds-copy_ttl) depth 9

  Adds-set_number : (fs : List Field) → Adds (set_number libc fs args)
  unfolding set_number
  Adds-set_number [] = Adds-ok
  Adds-set_number (f ∷ fs) =
      Adds-bind-option (find_if_exists args f.key) _ (Adds-set_number fs)
        λ s. Adds-if (sized f.size) _ _ (Adds-create_set_field _ _) (Adds-set_number fs)

  Adds-set_first :
      (ipv4 ipv6 eth : Option (String × String)) → Adds (λ a. set_first libc args a ipv4 ipv6 eth)
  unfolding set_first
  Adds-set_first (some (k, v)) ipv6 eth = search adds_rules
  Adds-set_first none (some (k, v)) eth = search adds_rules
  Adds-set_first none none (some (k, v)) = search adds_rules
  Adds-set_first none none none = Adds-set_number (special_fields fields)

  Adds-set_field : Adds (set_field_action libc args)
  unfolding set_field_action
  Adds-set_field = search (adds_rules, Adds-set_first) depth 9

  Adds-construct_action : Adds (construct_action libc args)
  unfolding construct_action
  Adds-construct_action =
      search
        (
          adds_rules, Adds-output, Adds-set_queue, Adds-group, Adds-push, Adds-pop, Adds-change_ttl,
          Adds-set_field,
        )
        depth 14

module _ (libc : Libc) where
  -- The actions of the list, each built alone, of an empty array.
  abbrev pub one_by_one : List Json → Outcome (List Action)
  one_by_one [] = ok []
  one_by_one (j ∷ js) =
      built (construct_action libc j new_actions) >>= λ ys. one_by_one js >>= λ zs. ok (ys ++ zs)

  append_action-at :
      (j : Json) (xs : List Action)
      → construct_action libc j (holding xs)
        ≡ (built (construct_action libc j new_actions) >>= λ ys. ok (holding (xs ++ ys)))
  append_action-at j xs =
      let h = Adds-construct_action libc j in
      h.at xs
      ∙ ap (λ m. m >>= λ ys. ok (holding (xs ++ ys))) (sym (built-Adds (construct_action libc j) h))

  construct_actions-one_by_one :
      (js : List Json) (xs : List Action)
      → construct_actions libc js (holding xs) ≡ (one_by_one js >>= λ ys. ok (holding (xs ++ ys)))
  unfolding construct_actions
  construct_actions-one_by_one [] xs = ap (λ ys. ok (holding ys)) (sym (append-nil xs))
  construct_actions-one_by_one (j ∷ js) xs =
      ap (λ m. m >>= construct_actions libc js) (append_action-at j xs)
      ∙ after (built (construct_action libc j new_actions)) (construct_actions-one_by_one js)
    where
      last :
          (ys : List Action) (m : Outcome (List Action))
          → (m >>= λ zs. ok (holding (xs ++ ys ++ zs)))
            ≡ (m >>= (λ zs. ok (ys ++ zs)) >>= λ zs. ok (holding (xs ++ zs)))
      last ys (ok zs) = ap (λ l. ok (holding l)) (append_assoc xs ys zs)
      last ys (throws e) = refl
      last ys undefined = refl

      after :
          (m : Outcome (List Action))
          → ((xs : List Action)
              → construct_actions libc js (holding xs)
                ≡ (one_by_one js >>= λ ys. ok (holding (xs ++ ys))))
          → (m >>= (λ ys. ok (holding (xs ++ ys))) >>= construct_actions libc js) ≡ (
              m >>= (λ ys. one_by_one js >>= λ zs. ok (ys ++ zs)) >>= λ ys. ok (holding (xs ++ ys)))
      after (ok ys) h = h (xs ++ ys) ∙ last ys (one_by_one js)
      after (throws e) h = refl
      after undefined h = refl

  -- An "action_set" is built as if each of its actions were built alone, of an empty array, and the
  -- results put one after the other: the first action whose building fails decides how it fails, and
  -- the array that results holds its actions in their order, with no pointer that is not written.
  pub action_set-one_by_one :
      (args : Json)
      → action_set libc args
        ≡ (array_at libc args "action_set" >>= one_by_one >>= λ ys. ok (holding ys))
  unfolding action_set holding
  action_set-one_by_one args = over (array_at libc args "action_set")
    where
      over :
          (m : Outcome (List Json))
          → (m >>= λ js. construct_actions libc js new_actions)
            ≡ (m >>= one_by_one >>= λ ys. ok (holding ys))
      over (ok js) = construct_actions-one_by_one js []
      over (throws e) = refl
      over undefined = refl
