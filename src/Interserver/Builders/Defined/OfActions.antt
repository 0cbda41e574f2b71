-- ===== src/Interserver/Builders/Defined/OfActions.antt =====
-- The building of an action that does not change a TTL (interact_builders.cc, lines 253-527).
use text.Mathlib.Text.{◌==◌ as string_eq}
use text.Mathlib.TextEquality.{eq_iff}
use nox13_interserver.Common.{
  Option, none, some, List, [], ◌∷◌, String, All, if◌then◌else◌, ◌≡◌, ◌≢◌, refl, ap, ◌∙◌, arith,
  true, inl, inr,
}
use nox13_interserver.Common.Outcome.{ok, undefined, Outcome-cases}
use nox13_interserver.OpenFlow.Actions.{
  Action, FieldValue, append_action, create_output, create_push, create_pop_vlan, create_pop_mpls,
  create_set_queue, create_group, create_set_field,
}
use nox13_interserver.OpenFlow.Actions.Growth.{holding, append_action-holding}
use nox13_interserver.Interserver.Json.{Json, Fields, dict}
use nox13_interserver.Interserver.Builders.Arguments.{
  Libc, ArgType, is_given, check_arg, e_ipv4, e_ipv6, find_if_exists, required, first_of,
  check_args,
}
use nox13_interserver.Interserver.Builders.Tables.{Field, fields, special_fields, action_tags}
use nox13_interserver.Interserver.Builders.ActionFields.{
  sized, ipv4_keys, ipv6_keys, change_ttl_action, push_type, output_action, set_queue_action,
  group_action, push_action, pop_action, set_number, set_first, set_field_action, construct_action,
}
use nox13_interserver.Interserver.Builders.Checked.{type_of, check_args-valid}
use nox13_interserver.Interserver.Builders.Defined.{
  Defined, Defined-ok, Defined-if, Defined-bind, Defined-bind-option, Defined-or_undefined,
  defined_rules, Defined-find, Defined-required, Defined-required_number, Defined-first_of,
  Defined-ethernetaddr, Defined-check_args, first_of-found, check_arg-ipv4, check_arg-ipv6,
}

Defined-append : (y : Action) (xs : List Action) → Defined (append_action y (holding xs))
Defined-append y xs = rw (append_action-holding y xs) (Defined-ok _)

Defined-create_set_field :
    (field : String) (value : FieldValue) (xs : List Action)
    → Defined (create_set_field field value (holding xs))
unfolding create_set_field
Defined-create_set_field field value xs = Defined-append _ xs

module _ (libc : Libc) (fs : Fields) (xs : List Action) where
  Defined-output : Defined (output_action libc (dict fs) (holding xs))
  unfolding output_action create_output
  Defined-output = search (defined_rules, Defined-required, Defined-append)

  Defined-set_queue : Defined (set_queue_action libc (dict fs) (holding xs))
  unfolding set_queue_action create_set_queue
  Defined-set_queue = search (defined_rules, Defined-required_number, Defined-append)

  Defined-group : Defined (group_action libc (dict fs) (holding xs))
  unfolding group_action create_group
  Defined-group = search (defined_rules, Defined-required_number, Defined-append)

  Defined-push : Defined (push_action libc (dict fs) (holding xs))
  unfolding push_action create_push push_type
  Defined-push =
      search (defined_rules, Defined-required, Defined-required_number, Defined-append) depth 12

  Defined-pop : Defined (pop_action libc (dict fs) (holding xs))
  unfolding pop_action create_pop_vlan create_pop_mpls
  Defined-pop =
      search (defined_rules, Defined-required, Defined-required_number, Defined-append) depth 12

  Defined-set_number : (ns : List Field) → Defined (set_number libc ns (dict fs) (holding xs))
  unfolding set_number
  Defined-set_number [] = Defined-ok _
  Defined-set_number (f ∷ ns) =
      Defined-bind-option (find_if_exists (dict fs) f.key) _ (Defined-find fs f.key)
        (λ _. Defined-set_number ns)
        λ s _.
          Defined-if (sized f.size) _ _ (λ _. Defined-create_set_field _ _ xs)
            λ _. Defined-set_number ns

  Defined-set_first :
      (ipv4 ipv6 eth : Option (String × String))
      → ((k v : String) → ipv4 ≡ some (k, v) → is_given (libc.inet_pton v) ≡ true)
      → ((k v : String) → ipv6 ≡ some (k, v) → is_given (libc.inet_pton6 v) ≡ true)
      → Defined (set_first libc (dict fs) (holding xs) ipv4 ipv6 eth)
  unfolding set_first
  Defined-set_first (some (k, v)) ipv6 eth h4 h6 =
      Defined-bind _ _ (Defined-or_undefined _ (h4 k v refl)) λ a _. Defined-create_set_field _ _ xs
  Defined-set_first none (some (k, v)) eth h4 h6 =
      Defined-bind _ _ (Defined-or_undefined _ (h6 k v refl)) λ a _. Defined-create_set_field _ _ xs
  Defined-set_first none none (some (k, v)) h4 h6 =
      Defined-bind _ _ (Defined-ethernetaddr v) λ a _. Defined-create_set_field _ _ xs
  Defined-set_first none none none h4 h6 = Defined-set_number (special_fields fields)

  -- The key that first_of finds has the type that the list of arguments gives all of its keys.
  abbrev HasType : ArgType → String → Type 0
  HasType type key = type_of key action_tags ≡ some type

  found-valid :
      (type : ArgType) (keys : List String) (k v : String)
      → check_args libc action_tags (dict fs) ≡ ok tt
      → All (HasType type) keys
      → first_of (dict fs) keys ≡ ok (some (k, v))
      → check_arg libc type k v ≡ ok tt
  found-valid type keys k v h ts e =
      let (ht, hv) = first_of-found (HasType type) (dict fs) keys k v ts e in
      check_args-valid libc (dict fs) action_tags k v type h ht hv

  -- inet_pton converts every address that set_field reads.
  Defined-set_found :
      check_args libc action_tags (dict fs) ≡ ok tt
      → (ipv4 ipv6 eth : Option (String × String)) → first_of (dict fs) ipv4_keys ≡ ok ipv4
      → first_of (dict fs) ipv6_keys ≡ ok ipv6
      → Defined (set_first libc (dict fs) (holding xs) ipv4 ipv6 eth)
  Defined-set_found h ipv4 ipv6 eth e4 e6 =
      Defined-set_first ipv4 ipv6 eth
        (λ k v p.
          check_arg-ipv4 libc k v
            (found-valid e_ipv4 ipv4_keys k v h (refl, (refl, tt)) (e4 ∙ ap ok p)))
        (λ k v p. check_arg-ipv6 libc k v (
          found-valid e_ipv6 ipv6_keys k v h (refl, (refl, (refl, (refl, (refl, tt)))))
            (e6 ∙ ap ok p)))

  Defined-set_field :
      check_args libc action_tags (dict fs) ≡ ok tt
      → Defined (set_field_action libc (dict fs) (holding xs))
  unfolding set_field_action
  Defined-set_field h = search (defined_rules, Defined-first_of, Defined-set_found) depth 8

  Defined-by_type :
      (value : String)
      → check_args libc action_tags (dict fs) ≡ ok tt
      → value ≢ "change_ttl"
      → Defined (
          if string_eq value "output"
          then output_action libc (dict fs) (holding xs)
          else if string_eq value "set_queue"
          then set_queue_action libc (dict fs) (holding xs)
          else if string_eq value "group"
          then group_action libc (dict fs) (holding xs)
          else if string_eq value "push"
          then push_action libc (dict fs) (holding xs)
          else if string_eq value "pop"
          then pop_action libc (dict fs) (holding xs)
          else if string_eq value "change_ttl"
          then change_ttl_action libc (dict fs) (holding xs)
          else if string_eq value "set_field"
          then set_field_action libc (dict fs) (holding xs)
          else ok (holding xs))
  Defined-by_type value h hv =
      search
        (
          defined_rules, Defined-output, Defined-set_queue, Defined-group, Defined-push,
          Defined-pop, no_ttl, Defined-set_field,
        )
        depth 14
    where
      no_ttl :
          string_eq value "change_ttl" ≡ true
          → Defined (change_ttl_action libc (dict fs) (holding xs))
      no_ttl e = elim (hv ((eq_iff value "change_ttl").0 e)) [ ]

  required-found :
      (args : Json) (key what v : String)
      → required args key what ≡ ok v
      → find_if_exists args key ≡ ok (some v)
  unfolding required
  required-found args key what v h = elim (Outcome-cases (find_if_exists args key)) [
    | inl (none, e) ↦ ground arith
    | inl (some s, e) ↦ ground arith
    | inr (inl (x, e)) ↦ ground arith
    | inr (inr e) ↦ ground arith
  ]

  -- Whatever actions there are, no action of a type but "change_ttl" leads to undefined behaviour where
  -- the document is a dictionary: what check_args lets through, inet_pton converts.
  pub construct_action-Defined :
      find_if_exists (dict fs) "action_type" ≢ ok (some "change_ttl")
      → construct_action libc (dict fs) (holding xs) ≢ undefined
  unfolding construct_action
  construct_action-Defined h =
      (Defined-bind _ _ (Defined-check_args libc action_tags fs) λ u checked.
        Defined-bind _ _ (Defined-required fs _ _) λ value e.
          Defined-by_type value checked
            (λ p. h (required-found (dict fs) _ _ value e ∙ ap (λ v. ok (some v)) p))).at
