-- ===== src/Interserver/Builders/MatchFields.antt =====
-- Match_fields_builder::construct_match (interact_builders.cc, lines 869-1010). What it puts into a
-- Flow is a field by name, as in flow.hh.
use Prim.Native.String.{◌++◌ as string_append}
use nox13_interserver.Common.{ℕ, ◌*◌, Option, none, some, List, [], ◌∷◌, String, if◌then◌else◌}
use nox13_interserver.Common.Outcome.{Outcome, ok, ◌>>=◌, ◌>>◌}
use nox13_interserver.OpenFlow.Actions.{FieldValue, number, address}
use nox13_interserver.OpenFlow.FlowMod.{Match, add_field, add_field_masked}
use nox13_interserver.Interserver.Json.{Json}
use nox13_interserver.Interserver.Builders.Arguments.{
  Libc, find_if_exists, first_of, or_undefined, ethernetaddr, number_bits, check_args, array_at,
}
use nox13_interserver.Interserver.Builders.Tables.{Field, fields, match_tags, special_fields}
use nox13_interserver.Interserver.Builders.ActionFields.{sized, ipv4_keys}

-- Add_Field with the mask under the key with "_mask", if there is one.
unfoldable pub add_maskable :
    (String → Outcome FieldValue) → Json → String → String → Match → Outcome Match
unfolding find_if_exists
add_maskable convert args key v f = do
  value ← convert v
  mask ← find_if_exists args (string_append key "_mask")
  with_mask value mask
  where
    with_mask : FieldValue → Option String → Outcome Match
    with_mask value none = ok (add_field key value f)
    with_mask value (some m) = convert m >>= λ mask. ok (add_field_masked key value mask f)

-- The same where a key was found, and nothing where none was.
unfoldable pub add_found :
    (String → Outcome FieldValue) → Json → Option (String × String) → Match → Outcome Match
unfolding add_maskable
add_found convert args none f = ok f
add_found convert args (some (key, v)) f = add_maskable convert args key v f

abbrev pub to_address : Outcome (List ℕ) → Outcome FieldValue
to_address o = o >>= λ a. ok (address a)

module _ (libc : Libc) where
  -- The loop over the numbers.
  unfoldable pub match_numbers : List Field → Json → Match → Outcome Match
  unfolding find_if_exists number_bits add_maskable
  match_numbers [] args f = ok f
  match_numbers (x ∷ xs) args f = find_if_exists args x.key >>= λ v.
      elim v [
        | none ↦ ok f
        | some s ↦
            if sized x.size
            then add_maskable (λ v. ok (number x.size (number_bits libc (8 * x.size) v))) args x.key
                s f
            else ok f
      ]
      >>= match_numbers xs args

  -- Add_Field makes the octets of an Ethernet address of its text, but with a mask it copies the
  -- bytes of the two string objects.
  unfoldable pub add_eth : Json → Option (String × String) → Match → Outcome Match
  unfolding find_if_exists ethernetaddr
  add_eth args none f = ok f
  add_eth args (some (key, v)) f = find_if_exists args (string_append key "_mask") >>= λ m. elim m [
    | none ↦ ethernetaddr v >>= λ octets. ok (add_field key (address octets) f)
    | some mask ↦ ok (
        add_field_masked key (address (libc.string_object v)) (address (libc.string_object mask)) f)
  ]

  unfoldable pub construct_match : Json → Match → Outcome Match
  unfolding check_args first_of add_found add_eth match_numbers
  construct_match args f = do
    check_args libc (match_tags fields) args
    ipv4 ← first_of args ipv4_keys
    f4 ← add_found (λ v. to_address (or_undefined (libc.inet_pton v))) args ipv4 f
    ipv6 ←
        first_of args
          ("ipv6_src" ∷ "ipv6_dst" ∷ "ipv6_nd_target" ∷ "ipv6_nd_tll" ∷ "ipv6_nd_sll" ∷ [])
    f6 ← add_found (λ v. to_address (or_undefined (libc.inet_pton6 v))) args ipv6 f4
    eth ← first_of args ("eth_dst" ∷ "eth_src" ∷ [])
    fe ← add_eth args eth f6
    match_numbers (special_fields fields) args fe

  unfoldable pub construct_matches : List Json → Match → Outcome Match
  unfolding construct_match
  construct_matches [] f = ok f
  construct_matches (j ∷ js) f = construct_match j f >>= construct_matches js

  -- new Flow(), and the loop over the array of "match_set".
  unfoldable pub match_set : Json → Outcome Match
  unfolding array_at construct_matches
  match_set args = array_at libc args "match_set" >>= λ js. construct_matches js []
