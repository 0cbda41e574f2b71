-- ===== src/Interserver/Builders/Arguments.antt =====
-- interact_builders.cc, lines 30-164, and the macros of interactor.hh. `Libc` is what the code calls
-- of other libraries: strtoll (its 64 bits), inet_pton (the bytes it writes, if it returns 1) and the
-- JSON parser (a text it refuses gives null); `junk_type` is what the type of an action reads before it
-- is set, and `string_object` the first six bytes of a std::string as an object. The texts of a document
-- have no character 0, at which c_str would end them.
use Prim.Native.String.{◌++◌ as string_append}
use nox13_interserver.Common.{
  ℕ, ◌%◌, ◌^◌, Bool, true, false, ◌&&◌, ◌||◌, Option, none, some, List, [], ◌∷◌, String, leb, ◌==◌,
  if◌then◌else◌,
}
use nox13_interserver.Common.Outcome.{
  Outcome, ok, throws, undefined, ◌>>=◌, ◌>>◌, invalid_argument, or_throw, unless,
}
use nox13_interserver.Ethernet.{codes, init_from_string}
use nox13_interserver.OpenFlow.Actions.{TtlType}
use nox13_interserver.Interserver.Json.{
  Json, null, array, Items, nil, cons, get_dict_value, get_string_noquotes,
}

pub record Libc : Type 0 where
  pub strtoll : ℕ → String → ℕ
  pub inet_pton : String → Option (List ℕ)
  pub inet_pton6 : String → Option (List ℕ)
  pub parse : String → Json
  pub junk_type : TtlType
  pub string_object : String → List ℕ

-- e_arg_type_t
pub data ArgType : Type 0 where
  e_string e_num e_ipv4 e_ipv6 e_mac e_jarray : ArgType

abbrev pub ArgumentsList : Type 0
ArgumentsList = List (String × ArgType)

-- s[0] == '0' && s[1] == 'x'
abbrev pub is_hex : List ℕ → Bool
is_hex (c ∷ d ∷ s) = c == b'0' && d == b'x'
is_hex s = false

abbrev pub is_digit : ℕ → Bool
is_digit c = leb b'0' c && leb c b'9'

-- A character of keys1
abbrev pub is_hex_key : ℕ → Bool
is_hex_key c = is_digit c || c == b'x' || (leb b'A' c && leb c b'F') || (leb b'a' c && leb c b'f')

-- strspn(s, keys) == s.length()
abbrev pub spans : (ℕ → Bool) → List ℕ → Bool
spans key [] = true
spans key (c ∷ s) = key c && spans key s

unfoldable pub is_valid_number : String → Bool
is_valid_number s =
    if is_hex (codes s) then spans is_hex_key (codes s) else spans is_digit (codes s)

abbrev pub is_given {ℓ} : {A : Type ℓ} → Option A → Bool
is_given none = false
is_given (some a) = true

-- `ethernetaddr(s);` declares a variable of that name, so that no text is converted and none refused.
unfoldable pub is_valid_eth : String → Bool
is_valid_eth s = true

-- FIND_IF_EXISTS: the text of the value, if the key exists.
unfoldable pub find_if_exists : Json → String → Outcome (Option String)
unfolding get_dict_value get_string_noquotes
find_if_exists args key = elim (get_dict_value key args) [
  | ok none ↦ ok none
  | ok (some v) ↦ ok (some (get_string_noquotes v))
  | throws e ↦ throws e
  | undefined ↦ undefined
]

-- `if (FIND_IF_EXISTS(…) == false) throw invalid_argument(what)`
unfoldable pub required : Json → String → String → Outcome String
unfolding find_if_exists
required args key what = find_if_exists args key >>= λ v. or_throw v what

-- The elements of a json_object that is used as an array. Anything else is undefined.
abbrev pub elements : Items → List Json
elements nil = []
elements (cons x xs) = x ∷ elements xs

unfoldable pub as_array : Json → Outcome (List Json)
as_array (array xs) = ok (elements xs)
as_array j = undefined

abbrev pub is_null : Json → Bool
is_null null = true
is_null j = false

-- The first of the keys that exists, with the text of its value.
unfoldable pub first_of : Json → List String → Outcome (Option (String × String))
unfolding find_if_exists
first_of args [] = ok none
first_of args (key ∷ keys) =
    let rest = first_of args keys in
    find_if_exists args key >>= λ v. elim v [ none ↦ rest | some s ↦ ok (some (key, s)) ]

-- What an address that inet_pton refused is: memory that nothing was written to.
abbrev pub or_undefined {ℓ} : {A : Type ℓ} → Option A → Outcome A
or_undefined none = undefined
or_undefined (some a) = ok a

-- ethernetaddr(text)
unfoldable pub ethernetaddr : String → Outcome (List ℕ)
unfolding init_from_string
ethernetaddr text = or_throw (init_from_string (codes text)) bad_ethernetaddr_cast
  where
    bad_ethernetaddr_cast : String
    bad_ethernetaddr_cast =
        "bad ethernet address cast: source string value could not be interpreted as ethernet address"

module _ (libc : Libc) where
  unfoldable pub strtonum : String → ℕ
  strtonum s = if is_hex (codes s) then libc.strtoll 16 s else libc.strtoll 10 s

  -- The cast of strtonum to an unsigned integer of some bits.
  unfoldable pub number_bits : ℕ → String → ℕ
  unfolding strtonum
  number_bits bits s = strtonum s % 2 ^ bits

  -- One turn of the switch of check_args
  unfoldable pub check_arg : ArgType → String → String → Outcome (Unit {0})
  unfolding is_valid_number is_valid_eth
  check_arg e_num key v = unless (is_valid_number v) (string_append key " has invalid value!\n")
  check_arg e_ipv4 key v =
      unless (is_given (libc.inet_pton v)) (string_append key " has invalid ip4 address!\n")
  check_arg e_ipv6 key v =
      unless (is_given (libc.inet_pton6 v)) (string_append key " has invalid ip6 address!\n")
  check_arg e_mac key v = unless (is_valid_eth v) (string_append key " has invalid MAC address!\n")
  check_arg e_jarray key v =
      if is_null (libc.parse v)
      then invalid_argument (string_append key " has invalid JSON array!\n")
      else ok tt
  check_arg e_string key v = ok tt

  unfoldable pub check_args : ArgumentsList → Json → Outcome (Unit {0})
  unfolding find_if_exists check_arg
  check_args [] args = ok tt
  check_args ((key, type) ∷ more) args =
      let rest = check_args more args in
      find_if_exists args key >>= λ v. elim v [
        | none ↦ rest
        | some value ↦ check_arg type key value >> rest
      ]

  -- A number of some bits, or the default where the key is missing.
  unfoldable pub number_or : Json → String → ℕ → ℕ → Outcome ℕ
  unfolding find_if_exists number_bits
  number_or args key bits default = find_if_exists args key >>= λ v. elim v [
    | none ↦ ok default
    | some s ↦ ok (number_bits bits s)
  ]

  unfoldable pub required_number : Json → String → ℕ → String → Outcome ℕ
  unfolding required number_bits
  required_number args key bits what = required args key what >>= λ s. ok (number_bits bits s)

  -- The array that the text of a key is parsed to; none where the key is missing.
  unfoldable pub array_at : Json → String → Outcome (List Json)
  unfolding find_if_exists as_array
  array_at args key =
      find_if_exists args key >>= λ v. elim v [ none ↦ ok [] | some s ↦ as_array (libc.parse s) ]
