-- ===== src/Ethernet.antt =====
-- ethernetaddr: the text forms of lib/netinet++/ethernetaddr.cc. An address is its six octets, and a
-- text the list of its characters' codes.
pub mod RoundTrip
use Prim.Native.Char.{code}
use Prim.Native.String.{String}
use nox13_interserver.Common.{
  ℕ, zero, suc, ◌+◌, ◌-◌, ◌*◌, ◌/◌, ◌%◌, Bool, ◌&&◌, ◌||◌, Option, none, some, List, [], ◌∷◌, leb,
  ◌==◌, if◌then◌else◌,
}

-- The codes of a text, as its bytes if it is ASCII.
abbrev pub codes : String → List ℕ
codes String.[] = []
codes (String.◌∷◌ c s) = code c ∷ codes s

-- What a `const char*` to the text shows: the characters before the first that is 0.
abbrev pub c_str : List ℕ → List ℕ
c_str [] = []
c_str (c ∷ s) = let rest = c_str s in if c == 0 then [] else c ∷ rest

-- hexit_value; `none` is -1.
unfoldable pub hexit_value : ℕ → Option ℕ
hexit_value c =
    if leb b'0' c && leb c b'9'
    then some (c - b'0')
    else if leb b'a' c && leb c b'f'
    then some (c - b'a' + 10)
    else if leb b'A' c && leb c b'F'
    then some (c - b'A' + 10)
    else none

-- A second digit is optional.
unfoldable pub second_digit : ℕ → List ℕ → ℕ × List ℕ
unfolding hexit_value
second_digit digit1 [] = (digit1, [])
second_digit digit1 (c ∷ s) = elim (hexit_value c) [
  | none ↦ (digit1, c ∷ s)
  | some digit2 ↦ ((digit1 * 16 + digit2) % 256, s)
]

unfoldable pub read_octet : List ℕ → Option (ℕ × List ℕ)
unfolding second_digit
read_octet [] = none
read_octet (c ∷ s) = elim (hexit_value c) [
  | none ↦ none
  | some digit1 ↦ some (second_digit digit1 s)
]

-- The separator between two octets.
unfoldable pub read_separator : List ℕ → Option (List ℕ)
read_separator [] = none
read_separator (c ∷ s) = if c == b'-' || c == b':' then some s else none

-- The loop, for the octets that are left.
unfoldable pub read_octets : ℕ → List ℕ → Option (List ℕ)
unfolding read_octet read_separator
read_octets zero [] = some []
read_octets zero (c ∷ s) = none
read_octets (suc zero) s = elim (read_octet s) [
  | none ↦ none
  | some (o, t) ↦ elim t [ [] ↦ some (o ∷ []) | c ∷ u ↦ none ]
]
read_octets (suc (suc n)) s = elim (read_octet s) [
  | none ↦ none
  | some (o, t) ↦ elim (read_separator t) [
    | none ↦ none
    | some u ↦ elim (read_octets (suc n) u) [ none ↦ none | some os ↦ some (o ∷ os) ]
  ]
]

-- init_from_string; `none` is the exception bad_ethernetaddr_cast.
unfoldable pub init_from_string : List ℕ → Option (List ℕ)
unfolding read_octets
init_from_string text = read_octets 6 (c_str text)

-- A digit of "%02x"
unfoldable pub hex_digit : ℕ → ℕ
hex_digit d = if leb d 9 then b'0' + d else b'a' + (d - 10)

abbrev pub hex_octet : ℕ → List ℕ → List ℕ
hex_octet o rest = hex_digit (o / 16) ∷ hex_digit (o % 16) ∷ rest

-- ethernetaddr::string
unfoldable pub octets_string : List ℕ → List ℕ
unfolding hex_digit
octets_string [] = []
octets_string (o ∷ []) = hex_octet o []
octets_string (o ∷ p ∷ os) = hex_octet o (b':' ∷ octets_string (p ∷ os))
