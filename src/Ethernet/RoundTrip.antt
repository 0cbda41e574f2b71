-- ===== src/Ethernet/RoundTrip.antt =====
-- Printing an address and reading it back.
use nox13_interserver.Common.{
  ℕ, ◌/◌, ◌%◌, ◌<◌, ◌≡◌, refl, ap, sym, ◌∙◌, false, some, List, [], ◌∷◌, ◌==◌, length, All, arith,
}
use nox13_interserver.Ethernet.{
  c_str, hexit_value, second_digit, read_octet, read_separator, read_octets, init_from_string,
  hex_digit, hex_octet, octets_string,
}

hexit_value-hex_digit : (d : ℕ) → d < 16 → hexit_value (hex_digit d) ≡ some d
unfolding hexit_value hex_digit
hexit_value-hex_digit d h = ground arith

hex_digit-positive : (d : ℕ) → (hex_digit d == 0) ≡ false
unfolding hex_digit
hex_digit-positive d = ground arith

read_octet-hex_octet :
    (o : ℕ) (rest : List ℕ) → o < 256 → read_octet (hex_octet o rest) ≡ some (o, rest)
unfolding read_octet second_digit
read_octet-hex_octet o rest h = ground (
  arith,
  hexit_value-hex_digit (o / 16) (omega arith),
  hexit_value-hex_digit (o % 16) (omega arith),
)

c_str-octets_string : (os : List ℕ) → c_str (octets_string os) ≡ octets_string os
unfolding octets_string
c_str-octets_string [] = refl
c_str-octets_string (o ∷ []) =
    ground (arith, hex_digit-positive (o / 16), hex_digit-positive (o % 16))
c_str-octets_string (o ∷ p ∷ os) =
    ground (
      arith,
      hex_digit-positive (o / 16),
      hex_digit-positive (o % 16),
      c_str-octets_string (p ∷ os),
    )

read_octets-octets_string :
    (os : List ℕ) → All (λ o. o < 256) os → read_octets (length os) (octets_string os) ≡ some os
unfolding read_octets octets_string read_separator
read_octets-octets_string [] h = refl
read_octets-octets_string (o ∷ []) h = ground (arith, read_octet-hex_octet o [] h.0)
read_octets-octets_string (o ∷ p ∷ os) h = ground (
  arith,
  read_octet-hex_octet o (b':' ∷ octets_string (p ∷ os)) h.0,
  read_octets-octets_string (p ∷ os) h.1,
)

-- The text of an address of six octets is read back to that address.
pub init_from_string-octets_string :
    (os : List ℕ)
    → All (λ o. o < 256) os
    → length os ≡ 6
    → init_from_string (octets_string os) ≡ some os
unfolding init_from_string
init_from_string-octets_string os h l =
    rw (c_str-octets_string os)
      (ap (λ n. read_octets n (octets_string os)) (sym l) ∙ read_octets-octets_string os h)
