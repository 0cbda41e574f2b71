-- ===== src/Interserver/Builders/Checked.antt =====
-- What check_args finds out about the arguments (interact_builders.cc, lines 89-164).
use text.Mathlib.Text.{◌==◌ as string_eq}
use text.Mathlib.TextEquality.{eq_iff}
use nox13_interserver.Common.{
  ℕ, ◌≤◌, Bool, true, false, Option, none, some, List, [], ◌∷◌, String, All, if◌then◌else◌, ◌≡◌,
  ◌≢◌, ◌↔◌, ◌⊎◌, inl, inr, refl, sym, subst, arith, Bool-cases,
}
use nox13_interserver.Ethernet.{codes}
use nox13_interserver.Common.Outcome.{ok, Outcome-cases, unless, invalid_argument}
use nox13_interserver.Interserver.Json.{Json, null, number, boolean, string, array, dict}
use nox13_interserver.Interserver.Builders.Arguments.{
  Libc, ArgType, ArgumentsList, e_string, e_num, e_ipv4, e_ipv6, e_mac, e_jarray, is_digit, spans,
  is_hex_key, is_hex, is_given, is_null, is_valid_number, is_valid_eth, find_if_exists, check_arg,
  check_args,
}

-- A character of "1234567890xABCDEFabcdef", and of "1234567890".
abbrev pub HexKey : ℕ → Type 0
HexKey c =
    ((b'0' ≤ c) × (c ≤ b'9'))
    ⊎ ((c ≡ b'x') ⊎ (((b'A' ≤ c) × (c ≤ b'F')) ⊎ ((b'a' ≤ c) × (c ≤ b'f'))))

abbrev pub Digit : ℕ → Type 0
Digit c = (b'0' ≤ c) × (c ≤ b'9')

-- Digits, or "0x" and further hexadecimal characters, of which x is one. The empty text is one too.
abbrev pub NumberText : List ℕ → Type 0
NumberText s = All Digit s ⊎ ((rest : List ℕ) × (s ≡ b'0' ∷ b'x' ∷ rest) × All HexKey rest)

module _ (libc : Libc) where
  -- The texts that are accepted for each type. Every text is for an Ethernet address.
  abbrev pub ValidText : ArgType → String → Type 0
  ValidText e_string v = Unit {0}
  ValidText e_num v = NumberText (codes v)
  ValidText e_ipv4 v = (octets : List ℕ) × (libc.inet_pton v ≡ some octets)
  ValidText e_ipv6 v = (octets : List ℕ) × (libc.inet_pton6 v ≡ some octets)
  ValidText e_mac v = Unit {0}
  ValidText e_jarray v = libc.parse v ≢ null

module _ (key : ℕ → Bool) (P : ℕ → Type 0) (key_iff : (c : ℕ) → (key c ≡ true) ↔ P c) where
  spans-All : (s : List ℕ) → spans key s ≡ true → All P s
  spans-All [] h = tt
  spans-All (c ∷ s) h = ((key_iff c).0 (ground arith), spans-All s (ground arith))

  All-spans : (s : List ℕ) → All P s → spans key s ≡ true
  All-spans [] h = refl
  All-spans (c ∷ s) (h, hs) = ground (arith, (key_iff c).1 h, All-spans s hs)

is_digit_iff : (c : ℕ) → (is_digit c ≡ true) ↔ Digit c
is_digit_iff c = ground arith

is_hex_key_iff : (c : ℕ) → (is_hex_key c ≡ true) ↔ HexKey c
is_hex_key_iff c = ground arith

prefix_hex : (s : List ℕ) → is_hex s ≡ true → (rest : List ℕ) × (s ≡ b'0' ∷ b'x' ∷ rest)
prefix_hex [] h = cc
prefix_hex (c ∷ []) h = cc
prefix_hex (c ∷ d ∷ s) h = (s, ground arith)

digits_no_prefix : (s : List ℕ) → All Digit s → is_hex s ≡ false
digits_no_prefix [] h = refl
digits_no_prefix (c ∷ []) h = refl
digits_no_prefix (c ∷ d ∷ s) (hc, (hd, h)) = ground arith

abbrev number_test : List ℕ → Bool
number_test s = if is_hex s then spans is_hex_key s else spans is_digit s

hex-NumberText :
    (s rest : List ℕ) → s ≡ b'0' ∷ b'x' ∷ rest → spans is_hex_key s ≡ true → NumberText s
hex-NumberText s rest e h =
    inr (rest, e, (subst (All HexKey) e (spans-All is_hex_key HexKey is_hex_key_iff s h)).1.1)

number-NumberText : (s : List ℕ) → number_test s ≡ true → NumberText s
number-NumberText s h = elim (Bool-cases (is_hex s)) [
  | inl x ↦ let (rest, e) = prefix_hex s x in hex-NumberText s rest e (ground arith)
  | inr d ↦ inl (spans-All is_digit Digit is_digit_iff s (ground arith))
]

NumberText-number : (s : List ℕ) → NumberText s → number_test s ≡ true
NumberText-number s (inl h) =
    ground (arith, digits_no_prefix s h, All-spans is_digit Digit is_digit_iff s h)
NumberText-number s (inr (rest, e, h)) =
    subst (λ s. number_test s ≡ true) (sym e)
      (ground (arith, All-spans is_hex_key HexKey is_hex_key_iff rest h))

unless_iff {ℓ} :
    {P : Type ℓ} (test : Bool) (what : String) → (test ≡ true) ↔ P → (unless test what ≡ ok tt) ↔ P
unless_iff true what h = (λ _. h.0 refl, λ _. refl)
unless_iff false what h = (λ e. cc, λ p. ground (arith, h.1 p))

is_given_iff {ℓ} : {A : Type ℓ} (o : Option A) → (is_given o ≡ true) ↔ ((a : A) × (o ≡ some a))
is_given_iff none = (λ e. cc, λ (a, e). cc)
is_given_iff (some a) = (λ e. (a, refl), λ _. refl)

null_refused :
    (j : Json) (what : String)
    → ((if is_null j then invalid_argument what else ok (tt {0})) ≡ ok tt) ↔ (j ≢ null)
null_refused null what = (λ e. cc, λ h. absurd (h refl))
null_refused (number s) what = (λ e h. cc, λ h. refl)
null_refused (boolean b) what = (λ e h. cc, λ h. refl)
null_refused (string s) what = (λ e h. cc, λ h. refl)
null_refused (array xs) what = (λ e h. cc, λ h. refl)
null_refused (dict fs) what = (λ e h. cc, λ h. refl)

module _ (libc : Libc) where
  check_arg_iff :
      (type : ArgType) (key v : String)
      → (check_arg libc type key v ≡ ok tt) ↔ ValidText libc type v
  unfolding check_arg is_valid_number is_valid_eth
  check_arg_iff e_string key v = (λ _. tt, λ _. refl)
  check_arg_iff e_num key v =
      unless_iff (number_test (codes v)) _
        (number-NumberText (codes v), NumberText-number (codes v))
  check_arg_iff e_ipv4 key v = unless_iff _ _ (is_given_iff (libc.inet_pton v))
  check_arg_iff e_ipv6 key v = unless_iff _ _ (is_given_iff (libc.inet_pton6 v))
  check_arg_iff e_mac key v = (λ _. tt, λ _. refl)
  check_arg_iff e_jarray key v = null_refused (libc.parse v) _

module _ (libc : Libc) (args : Json) where
  -- An argument is missing, or its text is valid for its type.
  abbrev pub ValidArg : String × ArgType → Type 0
  ValidArg (key, type) =
      (find_if_exists args key ≡ ok none)
      ⊎ ((v : String) × ((find_if_exists args key ≡ ok (some v)) × ValidText libc type v))

  check_args-All : (tags : ArgumentsList) → check_args libc tags args ≡ ok tt → All ValidArg tags
  unfolding check_args
  check_args-All [] h = tt
  check_args-All ((key, type) ∷ more) h = elim (Outcome-cases (find_if_exists args key)) [
    | inl (none, h1) ↦ (inl h1, check_args-All more (ground arith))
    | inl (some v, h1) ↦ elim (Outcome-cases (check_arg libc type key v)) [
      | inl (u, h2) ↦
          (inr (v, (h1, (check_arg_iff libc type key v).0 h2)), check_args-All more (ground arith))
      | inr (inl (e, h2)) ↦ ground arith
      | inr (inr h2) ↦ ground arith
    ]
    | inr (inl (e, h1)) ↦ ground arith
    | inr (inr h1) ↦ ground arith
  ]

  All-check_args : (tags : ArgumentsList) → All ValidArg tags → check_args libc tags args ≡ ok tt
  unfolding check_args
  All-check_args [] h = refl
  All-check_args ((key, type) ∷ more) (inl h1, hs) = ground (arith, All-check_args more hs)
  All-check_args ((key, type) ∷ more) (inr (v, (h1, h2)), hs) =
      ground (arith, (check_arg_iff libc type key v).1 h2, All-check_args more hs)

  -- The check of the arguments passes exactly if each of the listed keys is missing or has a text that
  -- is valid for its type, whatever else the document holds: for a number, digits, of which there may be
  -- none, or "0x" and hexadecimal digits and x; for an IP address what inet_pton takes; for an array what
  -- the parser does not refuse; for an Ethernet address and for a string any text.
  pub check_args_iff :
      (tags : ArgumentsList) → (check_args libc tags args ≡ ok tt) ↔ All ValidArg tags
  check_args_iff tags = (check_args-All tags, All-check_args tags)

-- The type of a key in the list.
abbrev pub type_of : String → ArgumentsList → Option ArgType
type_of key [] = none
type_of key ((k, t) ∷ tags) = if string_eq k key then some t else type_of key tags

module _ (P : String × ArgType → Type 0) where
  pub All-type_of :
      (key : String) (type : ArgType) (tags : ArgumentsList)
      → All P tags
      → type_of key tags ≡ some type
      → P (key, type)
  All-type_of key type [] h e = cc
  All-type_of key type ((k, t) ∷ tags) (h, hs) e = elim (Bool-cases (string_eq k key)) [
    | inl b ↦ subst (λ k. P (k, type)) ((eq_iff k key).0 b) (subst (λ t. P (k, t)) (ground arith) h)
    | inr b ↦ All-type_of key type tags hs (ground arith)
  ]

-- A text of a key that passed the check passes the turn of the switch for the key's type.
pub check_args-valid :
    (libc : Libc) (args : Json) (tags : ArgumentsList) (key v : String) (type : ArgType)
    → check_args libc tags args ≡ ok tt
    → type_of key tags ≡ some type
    → find_if_exists args key ≡ ok (some v)
    → check_arg libc type key v ≡ ok tt
check_args-valid libc args tags key v type h ht hv =
    elim (All-type_of (ValidArg libc args) key type tags ((check_args_iff libc args tags).0 h) ht) [
      | inl missing ↦ cc
      | inr (w, (hw, hc)) ↦ ground (arith, (check_arg_iff libc type key w).1 hc)
    ]
