-- ===== src/Interserver/Builders/Failure.antt =====
-- Which exceptions the request builders throw (interact_builders.cc).
pub mod OfActions
pub mod OfMessages
use nox13_interserver.Common.{
  ℕ, Bool, true, false, Option, none, some, List, [], ◌∷◌, String, if◌then◌else◌, ◌≡◌, ◌≢◌, refl,
  ap, inl, inr, arith,
}
use nox13_interserver.Common.Outcome.{
  Outcome, ok, throws, undefined, Exception, std_exception, http_request_error, ◌>>=◌, ◌>>◌,
  invalid_argument, or_throw, unless, Outcome-cases,
}
use nox13_interserver.Interserver.Json.{
  Json, null, number, boolean, string, array, dict, get_dict_value, get_string_noquotes,
}
use nox13_interserver.Interserver.Builders.Arguments.{
  Libc, ArgType, ArgumentsList, e_string, e_num, e_ipv4, e_ipv6, e_mac, e_jarray, find_if_exists,
  required, first_of, or_undefined, as_array, ethernetaddr, check_arg, check_args, number_or,
  required_number, array_at,
}
use nox13_interserver.Interserver.Verdict.{get_dict_value-throws}

-- If the call throws, it throws a std::exception that is no http_request_error.
pub record RaisesStd {ℓ} {A : Type ℓ} (m : Outcome A) : Type ℓ where
  pub at : (e : Exception) → m ≡ throws e → (what : String) × (e ≡ std_exception what)

module _ {ℓ} {A : Type ℓ} where
  pub RaisesStd-ok : (a : A) → RaisesStd (ok a)
  RaisesStd-ok a = record { at = λ e h. cc }

  pub RaisesStd-undefined : RaisesStd {A = A} undefined
  RaisesStd-undefined = record { at = λ e h. cc }

  pub RaisesStd-invalid : (what : String) → RaisesStd {A = A} (invalid_argument what)
  RaisesStd-invalid what = record { at = λ e h. (what, cc) }

  pub RaisesStd-if :
      (c : Bool) (m n : Outcome A) → RaisesStd m → RaisesStd n → RaisesStd (if c then m else n)
  RaisesStd-if true m n h k = h
  RaisesStd-if false m n h k = k

  pub RaisesStd-bind {κ} :
      {B : Type κ} (m : Outcome B) (f : B → Outcome A)
      → RaisesStd m
      → ((b : B) → RaisesStd (f b))
      → RaisesStd (m >>= f)
  RaisesStd-bind (ok b) f h k = k b
  RaisesStd-bind (throws e) f h k = record { at = λ x p. h.at x cc }
  RaisesStd-bind undefined f h k = RaisesStd-undefined

  -- The rest of the block may ask if there is a value.
  pub RaisesStd-bind-option {κ} :
      {B : Type κ} (m : Outcome (Option B)) (f : Option B → Outcome A)
      → RaisesStd m
      → RaisesStd (f none)
      → ((b : B) → RaisesStd (f (some b)))
      → RaisesStd (m >>= f)
  RaisesStd-bind-option (ok none) f h kn ks = kn
  RaisesStd-bind-option (ok (some b)) f h kn ks = ks b
  RaisesStd-bind-option (throws e) f h kn ks = record { at = λ x p. h.at x cc }
  RaisesStd-bind-option undefined f h kn ks = RaisesStd-undefined

  pub RaisesStd-or_throw : (v : Option A) (what : String) → RaisesStd (or_throw v what)
  RaisesStd-or_throw none what = RaisesStd-invalid what
  RaisesStd-or_throw (some a) what = RaisesStd-ok a

  pub RaisesStd-or_undefined : (v : Option A) → RaisesStd (or_undefined v)
  RaisesStd-or_undefined none = RaisesStd-undefined
  RaisesStd-or_undefined (some a) = RaisesStd-ok a

pub RaisesStd-unless : (c : Bool) (what : String) → RaisesStd (unless c what)
RaisesStd-unless true what = RaisesStd-ok tt
RaisesStd-unless false what = RaisesStd-invalid what

pub RaisesStd-find : (args : Json) (key : String) → RaisesStd (find_if_exists args key)
unfolding find_if_exists
RaisesStd-find args key = record {
  at = λ e h. elim (Outcome-cases (get_dict_value key args)) [
    | inl (none, h1) ↦ ground arith
    | inl (some t, h1) ↦ ground arith
    | inr (inl (x, h1)) ↦ elim (get_dict_value-throws key args x h1) [ ]
    | inr (inr h1) ↦ ground arith
  ];
}

pub ruleset std_rules = (
  RaisesStd-ok, RaisesStd-undefined, RaisesStd-invalid, RaisesStd-if, RaisesStd-bind,
  RaisesStd-or_throw, RaisesStd-or_undefined, RaisesStd-unless, RaisesStd-find,
)

pub RaisesStd-required : (args : Json) (key what : String) → RaisesStd (required args key what)
unfolding required
RaisesStd-required args key what = search std_rules

pub RaisesStd-first_of : (args : Json) (keys : List String) → RaisesStd (first_of args keys)
unfolding first_of
RaisesStd-first_of args [] = search std_rules
RaisesStd-first_of args (key ∷ keys) =
    RaisesStd-bind-option (find_if_exists args key) _ (search std_rules)
      (RaisesStd-first_of args keys) λ s. RaisesStd-ok _

pub RaisesStd-as_array : (j : Json) → RaisesStd (as_array j)
unfolding as_array
RaisesStd-as_array null = search std_rules
RaisesStd-as_array (number x) = search std_rules
RaisesStd-as_array (boolean x) = search std_rules
RaisesStd-as_array (string x) = search std_rules
RaisesStd-as_array (array xs) = search std_rules
RaisesStd-as_array (dict fs) = search std_rules

pub RaisesStd-ethernetaddr : (text : String) → RaisesStd (ethernetaddr text)
unfolding ethernetaddr
RaisesStd-ethernetaddr text = search std_rules

module _ (libc : Libc) where
  RaisesStd-check_arg : (type : ArgType) (key v : String) → RaisesStd (check_arg libc type key v)
  unfolding check_arg
  RaisesStd-check_arg e_string key v = search std_rules
  RaisesStd-check_arg e_num key v = search std_rules
  RaisesStd-check_arg e_ipv4 key v = search std_rules
  RaisesStd-check_arg e_ipv6 key v = search std_rules
  RaisesStd-check_arg e_mac key v = search std_rules
  RaisesStd-check_arg e_jarray key v = search std_rules

  pub RaisesStd-check_args :
      (tags : ArgumentsList) (args : Json) → RaisesStd (check_args libc tags args)
  unfolding check_args
  RaisesStd-check_args [] args = search std_rules
  RaisesStd-check_args ((key, type) ∷ more) args =
      RaisesStd-bind-option (find_if_exists args key) _ (search std_rules)
        (RaisesStd-check_args more args)
        λ s.
          RaisesStd-bind (check_arg libc type key s) _ (RaisesStd-check_arg type key s)
            λ _. RaisesStd-check_args more args

  pub RaisesStd-number_or :
      (args : Json) (key : String) (bits default : ℕ)
      → RaisesStd (number_or libc args key bits default)
  unfolding number_or
  RaisesStd-number_or args key bits default =
      RaisesStd-bind-option (find_if_exists args key) _ (search std_rules) (search std_rules)
        λ s. search std_rules

  pub RaisesStd-required_number :
      (args : Json) (key : String) (bits : ℕ) (what : String)
      → RaisesStd (required_number libc args key bits what)
  unfolding required_number
  RaisesStd-required_number args key bits what = search (std_rules, RaisesStd-required)

  pub RaisesStd-array_at : (args : Json) (key : String) → RaisesStd (array_at libc args key)
  unfolding array_at
  RaisesStd-array_at args key =
      RaisesStd-bind-option (find_if_exists args key) _ (search std_rules) (search std_rules)
        λ s. RaisesStd-as_array (libc.parse s)

pub ruleset argument_rules = (
  std_rules, RaisesStd-required, RaisesStd-first_of, RaisesStd-as_array, RaisesStd-ethernetaddr,
  RaisesStd-check_args, RaisesStd-number_or, RaisesStd-required_number, RaisesStd-array_at,
)
