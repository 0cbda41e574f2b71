-- ===== src/Interserver/Builders/Defined.antt =====
-- Where the building of an action is defined behaviour (interact_builders.cc, lines 253-527).
pub mod OfActions
use nox13_interserver.Common.{
  ℕ, Bool, true, false, Option, none, some, List, [], ◌∷◌, String, All, if◌then◌else◌, ◌≡◌, ◌≢◌,
  ◌⊎◌, inl, inr, refl, sym, ap, subst, ◌∙◌, arith, Bool-cases, Option-cases,
}
use nox13_interserver.Common.Outcome.{
  Outcome, ok, throws, undefined, Exception, ◌>>=◌, ◌>>◌, invalid_argument, or_throw, unless,
  Outcome-cases,
}
use nox13_interserver.Interserver.Json.{
  Json, Fields, dict, find_field, get_dict_value, get_string_noquotes,
}
use nox13_interserver.Interserver.Builders.Arguments.{
  Libc, ArgType, ArgumentsList, e_string, e_num, e_ipv4, e_ipv6, e_mac, e_jarray, is_given,
  find_if_exists, required, first_of, or_undefined, ethernetaddr, check_arg, check_args, number_or,
  required_number,
}
use nox13_interserver.Interserver.Builders.Checked.{type_of, check_args-valid}

-- The call does not end in undefined behaviour.
pub record Defined {ℓ} {A : Type ℓ} (m : Outcome A) : Type ℓ where
  pub at : m ≢ undefined

module _ {ℓ} {A : Type ℓ} where
  pub Defined-ok : (a : A) → Defined (ok a)
  Defined-ok a = record { at = λ h. cc }

  pub Defined-throws : (e : Exception) → Defined {A = A} (throws e)
  Defined-throws e = record { at = λ h. cc }

  pub Defined-if :
      (c : Bool) (m n : Outcome A)
      → (c ≡ true → Defined m)
      → (c ≡ false → Defined n)
      → Defined (if c then m else n)
  Defined-if true m n h k = h refl
  Defined-if false m n h k = k refl

  -- The rest of the block may use how the first call ended.
  pub Defined-bind {κ} :
      {B : Type κ} (m : Outcome B) (f : B → Outcome A)
      → Defined m
      → ((b : B) → m ≡ ok b → Defined (f b))
      → Defined (m >>= f)
  Defined-bind (ok b) f h k = k b refl
  Defined-bind (throws e) f h k = Defined-throws e
  Defined-bind undefined f h k = elim (h.at refl) [ ]

  pub Defined-bind-option {κ} :
      {B : Type κ} (m : Outcome (Option B)) (f : Option B → Outcome A)
      → Defined m
      → (m ≡ ok none → Defined (f none))
      → ((b : B) → m ≡ ok (some b) → Defined (f (some b)))
      → Defined (m >>= f)
  Defined-bind-option (ok none) f h kn ks = kn refl
  Defined-bind-option (ok (some b)) f h kn ks = ks b refl
  Defined-bind-option (throws e) f h kn ks = Defined-throws e
  Defined-bind-option undefined f h kn ks = elim (h.at refl) [ ]

  pub Defined-or_throw : (v : Option A) (what : String) → Defined (or_throw v what)
  Defined-or_throw none what = Defined-throws _
  Defined-or_throw (some a) what = Defined-ok a

  pub Defined-or_undefined : (v : Option A) → is_given v ≡ true → Defined (or_undefined v)
  Defined-or_undefined none h = cc
  Defined-or_undefined (some a) h = Defined-ok a

pub Defined-unless : (c : Bool) (what : String) → Defined (unless c what)
Defined-unless true what = Defined-ok tt
Defined-unless false what = Defined-throws _

pub ruleset defined_rules =
    (Defined-ok, Defined-throws, Defined-if, Defined-bind, Defined-or_throw, Defined-unless)

unless-true : (c : Bool) (what : String) → unless c what ≡ ok tt → c ≡ true
unless-true true what h = refl
unless-true false what h = cc

pub Defined-find : (fs : Fields) (key : String) → Defined (find_if_exists (dict fs) key)
unfolding find_if_exists get_dict_value find_field
Defined-find fs key = record {
  at = λ h. elim (Option-cases (find_field key fs)) [
    | inl e ↦ ground arith
    | inr (v, e) ↦ ground arith
  ];
}

pub Defined-required : (fs : Fields) (key what : String) → Defined (required (dict fs) key what)
unfolding required
Defined-required fs key what = search (defined_rules, Defined-find)

pub Defined-ethernetaddr : (text : String) → Defined (ethernetaddr text)
unfolding ethernetaddr
Defined-ethernetaddr text = search defined_rules

pub Defined-first_of : (fs : Fields) (keys : List String) → Defined (first_of (dict fs) keys)
unfolding first_of
Defined-first_of fs [] = Defined-ok none
Defined-first_of fs (key ∷ keys) =
    Defined-bind-option (find_if_exists (dict fs) key) _ (Defined-find fs key)
      (λ _. Defined-first_of fs keys) λ s _. Defined-ok _

-- The key that first_of finds is one of the keys, and its text is the value.
pub first_of-found :
    (P : String → Type 0) (args : Json) (keys : List String) (key v : String)
    → All P keys
    → first_of args keys ≡ ok (some (key, v))
    → P key × (find_if_exists args key ≡ ok (some v))
unfolding first_of
first_of-found P args [] key v hs e = cc
first_of-found P args (k ∷ keys) key v (h, hs) e = elim (Outcome-cases (find_if_exists args k)) [
  | inl (none, e1) ↦ first_of-found P args keys key v hs (ground arith)
  | inl (some s, e1) ↦
      let at_key : k ≡ key = ground arith in
      let at_text : s ≡ v = ground arith in
      (
        subst P at_key h,
        subst (λ k. find_if_exists args k ≡ ok (some v)) at_key
            (e1 ∙ ap (λ s. ok (some s)) at_text),
      )
  | inr (inl (x, e1)) ↦ ground arith
  | inr (inr e1) ↦ ground arith
]

module _ (libc : Libc) where
  Defined-check_arg : (type : ArgType) (key v : String) → Defined (check_arg libc type key v)
  unfolding check_arg
  Defined-check_arg e_string key v = search defined_rules
  Defined-check_arg e_num key v = search defined_rules
  Defined-check_arg e_ipv4 key v = search defined_rules
  Defined-check_arg e_ipv6 key v = search defined_rules
  Defined-check_arg e_mac key v = search defined_rules
  Defined-check_arg e_jarray key v = search defined_rules

  pub Defined-check_args :
      (tags : ArgumentsList) (fs : Fields) → Defined (check_args libc tags (dict fs))
  unfolding check_args
  Defined-check_args [] fs = Defined-ok tt
  Defined-check_args ((key, type) ∷ more) fs =
      Defined-bind-option (find_if_exists (dict fs) key) _ (Defined-find fs key)
        (λ _. Defined-check_args more fs)
        λ s _. Defined-bind _ _ (Defined-check_arg type key s) λ _ _. Defined-check_args more fs

  pub Defined-required_number :
      (fs : Fields) (key : String) (bits : ℕ) (what : String)
      → Defined (required_number libc (dict fs) key bits what)
  unfolding required_number
  Defined-required_number fs key bits what = search (defined_rules, Defined-required)

  -- An IPv4 or IPv6 address whose text passed the check is one that inet_pton converts.
  pub check_arg-ipv4 :
      (key v : String) → check_arg libc e_ipv4 key v ≡ ok tt → is_given (libc.inet_pton v) ≡ true
  unfolding check_arg
  check_arg-ipv4 key v h = unless-true _ _ h

  pub check_arg-ipv6 :
      (key v : String) → check_arg libc e_ipv6 key v ≡ ok tt → is_given (libc.inet_pton6 v) ≡ true
  unfolding check_arg
  check_arg-ipv6 key v h = unless-true _ _ h
