-- ===== src/Common/Outcome.antt =====
-- How a call of the program ends: with a value, with an exception, or in undefined behaviour.
use Prim.Native.Nat.{ℕ}
use Prim.Native.String.{String}
use mathlib.Core.Path.{◌≡◌, refl}
use mathlib.Core.Logic.{◌⊎◌, inl, inr}
use mathlib.Core.Bool.{Bool, true, false}
use mathlib.Core.Option.{Option, none, some}

-- A `std::exception` with its `what()`, or an `http_request_error` with its HTTP status too.
pub data Exception : Type 0 where
  std_exception : String → Exception
  http_request_error : String → ℕ → Exception

pub data Outcome {ℓ} (A : Type ℓ) : Type ℓ where
  ok : A → Outcome A
  throws : Exception → Outcome A
  undefined : Outcome A

infixl 5 ◌>>=◌ ◌>>◌
abbrev pub ◌>>=◌ {ℓ κ} : {A : Type ℓ} {B : Type κ} → Outcome A → (A → Outcome B) → Outcome B
ok a >>= f = f a
throws e >>= f = throws e
undefined >>= f = undefined

abbrev pub ◌>>◌ {ℓ} : {B : Type ℓ} → Outcome (Unit {0}) → Outcome B → Outcome B
m >> k = m >>= λ _. k

-- throw std::invalid_argument(what)
abbrev pub invalid_argument {ℓ} : {A : Type ℓ} → String → Outcome A
invalid_argument what = throws (std_exception what)

-- `if (test) throw …`
abbrev pub unless : Bool → String → Outcome (Unit {0})
unless true what = ok tt
unless false what = invalid_argument what

-- The value, or the exception of the code where there is none.
abbrev pub or_throw {ℓ} : {A : Type ℓ} → Option A → String → Outcome A
or_throw (some a) what = ok a
or_throw none what = invalid_argument what

-- Where two calls in a row end with a value, the first has ended with one too.
pub >>=-eq-ok {ℓ κ} :
    {A : Type ℓ} {B : Type κ} (first : Outcome A) (rest : A → Outcome B) {last : B}
    → (first >>= rest) ≡ ok last
    → (mid : A) × (first ≡ ok mid) × (rest mid ≡ ok last)
>>=-eq-ok undefined rest h = cc
>>=-eq-ok (throws x) rest h = cc
>>=-eq-ok (ok mid) rest h = (mid, refl, h)

pub Outcome-cases {ℓ} :
    {A : Type ℓ} (m : Outcome A)
    → ((a : A) × (m ≡ ok a)) ⊎ (((e : Exception) × (m ≡ throws e)) ⊎ (m ≡ undefined))
Outcome-cases (ok a) = inl (a, refl)
Outcome-cases (throws e) = inr (inl (e, refl))
Outcome-cases undefined = inr (inr refl)

pub ok-injective {ℓ} : {A : Type ℓ} {a b : A} → ok a ≡ ok b → a ≡ b
ok-injective h = cc
