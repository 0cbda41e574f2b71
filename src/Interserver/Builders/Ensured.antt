-- ===== src/Interserver/Builders/Ensured.antt =====
-- What the builders' results have (interact_builders.cc), for builders that may throw.
use nox13_interserver.Common.{refl, subst, ◌≡◌}
use nox13_interserver.Common.Outcome.{Outcome, ok, throws, undefined, ◌>>=◌, ok-injective}

-- If the call ends with a value, it has the property.
pub record Ensures {A : Type 0} (P : A → Type 0) (m : Outcome A) : Type 0 where
  pub at : (a : A) → m ≡ ok a → P a

module _ {A : Type 0} (P : A → Type 0) where
  pub Ensures-ok : (a : A) → P a → Ensures P (ok a)
  Ensures-ok a h = record { at = λ b e. subst P (ok-injective e) h }

  pub Ensures-bind :
      {B : Type 0} (m : Outcome B) (f : B → Outcome A)
      → ((b : B) → m ≡ ok b → Ensures P (f b))
      → Ensures P (m >>= f)
  Ensures-bind (ok b) f h = h b refl
  Ensures-bind (throws e) f h = record { at = λ a e. cc }
  Ensures-bind undefined f h = record { at = λ a e. cc }
