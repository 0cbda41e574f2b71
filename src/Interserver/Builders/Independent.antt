-- ===== src/Interserver/Builders/Independent.antt =====
-- Each action of an "action_set" is built the same, whatever was built before it
-- (interact_builders.cc, lines 253-600, on the array of lib/actions.cc).
pub mod OfActions
use nox13_interserver.Common.{
  ℕ, Bool, true, false, Option, none, some, List, [], ◌∷◌, ◌++◌, String, if◌then◌else◌, map, ◌≡◌,
  refl, ap, sym, ◌∙◌, length, ◌≢◌, ◌≤◌, arith, length-append,
}
use nox13_interserver.Common.Outcome.{
  Outcome, ok, throws, undefined, Exception, ◌>>=◌, ◌>>◌, invalid_argument,
}
use mathlib.Core.List.{append-nil, append_assoc}
use nox13_interserver.Interserver.Json.{Json}
use nox13_interserver.Interserver.Builders.Arguments.{Libc, find_if_exists, required}
use nox13_interserver.Interserver.Builders.ActionFields.{output_action}
use nox13_interserver.OpenFlow.Actions.{
  create_output, Action, Actions, Slot, unwritten, pointer, TtlType, copy_ttl_in, copy_ttl_out,
  dec_nw_ttl, dec_mpls_ttl, FieldValue, append_action, create_copy_ttl, create_set_mpls_ttl,
  new_actions,
}
use nox13_interserver.OpenFlow.Actions.Growth.{
  holding, append_action-holding, create_copy_ttl-undefined, create_set_mpls_ttl-undefined,
}

-- The actions that the pointers of an array lead to.
abbrev pub written : List Slot → List Action
written [] = []
written (unwritten ∷ slots) = written slots
written (pointer x ∷ slots) = x ∷ written slots

-- What is built of an empty array, as a list.
abbrev pub built : Outcome Actions → Outcome (List Action)
built m = m >>= λ a. ok (written a.acts)

-- The builder adds the same actions at the end, whatever the array holds.
pub record Adds (f : Actions → Outcome Actions) : Type 0 where
  pub adds : Outcome (List Action)
  pub at : (xs : List Action) → f (holding xs) ≡ (adds >>= λ ys. ok (holding (xs ++ ys)))

pub Adds-ok : Adds ok
Adds-ok = record { adds = ok []; at = λ xs. ap (λ ys. ok (holding ys)) (sym (append-nil xs)) }

-- A builder that ends the same way without an array.
pub Adds-throws : (e : Exception) → Adds (λ _. throws e)
Adds-throws e = record { adds = throws e; at = λ xs. refl }

pub Adds-undefined : Adds (λ _. undefined)
Adds-undefined = record { adds = undefined; at = λ xs. refl }

pub Adds-append : (y : Action) → Adds (append_action y)
Adds-append y = record { adds = ok (y ∷ []); at = append_action-holding y }

pub Adds-if :
    (c : Bool) (f g : Actions → Outcome Actions)
    → Adds f
    → Adds g
    → Adds (λ a. if c then f a else g a)
Adds-if true f g h k = h
Adds-if false f g h k = k

module _ {ℓ} {B : Type ℓ} where
  pub Adds-bind :
      (m : Outcome B) (f : B → Actions → Outcome Actions)
      → ((b : B) → Adds (f b))
      → Adds (λ a. m >>= λ b. f b a)
  Adds-bind (ok b) f h = h b
  Adds-bind (throws e) f h = Adds-throws e
  Adds-bind undefined f h = Adds-undefined

  -- The rest of the block may ask if there is a value.
  pub Adds-bind-option :
      (m : Outcome (Option B)) (f : Option B → Actions → Outcome Actions)
      → Adds (f none)
      → ((b : B) → Adds (f (some b)))
      → Adds (λ a. m >>= λ b. f b a)
  Adds-bind-option (ok none) f kn ks = kn
  Adds-bind-option (ok (some b)) f kn ks = ks b
  Adds-bind-option (throws e) f kn ks = Adds-throws e
  Adds-bind-option undefined f kn ks = Adds-undefined

pub ruleset adds_rules = (Adds-ok, Adds-throws, Adds-append, Adds-if, Adds-bind)

pub written-pointers : (ys : List Action) → written (map pointer ys) ≡ ys
written-pointers [] = refl
written-pointers (y ∷ ys) = ap (◌∷◌ y) (written-pointers ys)

pub written-holding : (ys : List Action) → written (holding ys).acts ≡ ys
unfolding holding new_actions
written-holding [] = refl
written-holding (y ∷ ys) = written-pointers (y ∷ ys)

-- What a builder adds is what it builds of an empty array.
pub built-Adds : (f : Actions → Outcome Actions) (h : Adds f) → built (f new_actions) ≡ h.adds
unfolding holding
built-Adds f h = ap built (h.at []) ∙ built-holding h.adds
  where
    built-holding : (m : Outcome (List Action)) → built (m >>= λ ys. ok (holding ys)) ≡ m
    built-holding (ok ys) = ap ok (written-holding ys)
    built-holding (throws e) = refl
    built-holding undefined = refl
