-- ===== src/Common/Maps.antt =====
-- `std::map` and `std::set` as lists in the order of their keys.
use nox13_interserver.Common.Branch.{if◌then◌else◌}
use nox13_interserver.Common.Keys.{Key}
use nox13_interserver.Common.Lists.{All}
use mathlib.Core.Path.{◌≡◌, refl}
use mathlib.Core.Bool.{true}
use mathlib.Core.Option.{Option, none, some}
use mathlib.Core.List.{List, [], ◌∷◌}
use native.Mathlib.Omega.{arith}

module _ {ℓ κ} {K : Type ℓ} {V : Type κ} ⦃o : Key K⦄ where
  -- find(k)
  unfoldable pub lookup : K → List (K × V) → Option V
  lookup k [] = none
  lookup k ((j, w) ∷ m) = if o.same j k then some w else lookup k m

  -- m[k] = v
  unfoldable pub insert : K → V → List (K × V) → List (K × V)
  insert k v [] = (k, v) ∷ []
  insert k v ((j, w) ∷ m) =
      if o.same j k
      then (j, v) ∷ m
      else if o.before k j
      then (k, v) ∷ (j, w) ∷ m
      else (j, w) ∷ insert k v m

  -- erase(k)
  unfoldable pub erase : K → List (K × V) → List (K × V)
  erase k [] = []
  erase k ((j, w) ∷ m) = let rest = erase k m in if o.same j k then rest else (j, w) ∷ rest

  pub lookup-insert :
      (k j : K) (v : V) (m : List (K × V))
      → lookup j (insert k v m) ≡ (if o.same k j then some v else lookup j m)
  unfolding lookup insert
  lookup-insert k j v [] = refl
  lookup-insert k j v ((i, w) ∷ m) =
      ground (arith, o.same_iff i k, o.same_iff k j, o.same_iff i j, lookup-insert k j v m)

  pub lookup-erase :
      (k j : K) (m : List (K × V))
      → lookup j (erase k m) ≡ (if o.same k j then none else lookup j m)
  unfolding lookup erase
  lookup-erase k j [] = ground arith
  lookup-erase k j ((i, w) ∷ m) =
      ground (arith, o.same_iff i k, o.same_iff k j, o.same_iff i j, lookup-erase k j m)

  abbrev pub After : K → List (K × V) → Type 0
  After k m = All (λ e. o.before k e.0 ≡ true) m

  -- The keys ascend, so no key stands twice.
  abbrev pub Sorted : List (K × V) → Type 0
  Sorted [] = Unit
  Sorted ((k, v) ∷ m) = After k m × Sorted m

  After-trans : (j k : K) (m : List (K × V)) → o.before j k ≡ true → After k m → After j m
  After-trans j k [] h a = tt
  After-trans j k ((i, w) ∷ m) h a = (o.before_trans j k i h a.0, After-trans j k m h a.1)

  After-insert :
      (j k : K) (v : V) (m : List (K × V))
      → o.before j k ≡ true
      → After j m
      → After j (insert k v m)
  unfolding insert
  After-insert j k v [] h a = (h, tt)
  After-insert j k v ((i, w) ∷ m) h a = ground (arith, After-insert j k v m h a.1)

  pub insert-Sorted : (k : K) (v : V) (m : List (K × V)) → Sorted m → Sorted (insert k v m)
  unfolding insert
  insert-Sorted k v [] s = (tt, tt)
  insert-Sorted k v ((j, w) ∷ m) s = ground (
    arith,
    insert-Sorted k v m s.1,
    After-trans k j m,
    After-insert j k v m,
    o.before_total k j,
    o.same_iff j k,
    o.same_iff k j,
  )

  After-erase : (j k : K) (m : List (K × V)) → After j m → After j (erase k m)
  unfolding erase
  After-erase j k [] a = tt
  After-erase j k ((i, w) ∷ m) a = ground (arith, After-erase j k m a.1)

  pub erase-Sorted : (k : K) (m : List (K × V)) → Sorted m → Sorted (erase k m)
  unfolding erase
  erase-Sorted k [] s = tt
  erase-Sorted k ((j, w) ∷ m) s = ground (arith, erase-Sorted k m s.1, After-erase j k m s.0)

  pub lookup-After : (k : K) (m : List (K × V)) → After k m → lookup k m ≡ none
  unfolding lookup
  lookup-After k [] a = refl
  lookup-After k ((j, w) ∷ m) a =
      ground (arith, lookup-After k m a.1, o.before_irrefl k j a.0, o.same_iff j k, o.same_iff k j)
