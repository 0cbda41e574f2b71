-- ===== src/Classifier/Table/Keyed.antt =====
-- The rules by their ids (include/classifier.hh, get_id and the map of the rules).
use nox13_interserver.Common.{
  ℕ, zero, suc, ◌+◌, ◌≤◌, Bool, true, false, Option, some, List, [], ◌∷◌, ◌==◌, ◌≡◌, refl, subst,
  arith, Bool-cases, inl, inr,
}
use nox13_interserver.Classifier.{Rule}
use nox13_interserver.Classifier.Counts.{count}
use nox13_interserver.Classifier.Removed.{of_id}
use nox13_interserver.Classifier.Ids.{is_used, max_id, next_unused, id_rounds, get_id}
use nox13_interserver.Classifier.Table.{erase}

-- An id that is given is not in use.
pub next_unused-unused :
    {R : Type 0} (fuel : ℕ) (loop : Bool) (rules : List (ℕ × R)) (counter id : ℕ)
    → next_unused fuel loop rules counter ≡ some id
    → 1 ≤ counter
    → counter ≤ max_id
    → (is_used id rules ≡ false) × ((1 ≤ id) × (id ≤ max_id))
unfolding next_unused
next_unused-unused zero loop rules counter id e l h = cc
next_unused-unused (suc fuel) loop rules counter id e l h = ground (
  arith,
  next_unused-unused fuel true rules 1 id,
  next_unused-unused fuel loop rules (counter + 1) id,
)

-- Where the id_counter is from 1 to 2^32 - 1 and an id is given, the id is not in use, and the
-- id_counter is from 1 to 2^32 - 1 again.
pub get_id-unused :
    {R : Type 0} (rules : List (ℕ × R)) (counter id after : ℕ)
    → ◌≡◌ {A = Option (ℕ × ℕ)} (get_id rules counter) (some (id, after))
    → 1 ≤ counter
    → counter ≤ max_id
    → (is_used id rules ≡ false) × ((1 ≤ after) × (after ≤ max_id))
unfolding get_id
get_id-unused rules counter id after e l h =
    ground (arith, e, next_unused-unused id_rounds false rules counter id)

module _ {Expr Action : Type 0} where
  abbrev pub rules_of : List (ℕ × Rule Expr Action) → List (Rule Expr Action)
  rules_of [] = []
  rules_of ((id, r) ∷ m) = r ∷ rules_of m

  -- Each rule stands once, under its id.
  abbrev pub Keyed : List (ℕ × Rule Expr Action) → Type 0
  Keyed [] = Unit
  Keyed ((id, r) ∷ m) = (r.id ≡ id) × ((is_used id m ≡ false) × Keyed m)

  is_used-erase :
      (id j : ℕ) (m : List (ℕ × Rule Expr Action))
      → is_used j m ≡ false
      → is_used j (erase id m) ≡ false
  unfolding erase
  is_used-erase id j [] h = refl
  is_used-erase id j ((k, r) ∷ m) h = ground (arith, is_used-erase id j m)

  pub erase-Keyed : (id : ℕ) (m : List (ℕ × Rule Expr Action)) → Keyed m → Keyed (erase id m)
  unfolding erase
  erase-Keyed id [] h = tt
  erase-Keyed id ((j, r) ∷ m) (e, (n, h)) =
      ground (arith, erase-Keyed id m h, is_used-erase id j m n)

  pub unused-count :
      (id : ℕ) (m : List (ℕ × Rule Expr Action))
      → Keyed m
      → is_used id m ≡ false
      → count (of_id id) (rules_of m) ≡ 0
  unfolding count
  unused-count id [] h e = refl
  unused-count id ((j, r) ∷ m) (i, (n, h)) e = ground (arith, unused-count id m h)

  -- Erasing an id that is used takes the rule of the id, which is the only one.
  pub erase-Taken :
      (id : ℕ) (m : List (ℕ × Rule Expr Action))
      → Keyed m
      → is_used id m ≡ true
      → (r : Rule Expr Action) × ((of_id id r ≡ true)
          × ((count (of_id id) (rules_of (erase id m)) ≡ 0)
              × ((p : Rule Expr Action → Bool)
                  → count p (rules_of m) ≡ count p (r ∷ []) + count p (rules_of (erase id m)))))
  unfolding erase count
  erase-Taken id [] h e = cc
  erase-Taken id ((j, r) ∷ m) (i, (n, h)) e = elim (Bool-cases (j == id)) [
    | inl g ↦
        let same : j ≡ id = ground arith in
        rw g (
          r,
          (
            ground arith,
            (unused-count id m h (subst (λ j. is_used j m ≡ false) same n), λ p. ground arith),
          ),
        )
    | inr g ↦
        let (q, (a, (z, c))) = erase-Taken id m h (ground arith) in
        rw g (q, (a, (ground (arith, z), λ p. ground (arith, c p))))
  ]
