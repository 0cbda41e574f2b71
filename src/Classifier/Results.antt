-- ===== src/Classifier/Results.antt =====
-- The iterator over the rules found (include/cnode-result.hh): one sorted list of rules for each node
-- visited, of which `next` takes the matching rule of least priority. The entries of the vector beyond
-- num_lists are left out.
use nox13_interserver.Common.{
  ℕ, zero, suc, ◌+◌, Bool, true, false, ◌||◌, Option, none, some, List, [], ◌∷◌, ltb, length,
}
use nox13_interserver.Classifier.{Rule}
use nox13_interserver.Classifier.Traversal.{Query}

-- current_rule: the rule that the iterator stands on, and those up to the end.
pub record Current (R : Type 0) : Type 0 where
  pub rule : R
  pub others : List R
  pub ismatch : Bool

module _ {R : Type 0} where
  abbrev pub behind_first : Current R → List (Current R) → List (Current R)
  behind_first c [] = c ∷ []
  behind_first c (l ∷ ls) = l ∷ c ∷ ls

  -- `traversed[--num_lists]` in place of an entry that stands before these: the last goes first.
  unfoldable pub last_first : List (Current R) → List (Current R)
  last_first [] = []
  last_first (c ∷ cs) = behind_first c (last_first cs)

  -- The iterator goes on to the rules that follow, and the entry goes when there are none.
  unfoldable pub advanced : List R → List (Current R) → List (Current R)
  unfolding last_first
  advanced [] cs = last_first cs
  advanced (r ∷ rs) cs = record { rule = r; others = rs; ismatch = false } ∷ cs

  unfoldable pub advance_at : ℕ → List (Current R) → List (Current R)
  unfolding advanced
  advance_at i [] = []
  advance_at zero (c ∷ cs) = advanced c.others cs
  advance_at (suc i) (c ∷ cs) = c ∷ advance_at i cs

  -- The rules of an entry, and how many are left in all.
  abbrev pub remaining : Current R → List R
  remaining c = c.rule ∷ c.others

  abbrev pub weight : List (Current R) → ℕ
  weight [] = 0
  weight (c ∷ cs) = suc (length c.others) + weight cs

  -- The entries of lists that are not empty, as `push` makes them.
  unfoldable pub entries : List (List R) → List (Current R)
  entries [] = []
  entries ([] ∷ ls) = entries ls
  entries ((r ∷ rs) ∷ ls) = record { rule = r; others = rs; ismatch = false } ∷ entries ls

  -- An entry that the loop passes, before the result of the rest.
  abbrev pub passing :
      Current R
      → Option (Option (R × ℕ) × List (Current R))
      → Option (Option (R × ℕ) × List (Current R))
  passing c none = none
  passing c (some (best, cs)) = some (best, c ∷ cs)

module _ {Expr Action : Type 0} where
  -- match == NULL || rule->priority < min_pri
  abbrev pub is_better : Option (Rule Expr Action × ℕ) → Rule Expr Action → Bool
  is_better none r = true
  is_better (some (m, i)) r = ltb r.priority m.priority

module _ {Expr Action Data : Type 0} ⦃q : Query Expr Data⦄ where
  -- The loop of next from entry i on, on fuel: each round passes an entry or takes a rule from one.
  unfoldable pub scan :
      ℕ
      → Data
      → ℕ
      → Option (Rule Expr Action × ℕ)
      → List (Current (Rule Expr Action))
      → Option (Option (Rule Expr Action × ℕ) × List (Current (Rule Expr Action)))
  unfolding advanced
  scan fuel d i best [] = some (best, [])
  scan zero d i best (c ∷ cs) = none
  scan (suc fuel) d i best (c ∷ cs) = elim (is_better best c.rule) [
    | false ↦ passing c (scan fuel d (i + 1) best cs)
    | true ↦ elim (c.ismatch || q.matches c.rule.id c.rule.expr d) [
      | true ↦ passing (record c { ismatch = true }) (scan fuel d (i + 1) (some (c.rule, i)) cs)
      | false ↦ scan fuel d i best (advanced c.others cs)
    ]
  ]

  unfoldable pub next :
      Data
      → List (Current (Rule Expr Action))
      → Option (Option (Rule Expr Action) × List (Current (Rule Expr Action)))
  unfolding scan advance_at
  next d cs = elim (scan (weight cs) d 0 none cs) [
    | none ↦ none
    | some (none, cs') ↦ some (none, cs')
    | some (some (m, i), cs') ↦ some (some m, advance_at i cs')
  ]

  -- All rules that `next` gives until it gives NULL, on fuel.
  unfoldable pub all_next :
      ℕ → Data → List (Current (Rule Expr Action)) → Option (List (Rule Expr Action))
  unfolding next
  all_next zero d cs = none
  all_next (suc fuel) d cs = elim (next d cs) [
    | none ↦ none
    | some (none, cs') ↦ some []
    | some (some m, cs') ↦ elim (all_next fuel d cs') [ none ↦ none | some ms ↦ some (m ∷ ms) ]
  ]
