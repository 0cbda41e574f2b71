-- ===== src/Classifier/Entries.antt =====
-- The entries of the iterator: what moving them and moving one on keeps (include/cnode-result.hh).
use nox13_interserver.Common.{
  ℕ, zero, suc, ◌+◌, ◌≤◌, Bool, List, [], ◌∷◌, ◌≡◌, refl, arith, All, length,
}
use nox13_interserver.Classifier.{Rule}
use nox13_interserver.Classifier.Counts.{count}
use nox13_interserver.Classifier.Placed.{Sorted, All-le}
use nox13_interserver.Classifier.Results.{
  Current, behind_first, last_first, advanced, advance_at, remaining, weight,
}

module _ {R : Type 0} where
  abbrev pub count_entries : (R → Bool) → List (Current R) → ℕ
  count_entries p [] = 0
  count_entries p (c ∷ cs) = count p (remaining c) + count_entries p cs

  count-behind_first :
      (p : R → Bool) (c : Current R) (cs : List (Current R))
      → count_entries p (behind_first c cs) ≡ count p (remaining c) + count_entries p cs
  count-behind_first p c [] = refl
  count-behind_first p c (l ∷ ls) = omega arith

  count-last_first :
      (p : R → Bool) (cs : List (Current R)) → count_entries p (last_first cs) ≡ count_entries p cs
  unfolding last_first
  count-last_first p [] = refl
  count-last_first p (c ∷ cs) =
      omega (arith, count-behind_first p c (last_first cs), count-last_first p cs)

  weight-behind_first :
      (c : Current R) (cs : List (Current R)) → weight (behind_first c cs) ≡ weight (c ∷ cs)
  weight-behind_first c [] = refl
  weight-behind_first c (l ∷ ls) = omega arith

  weight-last_first : (cs : List (Current R)) → weight (last_first cs) ≡ weight cs
  unfolding last_first
  weight-last_first [] = refl
  weight-last_first (c ∷ cs) =
      omega (arith, weight-behind_first c (last_first cs), weight-last_first cs)

  All-behind_first :
      (P : Current R → Type 0) (c : Current R) (cs : List (Current R))
      → P c
      → All P cs
      → All P (behind_first c cs)
  All-behind_first P c [] h hs = (h, tt)
  All-behind_first P c (l ∷ ls) h (g, gs) = (g, (h, gs))

  pub All-last_first :
      (P : Current R → Type 0) (cs : List (Current R)) → All P cs → All P (last_first cs)
  unfolding last_first
  All-last_first P [] h = h
  All-last_first P (c ∷ cs) (h, hs) =
      All-behind_first P c (last_first cs) h (All-last_first P cs hs)

  count-advanced :
      (p : R → Bool) (rs : List R) (cs : List (Current R))
      → count_entries p (advanced rs cs) ≡ count p rs + count_entries p cs
  unfolding advanced count
  count-advanced p [] cs = omega (arith, count-last_first p cs)
  count-advanced p (r ∷ rs) cs = refl

  pub weight-advanced :
      (rs : List R) (cs : List (Current R)) → weight (advanced rs cs) ≡ length rs + weight cs
  unfolding advanced
  weight-advanced [] cs = omega (arith, weight-last_first cs)
  weight-advanced (r ∷ rs) cs = refl

  -- A rule taken from an entry.
  pub count-entry :
      (p : R → Bool) (c : Current R) (cs : List (Current R))
      → count_entries p (c ∷ cs) ≡ count p (c.rule ∷ []) + count_entries p (advanced c.others cs)
  unfolding count
  count-entry p c cs = ground (arith, count-advanced p c.others cs)

module _ {Expr Action : Type 0} where
  -- No rule that is left has a lesser priority.
  abbrev pub From : ℕ → List (Current (Rule Expr Action)) → Type 0
  From k = All (λ c. All (λ r. k ≤ r.priority) (remaining c))

  -- A lower bound of the rules that the entries stand on is one of all rules.
  pub From-first :
      (k : ℕ) (cs : List (Current (Rule Expr Action)))
      → All (λ c. Sorted (remaining c)) cs
      → All (λ c. k ≤ c.rule.priority) cs
      → From k cs
  From-first k [] s h = tt
  From-first k (c ∷ cs) ((l, s), ss) (h, hs) =
      ((h, All-le k c.rule.priority c.others h l), From-first k cs ss hs)

  From-advanced :
      (k : ℕ) (rs : List (Rule Expr Action)) (cs : List (Current (Rule Expr Action)))
      → All (λ r. k ≤ r.priority) rs
      → From k cs
      → From k (advanced rs cs)
  unfolding advanced
  From-advanced k [] cs h hs = All-last_first (λ c. All (λ r. k ≤ r.priority) (remaining c)) cs hs
  From-advanced k (r ∷ rs) cs h hs = (h, hs)

  pub From-advance_at :
      (k i : ℕ) (cs : List (Current (Rule Expr Action))) → From k cs → From k (advance_at i cs)
  unfolding advance_at
  From-advance_at k i [] h = tt
  From-advance_at k zero (c ∷ cs) ((_, g), h) = From-advanced k c.others cs g h
  From-advance_at k (suc i) (c ∷ cs) (g, h) = (g, From-advance_at k i cs h)
