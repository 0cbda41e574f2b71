-- ===== src/Classifier/Unbuilt.antt =====
-- Unbuilding gathers all rules of a tree in the order of their priorities (include/cnode.hh, unbuild,
-- add_node_rules).
use nox13_interserver.Common.{
  ℕ, suc, ◌+◌, ◌≤◌, Bool, List, [], ◌∷◌, ltb, ◌≡◌, refl, arith, All, if-both, Bool-cases, inl, inr,
}
use nox13_interserver.Classifier.{
  SplitFields, Rule, Cnode, leaf, split, Chain, nil, link, Buckets, no_more, bucket, AnyNode, null,
  any, n_buckets,
}
use nox13_interserver.Classifier.Building.{
  merge_before, merge, add_node_rules, add_any_rules, add_bucket_rules, add_chain_rules, unbuild,
}
use nox13_interserver.Classifier.Counts.{
  all_rules, all_any_rules, all_bucket_rules, all_chain_rules, count, count-none, count-split,
  count-bucket, count-link,
}
use nox13_interserver.Classifier.Placed.{
  Placed, PlacedAny, PlacedBuckets, PlacedChain, Sorted, All-le,
}
use nox13_interserver.Classifier.Rebuilt.{SameRules}

module _ {Expr Action : Type 0} where
  count-merge_before :
      (p : Rule Expr Action → Bool) (x : Rule Expr Action)
      (rest : List (Rule Expr Action) → List (Rule Expr Action)) (n : ℕ)
      (ys : List (Rule Expr Action))
      → ((ys : List (Rule Expr Action)) → count p (rest ys) ≡ n + count p ys)
      → count p (merge_before x rest ys) ≡ count p (x ∷ []) + (n + count p ys)
  unfolding merge_before count
  count-merge_before p x rest n [] h = ground (arith, h [])
  count-merge_before p x rest n (y ∷ ys) h =
      ground (arith, h (y ∷ ys), count-merge_before p x rest n ys h)

  count-merge :
      (p : Rule Expr Action → Bool) (xs ys : List (Rule Expr Action))
      → count p (merge xs ys) ≡ count p xs + count p ys
  unfolding merge count
  count-merge p [] ys = omega arith
  count-merge p (x ∷ xs) ys =
      ground (arith, count-merge_before p x (merge xs) (count p xs) ys (count-merge p xs))

  merge_before-All :
      (k : ℕ) (x : Rule Expr Action) (rest : List (Rule Expr Action) → List (Rule Expr Action))
      (ys : List (Rule Expr Action))
      → k ≤ x.priority
      → ((ys : List (Rule Expr Action))
          → All (λ q. k ≤ q.priority) ys
          → All (λ q. k ≤ q.priority) (rest ys))
      → All (λ q. k ≤ q.priority) ys
      → All (λ q. k ≤ q.priority) (merge_before x rest ys)
  unfolding merge_before
  merge_before-All k x rest [] h keep hs = (h, keep [] tt)
  merge_before-All k x rest (y ∷ ys) h keep hs =
      if-both (All (λ q. k ≤ q.priority)) (ltb y.priority x.priority)
        (hs.0, merge_before-All k x rest ys h keep hs.1) (h, keep (y ∷ ys) hs)

  merge-All :
      (k : ℕ) (xs ys : List (Rule Expr Action))
      → All (λ q. k ≤ q.priority) xs
      → All (λ q. k ≤ q.priority) ys
      → All (λ q. k ≤ q.priority) (merge xs ys)
  unfolding merge
  merge-All k [] ys h hs = hs
  merge-All k (x ∷ xs) ys (h, g) hs =
      merge_before-All k x (merge xs) ys h (λ ys. merge-All k xs ys g) hs

  merge_before-Sorted :
      (x : Rule Expr Action) (xs ys : List (Rule Expr Action))
      → All (λ q. x.priority ≤ q.priority) xs
      → ((ys : List (Rule Expr Action)) → Sorted ys → Sorted (merge xs ys))
      → Sorted ys
      → Sorted (merge_before x (merge xs) ys)
  unfolding merge_before
  merge_before-Sorted x xs [] h keep s = (merge-All x.priority xs [] h tt, keep [] tt)
  merge_before-Sorted x xs (y ∷ ys) h keep (l, s) = elim (Bool-cases (ltb y.priority x.priority)) [
    | inl e ↦
        let k = y.priority in
        let to_rest = λ (ys : List (Rule Expr Action)).
          merge-All k xs ys (All-le k x.priority xs (ground arith) h) in
        rw e (
          merge_before-All k x (merge xs) ys (ground arith) to_rest l,
          merge_before-Sorted x xs ys h keep s,
        )
    | inr e ↦
        let later = All-le x.priority y.priority ys (ground arith) l in
        rw e (merge-All x.priority xs (y ∷ ys) h (ground arith, later), keep (y ∷ ys) (l, s))
  ]

  merge-Sorted : (xs ys : List (Rule Expr Action)) → Sorted xs → Sorted ys → Sorted (merge xs ys)
  unfolding merge
  merge-Sorted [] ys h s = s
  merge-Sorted (x ∷ xs) ys (l, h) s = merge_before-Sorted x xs ys l (λ ys. merge-Sorted xs ys h) s

module _ {Expr Action : Type 0} ⦃o : SplitFields Expr⦄ where
  -- The rules collected are sorted, and those of the node are added to them.
  abbrev Collected :
      List (Rule Expr Action) → List (Rule Expr Action) → List (Rule Expr Action) → Type 0
  Collected acc new all =
      Sorted all × ((p : Rule Expr Action → Bool) → count p all ≡ count p acc + count p new)

  merge-Collected :
      (acc rs : List (Rule Expr Action)) → Sorted acc → Sorted rs → Collected acc rs (merge acc rs)
  merge-Collected acc rs s t = (merge-Sorted acc rs s t, λ p. count-merge p acc rs)

  mutual
    unfolding add_node_rules Placed all_rules

    add_node_rules-Collected :
        (acc : List (Rule Expr Action)) (t : Cnode (Rule Expr Action))
        → Sorted acc
        → Placed t
        → Collected acc (all_rules t) (add_node_rules acc t)
    add_node_rules-Collected acc (leaf v rs) s h = merge-Collected acc rs s h
    add_node_rules-Collected acc (split v rs f bs a) s ((l, _), (hb, ha)) =
        let merged = merge-Collected acc rs s l in
        let with_buckets =
          add_bucket_rules-Collected (merge acc rs) f (n_buckets bs) 0 bs merged.0 hb in
        let with_any =
          add_any_rules-Collected (add_bucket_rules (merge acc rs) bs) a with_buckets.0 ha in
        (
          with_any.0,
          λ p. omega (arith, count-split p v rs f bs a, merged.1 p, with_buckets.1 p, with_any.1 p),
        )

    add_any_rules-Collected :
        (acc : List (Rule Expr Action)) (a : AnyNode (Rule Expr Action))
        → Sorted acc
        → PlacedAny a
        → Collected acc (all_any_rules a) (add_any_rules acc a)
    add_any_rules-Collected acc null s h = (s, λ p. omega (arith, count-none p [] tt))
    add_any_rules-Collected acc (any t) s h = add_node_rules-Collected acc t s h

    add_bucket_rules-Collected :
        (acc : List (Rule Expr Action)) (f n k : ℕ) (bs : Buckets (Rule Expr Action))
        → Sorted acc
        → PlacedBuckets f n k bs
        → Collected acc (all_bucket_rules bs) (add_bucket_rules acc bs)
    add_bucket_rules-Collected acc f n k no_more s h = (s, λ p. omega (arith, count-none p [] tt))
    add_bucket_rules-Collected acc f n k (bucket c bs) s (h, hs) =
        let first = add_chain_rules-Collected acc f n k c s h in
        let rest = add_bucket_rules-Collected (add_chain_rules acc c) f n (suc k) bs first.0 hs in
        (rest.0, λ p. omega (arith, count-bucket p c bs, first.1 p, rest.1 p))

    add_chain_rules-Collected :
        (acc : List (Rule Expr Action)) (f n k : ℕ) (c : Chain (Rule Expr Action))
        → Sorted acc
        → PlacedChain f n k c
        → Collected acc (all_chain_rules c) (add_chain_rules acc c)
    add_chain_rules-Collected acc f n k nil s h = (s, λ p. omega (arith, count-none p [] tt))
    add_chain_rules-Collected acc f n k (link t c) s ((_, h), _, hs) =
        let first = add_node_rules-Collected acc t s h in
        let rest = add_chain_rules-Collected (add_node_rules acc t) f n k c first.0 hs in
        (rest.0, λ p. omega (arith, count-link p t c, first.1 p, rest.1 p))

  -- An unbuilt node is a leaf.
  abbrev pub IsLeaf : Cnode (Rule Expr Action) → Type 0
  IsLeaf (leaf v rs) = Unit
  IsLeaf (split v rs f bs a) = ⊥

  -- Unbuilding a tree that has its rules where they belong makes a leaf of the same value, which lists
  -- each rule as often as it was in the tree, in the order of the priorities.
  pub unbuild-SameRules :
      (t : Cnode (Rule Expr Action)) → Placed t → SameRules t (unbuild t) × IsLeaf (unbuild t)
  unfolding unbuild Placed all_rules count
  unbuild-SameRules (leaf v rs) h = ((refl, (h, λ p. refl)), tt)
  unbuild-SameRules (split v rs f bs a) h =
      let all = add_node_rules-Collected [] (split v rs f bs a) tt h in
      ((refl, (all.0, λ p. omega (arith, all.1 p))), tt)
