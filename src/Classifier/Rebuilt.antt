-- ===== src/Classifier/Rebuilt.antt =====
-- Building keeps the rules of a tree, each where it belongs (include/cnode.hh, split, build).
use nox13_interserver.Common.{
  ℕ, zero, suc, ◌+◌, ◌<◌, ◌*◌, Bool, not, none, List, [], ◌∷◌, ◌≡◌, leb, refl, ◌∙◌, arith, length,
  if-both,
}
use nox13_interserver.Classifier.{
  SplitFields, Rule, Cnode, leaf, split, Chain, nil, link, Buckets, no_more, bucket, AnyNode, null,
  any, value_of, n_buckets, child_of, empty_buckets, add_rule,
}
use nox13_interserver.Classifier.Building.{
  doubled_until, buckets_for, best_split, add_rules, split_leaf, build_chain, build_buckets,
  build_any, build_children, build, path_below, split_if_leaf,
}
use nox13_interserver.Classifier.Counts.{
  all_rules, all_any_rules, all_bucket_rules, all_chain_rules, count, count-split, count-bucket,
  count-link,
}
use nox13_interserver.Classifier.Placed.{
  has_value, Placed, PlacedAny, PlacedBuckets, PlacedChain, value_of-add_rule, count-add_rule,
}
use nox13_interserver.Classifier.Added.{Placed-add_rule}

n_buckets-empty_buckets : (R : Type 0) (n : ℕ) → n_buckets (empty_buckets {R = R} n) ≡ n
unfolding empty_buckets
n_buckets-empty_buckets R zero = refl
n_buckets-empty_buckets R (suc n) = omega (arith, n_buckets-empty_buckets R n)

count-empty_buckets :
    {R : Type 0} (p : R → Bool) (n : ℕ) → count p (all_bucket_rules (empty_buckets n)) ≡ 0
unfolding empty_buckets all_rules count
count-empty_buckets p zero = refl
count-empty_buckets p (suc n) = count-empty_buckets p n

doubled_until-positive : (fuel n k : ℕ) → 0 < k → 0 < doubled_until fuel n k
unfolding doubled_until
doubled_until-positive zero n k h = h
doubled_until-positive (suc fuel) n k h =
    ground (arith, doubled_until-positive fuel n (k * 2) (omega arith))

PlacedBuckets-empty :
    (Expr Action : Type 0) ⦃o : SplitFields Expr⦄ (f n k m : ℕ)
    → PlacedBuckets {Expr = Expr} {Action = Action} f n k (empty_buckets m)
unfolding empty_buckets Placed
PlacedBuckets-empty Expr Action f n k zero = tt
PlacedBuckets-empty Expr Action f n k (suc m) = (tt, PlacedBuckets-empty Expr Action f n (suc k) m)

module _ {Expr Action : Type 0} ⦃o : SplitFields Expr⦄ where
  -- What building a node keeps: its value, its rules, and that they are where they belong.
  abbrev pub SameRules : Cnode (Rule Expr Action) → Cnode (Rule Expr Action) → Type 0
  SameRules t u =
      (value_of u ≡ value_of t)
      × (Placed u × ((p : Rule Expr Action → Bool) → count p (all_rules u) ≡ count p (all_rules t)))

  add_rules-kept :
      (rs : List (Rule Expr Action)) (path : ℕ) (t : Cnode (Rule Expr Action))
      → Placed t
      → (value_of (add_rules rs path t) ≡ value_of t)
        × (Placed (add_rules rs path t)
            × ((p : Rule Expr Action → Bool)
                → count p (all_rules (add_rules rs path t)) ≡ count p rs + count p (all_rules t)))
  unfolding add_rules count
  add_rules-kept [] path t h = (refl, (h, λ p. omega arith))
  add_rules-kept (r ∷ rs) path t h =
      let (v, (g, c)) = add_rules-kept rs path (add_rule r path t) (Placed-add_rule r path t h) in
      (v ∙ value_of-add_rule r path t, (g, λ p. ground (arith, c p, count-add_rule p r path t h)))

  SameRules-trans :
      (t u w : Cnode (Rule Expr Action)) → SameRules t u → SameRules u w → SameRules t w
  SameRules-trans t u w (v, (g, c)) (v', (g', c')) = (v' ∙ v, (g', λ p. c' p ∙ c p))

  count-new_node :
      (p : Rule Expr Action → Bool) (v f n : ℕ)
      → count p (all_rules (split v [] f (empty_buckets n) null)) ≡ 0
  unfolding all_rules count
  count-new_node p v f n =
      ground (arith, count-split p v [] f (empty_buckets n) null, count-empty_buckets p n)

  new_node-SameRules :
      (path v f n : ℕ) (rs : List (Rule Expr Action))
      → 0 < n
      → SameRules (leaf v rs) (add_rules rs path (split v [] f (empty_buckets n) null))
  unfolding Placed all_rules
  new_node-SameRules path v f n rs h =
      let none_in : Buckets (Rule Expr Action) = empty_buckets n in
      let l : 0 < n_buckets none_in = omega (arith, n_buckets-empty_buckets (Rule Expr Action) n) in
      let placed = PlacedBuckets-empty Expr Action f (n_buckets none_in) 0 n in
      let (same, (g, c)) =
        add_rules-kept rs path (split v [] f none_in null) ((tt, l), (placed, tt)) in
      (same, (g, λ p. omega (arith, c p, count-new_node p v f n)))

  split_if_leaf-SameRules :
      (path : ℕ) (t : Cnode (Rule Expr Action)) → Placed t → SameRules t (split_if_leaf path t)
  unfolding split_leaf Placed
  split_if_leaf-SameRules path (split v rs f bs a) h = (refl, (h, λ p. refl))
  split_if_leaf-SameRules path (leaf v rs) h =
      let same : SameRules (leaf v rs) (leaf v rs) = (refl, (h, λ p. refl)) in
      let b = best_split path rs in
      let n = b.min_distinct * 3 in
      let new =
        new_node-SameRules path v b.field (buckets_for n) rs
          (doubled_until-positive n n 1 (omega arith)) in
      if-both (SameRules (leaf v rs)) (leb (length rs) o.leaf_threshold) same
        (if-both (SameRules (leaf v rs)) _ same new)

  module _ (build_child : Cnode (Rule Expr Action) → Cnode (Rule Expr Action))
      (keep : (t : Cnode (Rule Expr Action)) → Placed t → SameRules t (build_child t)) where
    child_of-build_chain :
        (v : ℕ) (c : Chain (Rule Expr Action)) (f n k : ℕ)
        → PlacedChain f n k c
        → child_of v c ≡ none
        → child_of v (build_chain build_child c) ≡ none
    unfolding child_of build_chain Placed
    child_of-build_chain v nil f n k h e = refl
    child_of-build_chain v (link t c) f n k ((_, h), _, hs) e =
        ground (arith, (keep t h).0, child_of-build_chain v c f n k hs)

    build_chain-kept :
        (f n k : ℕ) (c : Chain (Rule Expr Action))
        → PlacedChain f n k c
        → PlacedChain f n k (build_chain build_child c)
          × ((p : Rule Expr Action → Bool)
              → count p (all_chain_rules (build_chain build_child c)) ≡ count p (all_chain_rules c))
    unfolding build_chain Placed
    build_chain-kept f n k nil h = (tt, λ p. refl)
    build_chain-kept f n k (link t c) ((hk, h), (hb, hn), hs) =
        let (v, (g, same)) = keep t h in
        let (gs, sames) = build_chain-kept f n k c hs in
        let others = child_of-build_chain (value_of t) c f n k hs hn in
        (
          rw v ((same (λ r. not (has_value f (value_of t) r)) ∙ hk, g), (hb, others), gs),
          λ p.
              let later = count-link p (build_child t) (build_chain build_child c) in
              omega (arith, count-link p t c, later, same p, sames p),
        )

    build_buckets-kept :
        (f n k : ℕ) (bs : Buckets (Rule Expr Action))
        → PlacedBuckets f n k bs
        → PlacedBuckets f n k (build_buckets build_child bs)
          × ((p : Rule Expr Action → Bool)
              → count p (all_bucket_rules (build_buckets build_child bs))
                ≡ count p (all_bucket_rules bs))
    unfolding build_buckets Placed
    build_buckets-kept f n k no_more h = (tt, λ p. refl)
    build_buckets-kept f n k (bucket c bs) (h, hs) =
        let (g, same) = build_chain-kept f n k c h in
        let (gs, sames) = build_buckets-kept f n (suc k) bs hs in
        (
          (g, gs),
          λ p.
              let later =
                count-bucket p (build_chain build_child c) (build_buckets build_child bs) in
              omega (arith, count-bucket p c bs, later, same p, sames p),
        )

    n_buckets-build_buckets :
        (bs : Buckets (Rule Expr Action)) → n_buckets (build_buckets build_child bs) ≡ n_buckets bs
    unfolding build_buckets
    n_buckets-build_buckets no_more = refl
    n_buckets-build_buckets (bucket c bs) = omega (arith, n_buckets-build_buckets bs)

    build_any-kept :
        (a : AnyNode (Rule Expr Action))
        → PlacedAny a
        → PlacedAny (build_any build_child a)
          × ((p : Rule Expr Action → Bool)
              → count p (all_any_rules (build_any build_child a)) ≡ count p (all_any_rules a))
    unfolding build_any Placed all_rules
    build_any-kept null h = (tt, λ p. refl)
    build_any-kept (any t) h = (keep t h).1

    build_children-SameRules :
        (t : Cnode (Rule Expr Action)) → Placed t → SameRules t (build_children build_child t)
    unfolding build_children Placed
    build_children-SameRules (leaf v rs) h = (refl, (h, λ p. refl))
    build_children-SameRules (split v rs f bs a) ((s, l), (hb, ha)) =
        let (gb, same_b) = build_buckets-kept f (n_buckets bs) 0 bs hb in
        let (ga, same_a) = build_any-kept a ha in
        (
          refl,
          (
            rw (n_buckets-build_buckets bs) ((s, l), (gb, ga)),
            λ p.
                let later =
                  count-split p v rs f (build_buckets build_child bs) (build_any build_child a) in
                omega (arith, count-split p v rs f bs a, later, same_b p, same_a p),
          ),
        )

  -- Building a tree that has its rules where they belong, with any fuel, keeps the value of its root,
  -- each rule as often as it was in the tree, the order of the lists, and that the rules are where they
  -- belong.
  pub build-SameRules :
      (fuel path : ℕ) (t : Cnode (Rule Expr Action)) → Placed t → SameRules t (build fuel path t)
  unfolding build
  build-SameRules zero path t h = (refl, (h, λ p. refl))
  build-SameRules (suc fuel) path t h =
      let new = split_if_leaf path t in
      let kept = split_if_leaf-SameRules path t h in
      let below = path_below path new in
      SameRules-trans t new (build (suc fuel) path t) kept
        (build_children-SameRules (build fuel below) (build-SameRules fuel below) new kept.1.0)
