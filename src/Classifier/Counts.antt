-- ===== src/Classifier/Counts.antt =====
-- Counting the rules of a tree that have a property.
use nox13_interserver.Common.{
  ℕ, suc, ◌+◌, Bool, false, ◌&&◌, List, [], ◌∷◌, ◌++◌, if◌then◌else◌, ◌≡◌, refl, ap, ◌∙◌, arith,
  All,
}
use nox13_interserver.Classifier.{
  Cnode, leaf, split, Chain, nil, link, Buckets, no_more, bucket, AnyNode, null, any,
}

module _ {R : Type 0} where
  -- All rules of a tree.
  unfoldable mutual
    pub all_rules : Cnode R → List R
    all_rules (leaf v rs) = rs
    all_rules (split v rs f bs a) = rs ++ (all_bucket_rules bs ++ all_any_rules a)

    pub all_any_rules : AnyNode R → List R
    all_any_rules null = []
    all_any_rules (any t) = all_rules t

    pub all_bucket_rules : Buckets R → List R
    all_bucket_rules no_more = []
    all_bucket_rules (bucket c bs) = all_chain_rules c ++ all_bucket_rules bs

    pub all_chain_rules : Chain R → List R
    all_chain_rules nil = []
    all_chain_rules (link t c) = all_rules t ++ all_chain_rules c

  -- How many of the list have the property.
  unfoldable pub count : (R → Bool) → List R → ℕ
  count p [] = 0
  count p (r ∷ rs) = let rest = count p rs in if p r then suc rest else rest

  pub count-append : (p : R → Bool) (rs qs : List R) → count p (rs ++ qs) ≡ count p rs + count p qs
  unfolding count
  count-append p [] qs = omega arith
  count-append p (r ∷ rs) qs = ground (arith, count-append p rs qs)

  pub count-none : (p : R → Bool) (rs : List R) → All (λ r. p r ≡ false) rs → count p rs ≡ 0
  unfolding count
  count-none p [] h = refl
  count-none p (r ∷ rs) (h, hs) = ground (arith, count-none p rs hs)

  pub count-both : (p q : R → Bool) (rs : List R) → count q rs ≡ 0 → count (λ r. p r && q r) rs ≡ 0
  unfolding count
  count-both p q [] h = refl
  count-both p q (r ∷ rs) h = ground (arith, count-both p q rs)

  pub count-same :
      (p q : R → Bool) (rs : List R) → All (λ r. p r ≡ q r) rs → count p rs ≡ count q rs
  unfolding count
  count-same p q [] h = refl
  count-same p q (r ∷ rs) (h, hs) = ground (arith, count-same p q rs hs)

  pub count-split :
      (p : R → Bool) (v : ℕ) (rs : List R) (f : ℕ) (bs : Buckets R) (a : AnyNode R)
      → count p (all_rules (split v rs f bs a))
        ≡ count p rs + (count p (all_bucket_rules bs) + count p (all_any_rules a))
  unfolding all_rules
  count-split p v rs f bs a =
      count-append p rs (all_bucket_rules bs ++ all_any_rules a)
      ∙ ap (λ n. count p rs + n) (count-append p (all_bucket_rules bs) (all_any_rules a))

  pub count-bucket :
      (p : R → Bool) (c : Chain R) (bs : Buckets R)
      → count p (all_bucket_rules (bucket c bs))
        ≡ count p (all_chain_rules c) + count p (all_bucket_rules bs)
  unfolding all_rules
  count-bucket p c bs = count-append p (all_chain_rules c) (all_bucket_rules bs)

  pub count-link :
      (p : R → Bool) (t : Cnode R) (c : Chain R)
      → count p (all_chain_rules (link t c)) ≡ count p (all_rules t) + count p (all_chain_rules c)
  unfolding all_rules
  count-link p t c = count-append p (all_rules t) (all_chain_rules c)
