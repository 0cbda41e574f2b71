-- ===== src/Classifier/Found.antt =====
-- The children that a search visits hold all rules that may apply (include/cnode.hh, traverse).
use nox13_interserver.Common.{
  ℕ, zero, suc, ◌+◌, ◌<◌, Bool, false, not, ◌&&◌, Option, none, some, List, [], ◌∷◌, ◌==◌, ◌≡◌,
  refl, subst, arith, Bool-cases, inl, inr,
}
use nox13_interserver.Classifier.{
  SplitFields, Rule, Cnode, Chain, nil, link, Buckets, no_more, bucket, value_of, get_bucket,
  child_of, chain_at,
}
use nox13_interserver.Classifier.Counts.{
  all_rules, all_bucket_rules, all_chain_rules, count, count-none, count-bucket, count-link,
}
use nox13_interserver.Classifier.Placed.{has_value, Placed, PlacedBuckets, PlacedChain}

module _ {Expr Action : Type 0} ⦃o : SplitFields Expr⦄ where
  -- The rules with the property that have the value in the field.
  abbrev pub of_value : ℕ → ℕ → (Rule Expr Action → Bool) → Rule Expr Action → Bool
  of_value f v p r = p r && has_value f v r

  -- The rules of all nodes of a list.
  abbrev pub count_all : (Rule Expr Action → Bool) → List (Cnode (Rule Expr Action)) → ℕ
  count_all p [] = 0
  count_all p (t ∷ ts) = count p (all_rules t) + count_all p ts

  abbrev pub count_child : (Rule Expr Action → Bool) → Option (Cnode (Rule Expr Action)) → ℕ
  count_child p none = 0
  count_child p (some t) = count p (all_rules t)

  -- Where all rules of a list have one value, those of it are all, and those of another are none.
  count-same_value :
      (f v : ℕ) (p : Rule Expr Action → Bool) (rs : List (Rule Expr Action))
      → count (λ r. not (has_value f v r)) rs ≡ 0
      → count (of_value f v p) rs ≡ count p rs
  unfolding count
  count-same_value f v p [] h = refl
  count-same_value f v p (r ∷ rs) h = ground (arith, count-same_value f v p rs)

  count-other_value :
      (f v w : ℕ) (p : Rule Expr Action → Bool) (rs : List (Rule Expr Action))
      → count (λ r. not (has_value f w r)) rs ≡ 0
      → (w == v) ≡ false
      → count (of_value f v p) rs ≡ 0
  unfolding count
  count-other_value f v w p [] h e = refl
  count-other_value f v w p (r ∷ rs) h e = ground (arith, count-other_value f v w p rs)

  -- A chain without the value has no rule of it.
  count-chain_none :
      (f v n k : ℕ) (p : Rule Expr Action → Bool) (c : Chain (Rule Expr Action))
      → PlacedChain f n k c
      → child_of v c ≡ none
      → count (of_value f v p) (all_chain_rules c) ≡ 0
  unfolding Placed child_of all_rules
  count-chain_none f v n k p nil h e = count-none (of_value f v p) [] tt
  count-chain_none f v n k p (link t c) ((hk, h), (hb, hn), hs) e = ground (
    arith,
    count-link (of_value f v p) t c,
    count-other_value f v (value_of t) p (all_rules t) hk,
    count-chain_none f v n k p c hs,
  )

  count-chain :
      (f v n k : ℕ) (p : Rule Expr Action → Bool) (c : Chain (Rule Expr Action))
      → PlacedChain f n k c
      → count (of_value f v p) (all_chain_rules c) ≡ count_child p (child_of v c)
  unfolding Placed child_of all_rules
  count-chain f v n k p nil h = count-none (of_value f v p) [] tt
  count-chain f v n k p (link t c) ((hk, h), (hb, hn), hs) = elim (Bool-cases (value_of t == v)) [
    | inl e ↦
        let same : value_of t ≡ v = ground arith in
        let first = subst (λ v. child_of v c ≡ none) same hn in
        let all_first = subst (λ v. count (λ r. not (has_value f v r)) (all_rules t) ≡ 0) same hk in
        rw e (
          omega (
            arith,
            count-link (of_value f v p) t c,
            count-same_value f v p (all_rules t) all_first,
            count-chain_none f v n k p c hs first,
          ))
    | inr e ↦ rw e (
        omega (
          arith,
          count-link (of_value f v p) t c,
          count-chain f v n k p c hs,
          count-other_value f v (value_of t) p (all_rules t) hk e,
        ))
  ]

  -- A bucket other than that of the value has no child of it.
  child_of-none :
      (f v n k : ℕ) (c : Chain (Rule Expr Action))
      → PlacedChain f n k c
      → (get_bucket v n == k) ≡ false
      → child_of v c ≡ none
  unfolding Placed child_of
  child_of-none f v n k nil h e = refl
  child_of-none f v n k (link t c) (_, (hb, _), hs) e = elim (Bool-cases (value_of t == v)) [
    | inl q ↦
        let same : value_of t ≡ v = ground arith in
        let at : get_bucket v n ≡ k = subst (λ v. get_bucket v n ≡ k) same hb in
        absurd (ground arith)
    | inr q ↦ rw q (child_of-none f v n k c hs e)
  ]

  count-buckets_none :
      (f v n k : ℕ) (p : Rule Expr Action → Bool) (bs : Buckets (Rule Expr Action))
      → PlacedBuckets f n k bs
      → get_bucket v n < k
      → count (of_value f v p) (all_bucket_rules bs) ≡ 0
  unfolding Placed all_rules
  count-buckets_none f v n k p no_more h l = count-none (of_value f v p) [] tt
  count-buckets_none f v n k p (bucket c bs) (h, hs) l =
      let first = child_of-none f v n k c h (ground arith) in
      omega (
        arith,
        count-bucket (of_value f v p) c bs,
        count-buckets_none f v n (suc k) p bs hs (omega arith),
        count-chain_none f v n k p c h first,
      )

  -- The rules of a value are those of the child that the search finds.
  pub count-buckets :
      (f v n k i : ℕ) (p : Rule Expr Action → Bool) (bs : Buckets (Rule Expr Action))
      → PlacedBuckets f n k bs
      → get_bucket v n ≡ k + i
      → count (of_value f v p) (all_bucket_rules bs) ≡ count_child p (child_of v (chain_at i bs))
  unfolding Placed chain_at child_of all_rules
  count-buckets f v n k i p no_more h e = count-none (of_value f v p) [] tt
  count-buckets f v n k zero p (bucket c bs) (h, hs) e = omega (
    arith,
    count-bucket (of_value f v p) c bs,
    count-buckets_none f v n (suc k) p bs hs (omega arith),
    count-chain f v n k p c h,
  )
  count-buckets f v n k (suc i) p (bucket c bs) (h, hs) e =
      let first = child_of-none f v n k c h (ground arith) in
      omega (
        arith,
        count-bucket (of_value f v p) c bs,
        count-buckets f v n (suc k) i p bs hs (omega arith),
        count-chain_none f v n k p c h first,
      )
