-- ===== src/Classifier/Added.antt =====
-- Adding a rule keeps the rules where they belong (include/cnode.hh, add_rule).
use nox13_interserver.Common.{
  ℕ, zero, suc, ◌+◌, Bool, true, not, none, [], ◌==◌, ◌≡◌, refl, sym, subst, arith, Bool-cases,
  Option-cases, inl, inr,
}
use nox13_interserver.Classifier.{
  SplitFields, Rule, Cnode, leaf, split, Chain, nil, link, Buckets, no_more, bucket, AnyNode, null,
  any, value_of, with_bit, get_bucket, n_buckets, child_of, add_rule_to_list, add_rule, add_any,
  add_bucket, add_child,
}
use nox13_interserver.Classifier.Counts.{all_rules, count}
use nox13_interserver.Classifier.Placed.{
  has_value, Placed, PlacedAny, PlacedBuckets, PlacedChain, value_of-add_rule, count-add_rule,
  add_rule_to_list-Sorted,
}

module _ {Expr Action : Type 0} ⦃o : SplitFields Expr⦄ where
  pub n_buckets-add_bucket :
      (r : Rule Expr Action) (path w i : ℕ) (bs : Buckets (Rule Expr Action))
      → n_buckets (add_bucket r path w i bs) ≡ n_buckets bs
  unfolding add_rule
  n_buckets-add_bucket r path w i no_more = refl
  n_buckets-add_bucket r path w zero (bucket c bs) = refl
  n_buckets-add_bucket r path w (suc i) (bucket c bs) =
      omega (arith, n_buckets-add_bucket r path w i bs)

  child_of-add_child :
      (r : Rule Expr Action) (path w v : ℕ) (c : Chain (Rule Expr Action))
      → child_of v c ≡ none
      → child_of v (add_child r path w c) ≡ none
  unfolding add_rule child_of
  child_of-add_child r path w v nil h = refl
  child_of-add_child r path w v (link t c) h =
      ground (arith, value_of-add_rule r path t, child_of-add_child r path w v c)

  -- A node of the value that gets a rule of the value.
  abbrev Keeps : ℕ → Cnode (Rule Expr Action) → Type 0
  Keeps f t = count (λ r. not (has_value f (value_of t) r)) (all_rules t) ≡ 0

  Keeps-add_rule :
      (r : Rule Expr Action) (path f : ℕ) (t : Cnode (Rule Expr Action))
      → Placed t
      → has_value f (value_of t) r ≡ true
      → Keeps f t
      → Keeps f (add_rule r path t)
  unfolding count
  Keeps-add_rule r path f t h e k =
      let p : Rule Expr Action → Bool = λ q. not (has_value f (value_of t) q) in
      let sum = count-add_rule p r path t h in
      let none_new : count p (all_rules (add_rule r path t)) ≡ 0 = ground (arith, e, k, sum) in
      rw (value_of-add_rule r path t) none_new

  Keeps-leaf :
      (r : Rule Expr Action) (f w : ℕ)
      → has_value f w r ≡ true
      → Keeps f (leaf w (add_rule_to_list r []))
  unfolding all_rules count add_rule_to_list
  Keeps-leaf r f w e = ground arith

  mutual
    unfolding add_rule Placed child_of all_rules

    pub Placed-add_rule :
        (r : Rule Expr Action) (path : ℕ) (t : Cnode (Rule Expr Action))
        → Placed t
        → Placed (add_rule r path t)
    Placed-add_rule r path (leaf v rs) h = add_rule_to_list-Sorted r rs h
    Placed-add_rule r path (split v rs f bs a) ((s, h), (hb, ha)) =
        elim (Bool-cases (o.splittable path r.expr)) [
          | inl e ↦ elim (Option-cases (o.get_field f r.expr)) [
            | inl g ↦ let below = Placed-add_any r (with_bit f path) a ha in ground (arith, below)
            | inr (w, g) ↦
                let i = get_bucket w (n_buckets bs) in
                let has : has_value f w r ≡ true = ground (arith, g) in
                let same = n_buckets-add_bucket r (with_bit f path) w i bs in
                let below =
                  Placed-add_bucket r (with_bit f path) w f (n_buckets bs) 0 bs i has (omega arith)
                    hb in
                ground (arith, below, same)
          ]
          | inr e ↦ ground (arith, add_rule_to_list-Sorted r rs s)
        ]

    Placed-add_any :
        (r : Rule Expr Action) (path : ℕ) (a : AnyNode (Rule Expr Action))
        → PlacedAny a
        → PlacedAny (add_any r path a)
    Placed-add_any r path null h = add_rule_to_list-Sorted r [] tt
    Placed-add_any r path (any t) h = Placed-add_rule r path t h

    Placed-add_bucket :
        (r : Rule Expr Action) (path w f n k : ℕ) (bs : Buckets (Rule Expr Action)) (i : ℕ)
        → has_value f w r ≡ true
        → get_bucket w n ≡ k + i
        → PlacedBuckets f n k bs
        → PlacedBuckets f n k (add_bucket r path w i bs)
    Placed-add_bucket r path w f n k no_more i e g h = tt
    Placed-add_bucket r path w f n k (bucket c bs) zero e g (h, hs) =
        elim (Option-cases (child_of w c)) [
          | inl q ↦
              rw q
                (((Keeps-leaf r f w e, add_rule_to_list-Sorted r [] tt), (omega arith, q), h), hs)
          | inr (t, q) ↦ rw q (Placed-add_child r path w f n k c e h, hs)
        ]
    Placed-add_bucket r path w f n k (bucket c bs) (suc i) e g (h, hs) =
        (h, Placed-add_bucket r path w f n (suc k) bs i e (omega (arith, g)) hs)

    Placed-add_child :
        (r : Rule Expr Action) (path w f n k : ℕ) (c : Chain (Rule Expr Action))
        → has_value f w r ≡ true
        → PlacedChain f n k c
        → PlacedChain f n k (add_child r path w c)
    Placed-add_child r path w f n k nil e h = tt
    Placed-add_child r path w f n k (link t c) e ((hk, ht), (hb, hn), hc) =
        elim (Bool-cases (value_of t == w)) [
          | inl q ↦
              let same : value_of t ≡ w = ground arith in
              let has = subst (λ w. has_value f w r ≡ true) (sym same) e in
              let kept = Keeps-add_rule r path f t ht has hk in
              let below = Placed-add_rule r path t ht in
              let stays = value_of-add_rule r path t in
              let at = subst (λ v. get_bucket v n ≡ k) (sym stays) hb in
              let first = subst (λ v. child_of v c ≡ none) (sym stays) hn in
              let placed : PlacedChain f n k (link (add_rule r path t) c) =
                ((kept, below), (at, first), hc) in
              ground (arith, placed)
          | inr q ↦
              let others = child_of-add_child r path w (value_of t) c hn in
              let placed : PlacedChain f n k (link t (add_child r path w c)) =
                ((hk, ht), (hb, others), Placed-add_child r path w f n k c e hc) in
              ground (arith, placed)
        ]
