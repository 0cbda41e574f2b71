-- ===== src/Classifier/Placed.antt =====
-- Where the nodes of a tree hold the rules: adding a rule (include/cnode.hh, add_rule).
use nox13_interserver.Common.{
  ℕ, zero, suc, ◌+◌, ◌<◌, ◌≤◌, ◌%◌, ◌*◌, ◌^◌, Bool, true, false, not, none, some, List, [], ◌∷◌,
  leb, ◌==◌, ◌≡◌, refl, arith, is_some, All, Bool-cases, Option-cases, inl, inr,
}
use nox13_interserver.Classifier.{
  SplitFields, Rule, Cnode, leaf, split, Chain, nil, link, Buckets, no_more, bucket, AnyNode, null,
  any, value_of, with_bit, get_bucket, n_buckets, child_of, add_rule_to_list, add_rule, add_any,
  add_bucket, add_child,
}
use nox13_interserver.Classifier.Counts.{
  all_rules, all_any_rules, all_bucket_rules, all_chain_rules, count, count-append, count-split,
  count-bucket, count-link,
}
use native.Mathlib.Nat.{mod-lt}

get_bucket-lt : (w n : ℕ) → 0 < n → get_bucket w n < n
unfolding get_bucket
get_bucket-lt w n h = mod-lt ((w * 2654435761) % 2 ^ 32) h

module _ {Expr Action : Type 0} where
  -- The priorities ascend.
  abbrev pub Sorted : List (Rule Expr Action) → Type 0
  Sorted [] = Unit
  Sorted (r ∷ rs) = All (λ q. r.priority ≤ q.priority) rs × Sorted rs

  add_rule_to_list-All :
      (k : ℕ) (r : Rule Expr Action) (rs : List (Rule Expr Action))
      → k ≤ r.priority
      → All (λ q. k ≤ q.priority) rs
      → All (λ q. k ≤ q.priority) (add_rule_to_list r rs)
  unfolding add_rule_to_list
  add_rule_to_list-All k r [] h hs = (h, tt)
  add_rule_to_list-All k r (q ∷ qs) h (l, hs) = ground (arith, add_rule_to_list-All k r qs h hs)

  pub All-le :
      (k l : ℕ) (rs : List (Rule Expr Action))
      → k ≤ l
      → All (λ q. l ≤ q.priority) rs
      → All (λ q. k ≤ q.priority) rs
  All-le k l [] h hs = tt
  All-le k l (q ∷ qs) h (g, hs) = (omega arith, All-le k l qs h hs)

  pub add_rule_to_list-Sorted :
      (r : Rule Expr Action) (rs : List (Rule Expr Action))
      → Sorted rs
      → Sorted (add_rule_to_list r rs)
  unfolding add_rule_to_list
  add_rule_to_list-Sorted r [] s = (tt, tt)
  add_rule_to_list-Sorted r (q ∷ qs) (l, s) = elim (Bool-cases (leb r.priority q.priority)) [
    | inl e ↦ rw e ((ground arith, All-le r.priority q.priority qs (ground arith) l), (l, s))
    | inr e ↦
        rw e (add_rule_to_list-All q.priority r qs (ground arith) l, add_rule_to_list-Sorted r qs s)
  ]

  pub count-add_rule_to_list :
      (p : Rule Expr Action → Bool) (r : Rule Expr Action) (rs : List (Rule Expr Action))
      → count p (add_rule_to_list r rs) ≡ count p (r ∷ []) + count p rs
  unfolding add_rule_to_list count
  count-add_rule_to_list p r [] = ground arith
  count-add_rule_to_list p r (q ∷ qs) = ground (arith, count-add_rule_to_list p r qs)

module _ {Expr Action : Type 0} ⦃o : SplitFields Expr⦄ where
  -- Whether the rule has the value in the field.
  abbrev pub has_value : ℕ → ℕ → Rule Expr Action → Bool
  has_value f v r = elim (o.get_field f r.expr) [ none ↦ false | some w ↦ w == v ]

  -- The lists are sorted. Each child of a split node is the only one of its value in the bucket of that value, and all the
  -- rules below it have the value in the field of the split.
  unfoldable mutual
    pub Placed : Cnode (Rule Expr Action) → Type 0
    Placed (leaf v rs) = Sorted rs
    Placed (split v rs f bs a) =
        (Sorted rs × (0 < n_buckets bs)) × (PlacedBuckets f (n_buckets bs) 0 bs × PlacedAny a)

    pub PlacedAny : AnyNode (Rule Expr Action) → Type 0
    PlacedAny null = Unit
    PlacedAny (any t) = Placed t

    pub PlacedBuckets : ℕ → ℕ → ℕ → Buckets (Rule Expr Action) → Type 0
    PlacedBuckets f n i no_more = Unit
    PlacedBuckets f n i (bucket c bs) = PlacedChain f n i c × PlacedBuckets f n (suc i) bs

    pub PlacedChain : ℕ → ℕ → ℕ → Chain (Rule Expr Action) → Type 0
    PlacedChain f n i nil = Unit
    PlacedChain f n i (link t c) =
        ((count (λ r. not (has_value f (value_of t) r)) (all_rules t) ≡ 0) × Placed t)
        × ((get_bucket (value_of t) n ≡ i) × (child_of (value_of t) c ≡ none))
        × PlacedChain f n i c

  pub value_of-add_rule :
      (r : Rule Expr Action) (path : ℕ) (t : Cnode (Rule Expr Action))
      → value_of (add_rule r path t) ≡ value_of t
  unfolding add_rule
  value_of-add_rule r path (leaf v rs) = refl
  value_of-add_rule r path (split v rs f bs a) = ground arith

  count-leaf :
      (p : Rule Expr Action → Bool) (w : ℕ) (r : Rule Expr Action) (c : Chain (Rule Expr Action))
      → count p (all_chain_rules (link (leaf w (add_rule_to_list r [])) c))
        ≡ count p (r ∷ []) + count p (all_chain_rules c)
  unfolding all_rules add_rule_to_list
  count-leaf p w r c = count-append p (r ∷ []) (all_chain_rules c)

  mutual
    unfolding add_rule Placed child_of all_rules

    pub count-add_rule :
        (p : Rule Expr Action → Bool) (r : Rule Expr Action) (path : ℕ)
        (t : Cnode (Rule Expr Action))
        → Placed t
        → count p (all_rules (add_rule r path t)) ≡ count p (r ∷ []) + count p (all_rules t)
    count-add_rule p r path (leaf v rs) h = count-add_rule_to_list p r rs
    count-add_rule p r path (split v rs f bs a) ((s, h), (hb, ha)) =
        let now = count-split p v rs f bs a in
        elim (Bool-cases (o.splittable path r.expr)) [
          | inl e ↦ elim (Option-cases (o.get_field f r.expr)) [
            | inl g ↦
                (let later = count-split p v rs f bs (add_any r (with_bit f path) a) in
                  ground (arith, now, later, count-add_any p r (with_bit f path) a ha))
            | inr (w, g) ↦
                (let i = get_bucket w (n_buckets bs) in
                  let later = count-split p v rs f (add_bucket r (with_bit f path) w i bs) a in
                  let to_child =
                    count-add_bucket p r (with_bit f path) w f (n_buckets bs) 0 bs i hb
                      (get_bucket-lt w (n_buckets bs) h) in
                  ground (arith, now, later, to_child))
          ]
          | inr e ↦
              (let later = count-split p v (add_rule_to_list r rs) f bs a in
                ground (arith, now, later, count-add_rule_to_list p r rs))
        ]

    count-add_any :
        (p : Rule Expr Action → Bool) (r : Rule Expr Action) (path : ℕ)
        (a : AnyNode (Rule Expr Action))
        → PlacedAny a
        → count p (all_any_rules (add_any r path a)) ≡ count p (r ∷ []) + count p (all_any_rules a)
    count-add_any p r path null h = count-add_rule_to_list p r []
    count-add_any p r path (any t) h = count-add_rule p r path t h

    count-add_bucket :
        (p : Rule Expr Action → Bool) (r : Rule Expr Action) (path w f n k : ℕ)
        (bs : Buckets (Rule Expr Action)) (i : ℕ)
        → PlacedBuckets f n k bs
        → i < n_buckets bs
        → count p (all_bucket_rules (add_bucket r path w i bs))
          ≡ count p (r ∷ []) + count p (all_bucket_rules bs)
    count-add_bucket p r path w f n k no_more i h l = absurd (omega arith)
    count-add_bucket p r path w f n k (bucket c bs) zero (h, hs) l =
        let now = count-bucket p c bs in
        elim (Option-cases (child_of w c)) [
          | inl e ↦
              (let new = link (leaf w (add_rule_to_list r [])) c in
                ground (arith, now, count-bucket p new bs, count-leaf p w r c))
          | inr (t, e) ↦
              (let later = count-bucket p (add_child r path w c) bs in
                ground
                  (arith, now, later, count-add_child p r path w f n k c h (ground (arith, e))))
        ]
    count-add_bucket p r path w f n k (bucket c bs) (suc i) (h, hs) l =
        let later = count-bucket p c (add_bucket r path w i bs) in
        let below = count-add_bucket p r path w f n (suc k) bs i hs (omega arith) in
        omega (arith, count-bucket p c bs, later, below)

    count-add_child :
        (p : Rule Expr Action → Bool) (r : Rule Expr Action) (path w f n k : ℕ)
        (c : Chain (Rule Expr Action))
        → PlacedChain f n k c
        → is_some (child_of w c) ≡ true
        → count p (all_chain_rules (add_child r path w c))
          ≡ count p (r ∷ []) + count p (all_chain_rules c)
    count-add_child p r path w f n k nil h l = cc
    count-add_child p r path w f n k (link t c) ((_, ht), _, hc) l =
        let now = count-link p t c in
        elim (Bool-cases (value_of t == w)) [
          | inl e ↦
              (let later = count-link p (add_rule r path t) c in
                ground (arith, now, later, count-add_rule p r path t ht))
          | inr e ↦
              (let later = count-link p t (add_child r path w c) in
                let l' : is_some (child_of w c) ≡ true = ground arith in
                ground (arith, now, later, count-add_child p r path w f n k c hc l'))
        ]
