-- ===== src/Classifier/Searched.antt =====
-- A search of the tree finds what a search of all rules would (include/cnode.hh, traverse;
-- include/classifier.hh, get_rules).
use nox13_interserver.Common.{
  ℕ, suc, ◌+◌, Bool, true, false, not, ◌||◌, some, List, [], ◌∷◌, ◌==◌, if◌then◌else◌, ◌≡◌, refl,
  sym, arith, Option-cases, inl, inr, is_some,
}
use nox13_interserver.Classifier.{
  SplitFields, Rule, Cnode, Chain, nil, link, Buckets, no_more, bucket, AnyNode, null, any,
  value_of, get_bucket, n_buckets, child_of, chain_at,
}
use nox13_interserver.Classifier.Counts.{
  all_rules, all_any_rules, all_bucket_rules, all_chain_rules, count, count-none, count-bucket,
  count-link,
}
use nox13_interserver.Classifier.Placed.{has_value, Placed, PlacedBuckets, PlacedChain}
use nox13_interserver.Classifier.Traversal.{
  push_any, push_found, push_chain, push_buckets, push_children,
}
use nox13_interserver.Classifier.Found.{of_value, count_all, count-buckets}

abbrev pub member : ℕ → List ℕ → Bool
member v [] = false
member v (w ∷ ws) = (v == w) || member v ws

abbrev pub Distinct : List ℕ → Type 0
Distinct [] = Unit
Distinct (v ∷ vs) = (member v vs ≡ false) × Distinct vs

abbrev pub is_empty : List ℕ → Bool
is_empty [] = true
is_empty (v ∷ vs) = false

module _ {Expr Action : Type 0} ⦃o : SplitFields Expr⦄ where
  -- A rule with the property that has a value in the field has one of these, unless there are none.
  abbrev pub Agrees : ℕ → List ℕ → (Rule Expr Action → Bool) → Type 0
  Agrees f vs p =
      (r : Rule Expr Action) (w : ℕ)
      → p r ≡ true
      → o.get_field f r.expr ≡ some w
      → (is_empty vs || member w vs) ≡ true

  abbrev Within : ℕ → List ℕ → (Rule Expr Action → Bool) → Type 0
  Within f vs p =
      (r : Rule Expr Action) (w : ℕ)
      → p r ≡ true
      → o.get_field f r.expr ≡ some w
      → member w vs ≡ true

  -- In how many of the values the rule is.
  abbrev hits : ℕ → List ℕ → (Rule Expr Action → Bool) → Rule Expr Action → ℕ
  hits f [] p r = 0
  hits f (v ∷ vs) p r = let rest = hits f vs p r in if of_value f v p r then suc rest else rest

  abbrev count_values : ℕ → List ℕ → (Rule Expr Action → Bool) → List (Rule Expr Action) → ℕ
  count_values f [] p rs = 0
  count_values f (v ∷ vs) p rs = count (of_value f v p) rs + count_values f vs p rs

  count_values-cons :
      (f : ℕ) (vs : List ℕ) (p : Rule Expr Action → Bool) (r : Rule Expr Action)
      (rs : List (Rule Expr Action))
      → count_values f vs p (r ∷ rs) ≡ hits f vs p r + count_values f vs p rs
  unfolding count
  count_values-cons f [] p r rs = omega arith
  count_values-cons f (v ∷ vs) p r rs = ground (arith, count_values-cons f vs p r rs)

  count_values-nil :
      (f : ℕ) (vs : List ℕ) (p : Rule Expr Action → Bool) → count_values f vs p [] ≡ 0
  unfolding count
  count_values-nil f [] p = refl
  count_values-nil f (v ∷ vs) p = omega (arith, count_values-nil f vs p)

  hits-none :
      (f w : ℕ) (vs : List ℕ) (p : Rule Expr Action → Bool) (r : Rule Expr Action)
      → o.get_field f r.expr ≡ some w
      → member w vs ≡ false
      → hits f vs p r ≡ 0
  hits-none f w [] p r e m = refl
  hits-none f w (v ∷ vs) p r e m = ground (arith, hits-none f w vs p r e)

  hits-once :
      (f w : ℕ) (vs : List ℕ) (p : Rule Expr Action → Bool) (r : Rule Expr Action)
      → Distinct vs
      → p r ≡ true
      → o.get_field f r.expr ≡ some w
      → member w vs ≡ true
      → hits f vs p r ≡ 1
  hits-once f w [] p r d h e m = cc
  hits-once f w (v ∷ vs) p r (d, ds) h e m =
      ground (arith, hits-once f w vs p r ds h e, hits-none f w vs p r e)

  hits-unwanted :
      (f : ℕ) (vs : List ℕ) (p : Rule Expr Action → Bool) (r : Rule Expr Action)
      → p r ≡ false
      → hits f vs p r ≡ 0
  hits-unwanted f [] p r h = refl
  hits-unwanted f (v ∷ vs) p r h = ground (arith, hits-unwanted f vs p r h)

  -- Rules that all have a value in the field are counted value by value.
  count-by_value :
      (f : ℕ) (vs : List ℕ) (p : Rule Expr Action → Bool) (rs : List (Rule Expr Action))
      → Distinct vs
      → Within f vs p
      → count (λ r. not (is_some (o.get_field f r.expr))) rs ≡ 0
      → count p rs ≡ count_values f vs p rs
  unfolding count
  count-by_value f vs p [] d a h = sym (count_values-nil f vs p)
  count-by_value f vs p (r ∷ rs) d a h = elim (Option-cases (o.get_field f r.expr)) [
    | inl e ↦ absurd (ground (arith, e))
    | inr (w, e) ↦ ground (
      arith,
      e,
      count_values-cons f vs p r rs,
      count-by_value f vs p rs d a,
      a r w,
      hits-once f w vs p r d,
      hits-unwanted f vs p r,
    )
  ]

  count-no_value :
      (f v : ℕ) (rs : List (Rule Expr Action))
      → count (λ r. not (has_value f v r)) rs ≡ 0
      → count (λ r. not (is_some (o.get_field f r.expr))) rs ≡ 0
  unfolding count
  count-no_value f v [] h = refl
  count-no_value f v (r ∷ rs) h = ground (arith, count-no_value f v rs)

  -- All rules below a split have a value in its field.
  chain-valued :
      (f n k : ℕ) (c : Chain (Rule Expr Action))
      → PlacedChain f n k c
      → count (λ r. not (is_some (o.get_field f r.expr))) (all_chain_rules c) ≡ 0
  unfolding Placed all_rules count
  chain-valued f n k nil h = refl
  chain-valued f n k (link t c) ((hk, _), _, hs) = omega (
    arith,
    count-link (λ r. not (is_some (o.get_field f r.expr))) t c,
    count-no_value f (value_of t) (all_rules t) hk,
    chain-valued f n k c hs,
  )

  buckets-valued :
      (f n k : ℕ) (bs : Buckets (Rule Expr Action))
      → PlacedBuckets f n k bs
      → count (λ r. not (is_some (o.get_field f r.expr))) (all_bucket_rules bs) ≡ 0
  unfolding Placed all_rules count
  buckets-valued f n k no_more h = refl
  buckets-valued f n k (bucket c bs) (h, hs) = omega (
    arith,
    count-bucket (λ r. not (is_some (o.get_field f r.expr))) c bs,
    chain-valued f n k c h,
    buckets-valued f n (suc k) bs hs,
  )

  pub push_any-count :
      (p : Rule Expr Action → Bool) (a : AnyNode (Rule Expr Action))
      (stack : List (Cnode (Rule Expr Action)))
      → count_all p (push_any a stack) ≡ count p (all_any_rules a) + count_all p stack
  unfolding push_any all_rules
  push_any-count p null stack = omega (arith, count-none p [] tt)
  push_any-count p (any t) stack = refl

  push_chain-count :
      (p : Rule Expr Action → Bool) (c : Chain (Rule Expr Action))
      (stack : List (Cnode (Rule Expr Action)))
      → count_all p (push_chain c stack) ≡ count p (all_chain_rules c) + count_all p stack
  unfolding push_chain all_rules
  push_chain-count p nil stack = omega (arith, count-none p [] tt)
  push_chain-count p (link t c) stack =
      omega (arith, count-link p t c, push_chain-count p c (t ∷ stack))

  push_buckets-count :
      (p : Rule Expr Action → Bool) (bs : Buckets (Rule Expr Action))
      (stack : List (Cnode (Rule Expr Action)))
      → count_all p (push_buckets bs stack) ≡ count p (all_bucket_rules bs) + count_all p stack
  unfolding push_buckets all_rules
  push_buckets-count p no_more stack = omega (arith, count-none p [] tt)
  push_buckets-count p (bucket c bs) stack = omega (
    arith,
    count-bucket p c bs,
    push_chain-count p c stack,
    push_buckets-count p bs (push_chain c stack),
  )

  push_found-count :
      (f : ℕ) (vs : List ℕ) (p : Rule Expr Action → Bool) (bs : Buckets (Rule Expr Action))
      (stack : List (Cnode (Rule Expr Action)))
      → PlacedBuckets f (n_buckets bs) 0 bs
      → count_all p (push_found vs bs stack)
        ≡ count_values f vs p (all_bucket_rules bs) + count_all p stack
  unfolding push_found
  push_found-count f [] p bs stack h = omega arith
  push_found-count f (v ∷ vs) p bs stack h =
      let i = get_bucket v (n_buckets bs) in
      let here = count-buckets f v (n_buckets bs) 0 i p bs h (omega arith) in
      elim (Option-cases (child_of v (chain_at i bs))) [
        | inl e ↦ ground (arith, e, here, push_found-count f vs p bs stack h)
        | inr (t, e) ↦ ground (arith, e, here, push_found-count f vs p bs (t ∷ stack) h)
      ]

  -- The children that are pushed hold all rules with the property.
  pub push_children-count :
      (f : ℕ) (vs : List ℕ) (p : Rule Expr Action → Bool) (bs : Buckets (Rule Expr Action))
      (stack : List (Cnode (Rule Expr Action)))
      → PlacedBuckets f (n_buckets bs) 0 bs
      → Distinct vs
      → Agrees f vs p
      → count_all p (push_children vs bs stack) ≡ count p (all_bucket_rules bs) + count_all p stack
  unfolding push_children
  push_children-count f [] p bs stack h d a = push_buckets-count p bs stack
  push_children-count f (v ∷ vs) p bs stack h d a = omega (
    arith,
    push_found-count f (v ∷ vs) p bs stack h,
    count-by_value f (v ∷ vs) p (all_bucket_rules bs) d a (buckets-valued f (n_buckets bs) 0 bs h),
  )
