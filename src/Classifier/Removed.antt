-- ===== src/Classifier/Removed.antt =====
-- Removing a rule by its id (include/cnode.hh, remove_rule).
use nox13_interserver.Common.{
  ℕ, suc, ◌+◌, ◌≤◌, Bool, true, false, not, none, List, [], ◌∷◌, ◌==◌, if◌then◌else◌, ◌≡◌, refl,
  arith, All, Bool-cases, inl, inr,
}
use nox13_interserver.Classifier.{
  SplitFields, Rule, Cnode, leaf, split, Chain, nil, link, Buckets, no_more, bucket, AnyNode, null,
  any, value_of, n_buckets, child_of, remove_rule, remove_from, remove_from_any,
  remove_from_buckets, remove_from_chain,
}
use nox13_interserver.Classifier.Counts.{
  all_rules, all_any_rules, all_bucket_rules, all_chain_rules, count, count-none, count-split,
  count-bucket, count-link,
}
use nox13_interserver.Classifier.Placed.{
  has_value, Placed, PlacedAny, PlacedBuckets, PlacedChain, Sorted,
}

module _ {Expr Action : Type 0} where
  abbrev pub of_id : ℕ → Rule Expr Action → Bool
  of_id id r = r.id == id

  -- What removing an id does to a list of rules: either none has the id and the list keeps its rules,
  -- or one that has it is taken.
  abbrev pub Taken : ℕ → Bool → List (Rule Expr Action) → List (Rule Expr Action) → Type 0
  Taken id false before after =
      (count (of_id id) before ≡ 0)
      × ((p : Rule Expr Action → Bool) → count p after ≡ count p before)
  Taken id true before after =
      (r : Rule Expr Action) × ((of_id id r ≡ true)
        × ((p : Rule Expr Action → Bool) → count p before ≡ count p (r ∷ []) + count p after))

  remove_rule-cons :
      (id : ℕ) (r : Rule Expr Action) (rs rs' : List (Rule Expr Action)) (b : Bool)
      → of_id id r ≡ false
      → Taken id b rs rs'
      → Taken id b (r ∷ rs) (r ∷ rs')
  unfolding count
  remove_rule-cons id r rs rs' false e (n, h) = (ground arith, λ p. ground (arith, h p))
  remove_rule-cons id r rs rs' true e (q, (i, h)) = (q, (i, λ p. ground (arith, h p)))

  remove_rule-All :
      (k id : ℕ) (rs : List (Rule Expr Action))
      → All (λ q. k ≤ q.priority) rs
      → All (λ q. k ≤ q.priority) (remove_rule id rs).0
  unfolding remove_rule
  remove_rule-All k id [] h = tt
  remove_rule-All k id (r ∷ rs) (h, hs) = ground (arith, remove_rule-All k id rs hs)

  remove_rule-Taken :
      (id : ℕ) (rs : List (Rule Expr Action))
      → Sorted rs
      → Sorted (remove_rule id rs).0 × Taken id (remove_rule id rs).1 rs (remove_rule id rs).0
  unfolding remove_rule
  remove_rule-Taken id [] s = (tt, (count-none (of_id id) [] tt, λ p. refl))
  remove_rule-Taken id (r ∷ rs) (l, s) = elim (Bool-cases (r.id == id)) [
    | inl e ↦ rw e (s, (r, (e, λ p. unfold count in ground arith)))
    | inr e ↦
        let (s', t) = remove_rule-Taken id rs s in
        rw e (
          (remove_rule-All r.priority id rs l, s'),
          remove_rule-cons id r rs (remove_rule id rs).0 (remove_rule id rs).1 e t,
        )
  ]

  -- A list of which one part loses the rule, or nothing.
  Taken-part :
      (id : ℕ) (b : Bool) (xs xs' all all' : List (Rule Expr Action))
      (others : (Rule Expr Action → Bool) → ℕ)
      → ((p : Rule Expr Action → Bool) → count p all ≡ count p xs + others p)
      → ((p : Rule Expr Action → Bool) → count p all' ≡ count p xs' + others p)
      → (b ≡ false → others (of_id id) ≡ 0)
      → Taken id b xs xs'
      → Taken id b all all'
  Taken-part id true xs xs' all all' others sum sum' none_other (r, (e, h)) =
      (r, (e, λ p. omega (arith, sum p, sum' p, h p)))
  Taken-part id false xs xs' all all' others sum sum' none_other (n, h) =
      (omega (arith, sum (of_id id), n, none_other refl), λ p. omega (arith, sum p, sum' p, h p))

  Taken-zero :
      (id : ℕ) (b : Bool) (xs xs' : List (Rule Expr Action)) (p : Rule Expr Action → Bool)
      → Taken id b xs xs'
      → count p xs ≡ 0
      → count p xs' ≡ 0
  Taken-zero id true xs xs' p (r, (e, h)) z = omega (arith, h p)
  Taken-zero id false xs xs' p (n, h) z = omega (arith, h p)

module _ {Expr Action : Type 0} ⦃o : SplitFields Expr⦄ where
  abbrev pub Lost : ℕ → Cnode (Rule Expr Action) → Cnode (Rule Expr Action) × Bool → Type 0
  Lost id t (u, b) = (value_of u ≡ value_of t) × (Placed u × Taken id b (all_rules t) (all_rules u))

  abbrev LostAny : ℕ → AnyNode (Rule Expr Action) → AnyNode (Rule Expr Action) × Bool → Type 0
  LostAny id a (a', b) = PlacedAny a' × Taken id b (all_any_rules a) (all_any_rules a')

  abbrev LostBuckets :
      ℕ → ℕ → ℕ → ℕ → Buckets (Rule Expr Action) → Buckets (Rule Expr Action) × Bool → Type 0
  LostBuckets id f n k bs (bs', b) =
      PlacedBuckets f n k bs'
      × ((n_buckets bs' ≡ n_buckets bs) × Taken id b (all_bucket_rules bs) (all_bucket_rules bs'))

  abbrev LostChain :
      ℕ → ℕ → ℕ → ℕ → Chain (Rule Expr Action) → Chain (Rule Expr Action) × Bool → Type 0
  LostChain id f n k c (c', b) =
      PlacedChain f n k c'
      × (((v : ℕ) → child_of v c ≡ none → child_of v c' ≡ none)
          × Taken id b (all_chain_rules c) (all_chain_rules c'))

  split-Lost :
      (id v f : ℕ) (rs rs' : List (Rule Expr Action)) (bs bs' : Buckets (Rule Expr Action))
      (a a' : AnyNode (Rule Expr Action)) (b c e : Bool)
      → Placed (split v rs f bs a)
      → Sorted rs' × Taken id b rs rs'
      → LostBuckets id f (n_buckets bs) 0 bs (bs', c)
      → LostAny id a (a', e)
      → Lost id (split v rs f bs a) (
          if b
          then (split v rs' f bs a, true)
          else if c
          then (split v rs f bs' a, true)
          else (split v rs f bs a', e))
  unfolding Placed
  split-Lost id v f rs rs' bs bs' a a' true c e ((s, l), (hb, ha)) (s', t) (g, (w, u)) (y, z) = (
    refl,
    (
      ((s', l), (hb, ha)),
      Taken-part id true rs rs' (all_rules (split v rs f bs a)) (all_rules (split v rs' f bs a))
          (λ p. count p (all_bucket_rules bs) + count p (all_any_rules a))
          (λ p. count-split p v rs f bs a) (λ p. count-split p v rs' f bs a) (λ e. cc) t,
    ),
  )
  split-Lost id v f rs rs' bs bs' a a' false true e ((s, l), (hb, ha)) (s', t) (g, (w, u)) (y, z) =
      (
        refl,
        (
          rw w ((s, l), (g, ha)),
          Taken-part id true (all_bucket_rules bs) (all_bucket_rules bs')
              (all_rules (split v rs f bs a)) (all_rules (split v rs f bs' a))
              (λ p. count p rs + count p (all_any_rules a))
              (λ p. omega (arith, count-split p v rs f bs a))
              (λ p. omega (arith, count-split p v rs f bs' a)) (λ e. cc) u,
        ),
      )
  split-Lost id v f rs rs' bs bs' a a' false false e ((s, l), (hb, ha)) (s', t) (g, (w, u)) (y, z) =
      (
        refl,
        (
          ((s, l), (hb, y)),
          Taken-part id e (all_any_rules a) (all_any_rules a') (all_rules (split v rs f bs a))
              (all_rules (split v rs f bs a')) (λ p. count p rs + count p (all_bucket_rules bs))
              (λ p. omega (arith, count-split p v rs f bs a))
              (λ p. omega (arith, count-split p v rs f bs a')) (λ e. omega (arith, t.0, u.0)) z,
        ),
      )

  bucket-Lost :
      (id f n k : ℕ) (c c' : Chain (Rule Expr Action)) (bs bs' : Buckets (Rule Expr Action))
      (b e : Bool)
      → PlacedBuckets f n k (bucket c bs)
      → LostChain id f n k c (c', b)
      → LostBuckets id f n (suc k) bs (bs', e)
      → LostBuckets id f n k (bucket c bs) (if b then (bucket c' bs, true) else (bucket c bs', e))
  unfolding Placed
  bucket-Lost id f n k c c' bs bs' true e (h, hs) (g, (_, t)) (gs, (w, u)) = (
    (g, hs),
    (
      refl,
      Taken-part id true (all_chain_rules c) (all_chain_rules c') (all_bucket_rules (bucket c bs))
          (all_bucket_rules (bucket c' bs)) (λ p. count p (all_bucket_rules bs))
          (λ p. count-bucket p c bs) (λ p. count-bucket p c' bs) (λ e. cc) t,
    ),
  )
  bucket-Lost id f n k c c' bs bs' false e (h, hs) (g, (_, t)) (gs, (w, u)) = (
    (h, gs),
    (
      omega (arith, w),
      Taken-part id e (all_bucket_rules bs) (all_bucket_rules bs') (all_bucket_rules (bucket c bs))
          (all_bucket_rules (bucket c bs')) (λ p. count p (all_chain_rules c))
          (λ p. omega (arith, count-bucket p c bs)) (λ p. omega (arith, count-bucket p c bs'))
          (λ e. t.0) u,
    ),
  )

  link-Lost :
      (id f n k : ℕ) (t t' : Cnode (Rule Expr Action)) (c c' : Chain (Rule Expr Action))
      (b e : Bool)
      → PlacedChain f n k (link t c)
      → Lost id t (t', b)
      → LostChain id f n k c (c', e)
      → LostChain id f n k (link t c) (if b then (link t' c, true) else (link t c', e))
  unfolding Placed child_of
  link-Lost id f n k t t' c c' true e ((hk, h), (hb, hn), hs) (w, (g, u)) (gs, (others, us)) =
      let kept =
        Taken-zero id true (all_rules t) (all_rules t') (λ r. not (has_value f (value_of t) r)) u
          hk in
      (
        rw w ((kept, g), (hb, hn), hs),
        (
          λ v q. ground (arith, w),
          Taken-part id true (all_rules t) (all_rules t') (all_chain_rules (link t c))
              (all_chain_rules (link t' c)) (λ p. count p (all_chain_rules c))
              (λ p. count-link p t c) (λ p. count-link p t' c) (λ e. cc) u,
        ),
      )
  link-Lost id f n k t t' c c' false e ((hk, h), (hb, hn), hs) (w, (g, u)) (gs, (others, us)) = (
    ((hk, h), (hb, others (value_of t) hn), gs),
    (
      λ v q. ground (arith, others v),
      Taken-part id e (all_chain_rules c) (all_chain_rules c') (all_chain_rules (link t c))
          (all_chain_rules (link t c')) (λ p. count p (all_rules t))
          (λ p. omega (arith, count-link p t c)) (λ p. omega (arith, count-link p t c')) (λ e. u.0)
          us,
    ),
  )

  mutual
    unfolding remove_from Placed all_rules child_of

    remove_from-Lost :
        (id : ℕ) (t : Cnode (Rule Expr Action)) → Placed t → Lost id t (remove_from id t)
    remove_from-Lost id (leaf v rs) h = let (s, t) = remove_rule-Taken id rs h in (refl, (s, t))
    remove_from-Lost id (split v rs f bs a) ((s, l), (hb, ha)) =
        split-Lost id v f rs (remove_rule id rs).0 bs (remove_from_buckets id bs).0 a
          (remove_from_any id a).0 (remove_rule id rs).1 (remove_from_buckets id bs).1
          (remove_from_any id a).1 ((s, l), (hb, ha)) (remove_rule-Taken id rs s)
          (remove_from_buckets-Lost id f (n_buckets bs) 0 bs hb) (remove_from_any-Lost id a ha)

    remove_from_any-Lost :
        (id : ℕ) (a : AnyNode (Rule Expr Action))
        → PlacedAny a
        → LostAny id a (remove_from_any id a)
    remove_from_any-Lost id null h = (tt, (count-none (of_id id) [] tt, λ p. refl))
    remove_from_any-Lost id (any t) h = (remove_from-Lost id t h).1

    remove_from_buckets-Lost :
        (id f n k : ℕ) (bs : Buckets (Rule Expr Action))
        → PlacedBuckets f n k bs
        → LostBuckets id f n k bs (remove_from_buckets id bs)
    remove_from_buckets-Lost id f n k no_more h =
        (tt, (refl, (count-none (of_id id) [] tt, λ p. refl)))
    remove_from_buckets-Lost id f n k (bucket c bs) (h, hs) =
        bucket-Lost id f n k c (remove_from_chain id c).0 bs (remove_from_buckets id bs).0
          (remove_from_chain id c).1 (remove_from_buckets id bs).1 (h, hs)
          (remove_from_chain-Lost id f n k c h) (remove_from_buckets-Lost id f n (suc k) bs hs)

    remove_from_chain-Lost :
        (id f n k : ℕ) (c : Chain (Rule Expr Action))
        → PlacedChain f n k c
        → LostChain id f n k c (remove_from_chain id c)
    remove_from_chain-Lost id f n k nil h =
        (tt, (λ v e. refl, (count-none (of_id id) [] tt, λ p. refl)))
    remove_from_chain-Lost id f n k (link t c) ((hk, h), (hb, hn), hs) =
        link-Lost id f n k t (remove_from id t).0 c (remove_from_chain id c).0 (remove_from id t).1
          (remove_from_chain id c).1 ((hk, h), (hb, hn), hs) (remove_from-Lost id t h)
          (remove_from_chain-Lost id f n k c hs)

  -- Removing an id from a tree that has its rules where they belong keeps the value of its root and
  -- that the rules are where they belong. If a removal is reported, one rule of the id is taken and no
  -- other rule; if none is, no rule of the tree has the id and all rules are kept.
  pub remove_from-kept :
      (id : ℕ) (t : Cnode (Rule Expr Action)) → Placed t → Lost id t (remove_from id t)
  remove_from-kept id t h = remove_from-Lost id t h
