-- ===== src/Classifier/Cleaned.antt =====
-- Cleaning deletes empty subtrees only (include/cnode.hh, clean).
use nox13_interserver.Common.{
  ℕ, suc, Bool, true, false, not, ◌&&◌, none, List, [], ◌∷◌, ◌==◌, ◌≡◌, refl, ◌∙◌, arith, length,
  if◌then◌else◌, if-both,
}
use nox13_interserver.Classifier.{
  SplitFields, Rule, Cnode, leaf, split, Chain, nil, link, Buckets, no_more, bucket, AnyNode, null,
  any, value_of, n_buckets, child_of,
}
use nox13_interserver.Classifier.Building.{clean, clean_any, clean_buckets, clean_chain}
use nox13_interserver.Classifier.Counts.{
  all_rules, all_any_rules, all_bucket_rules, all_chain_rules, count, count-none, count-split,
  count-bucket, count-link,
}
use nox13_interserver.Classifier.Placed.{has_value, Placed, PlacedAny, PlacedBuckets, PlacedChain}
use nox13_interserver.Classifier.Rebuilt.{SameRules}

module _ {Expr Action : Type 0} ⦃o : SplitFields Expr⦄ where
  -- Two lists have as many rules of each kind, and none if the first part is empty.
  abbrev Kept : Bool → List (Rule Expr Action) → List (Rule Expr Action) → Type 0
  Kept is_clean before after =
      (p : Rule Expr Action → Bool)
      → (count p after ≡ count p before) × (is_clean ≡ true → count p before ≡ 0)

  count-empty :
      (p : Rule Expr Action → Bool) (rs : List (Rule Expr Action))
      → (length rs == 0) ≡ true
      → count p rs ≡ 0
  unfolding count
  count-empty p [] e = refl
  count-empty p (r ∷ rs) e = absurd (ground arith)

  Kept-split :
      (v : ℕ) (rs : List (Rule Expr Action)) (f : ℕ) (bs bs' : Buckets (Rule Expr Action))
      (a a' : AnyNode (Rule Expr Action)) (b c : Bool)
      → Kept b (all_bucket_rules bs) (all_bucket_rules bs')
      → Kept c (all_any_rules a) (all_any_rules a')
      → Kept
          ((length rs == 0) && (b && c))
          (all_rules (split v rs f bs a))
          (all_rules (split v rs f bs' a'))
  Kept-split v rs f bs bs' a a' b c h g p =
      let now = count-split p v rs f bs a in
      let later = count-split p v rs f bs' a' in
      (
        omega (arith, now, later, (h p).0, (g p).0),
        λ e. ground (arith, now, count-empty p rs, (h p).1, (g p).1),
      )

  -- The node goes where it is clean.
  Kept-link :
      (b d : Bool) (t t' : Cnode (Rule Expr Action)) (c c' : Chain (Rule Expr Action))
      → Kept b (all_rules t) (all_rules t')
      → Kept d (all_chain_rules c) (all_chain_rules c')
      → Kept (b && d) (all_chain_rules (link t c)) (all_chain_rules (if b then c' else link t' c'))
  Kept-link true d t t' c c' h g p =
      let now = count-link p t c in
      (omega (arith, now, (h p).1 refl, (g p).0), λ e. omega (arith, now, (h p).1 refl, (g p).1 e))
  Kept-link false d t t' c c' h g p =
      let now = count-link p t c in
      (omega (arith, now, count-link p t' c', (h p).0, (g p).0), λ e. cc)

  Kept-any :
      (b : Bool) (t t' : Cnode (Rule Expr Action))
      → Kept b (all_rules t) (all_rules t')
      → Kept b (all_rules t) (all_any_rules (if b then null else any t'))
  unfolding all_rules count
  Kept-any true t t' h p = (omega (arith, (h p).1 refl), (h p).1)
  Kept-any false t t' h p = h p

  mutual
    unfolding clean Placed all_rules child_of

    clean-SameRules :
        (t : Cnode (Rule Expr Action))
        → Placed t
        → SameRules t (clean t).1 × Kept (clean t).0 (all_rules t) (all_rules (clean t).1)
    clean-SameRules (leaf v rs) h = ((refl, (h, λ p. refl)), λ p. (refl, count-empty p rs))
    clean-SameRules (split v rs f bs a) ((s, l), (hb, ha)) =
        let (gb, (nb, kb)) = clean_buckets-Kept f (n_buckets bs) 0 bs hb in
        let (ga, ka) = clean_any-Kept a ha in
        let kept =
          Kept-split v rs f bs (clean_buckets bs).1 a (clean_any a).1 (clean_buckets bs).0
            (clean_any a).0 kb ka in
        ((refl, (rw nb ((s, l), (gb, ga)), λ p. (kept p).0)), kept)

    clean_any-Kept :
        (a : AnyNode (Rule Expr Action))
        → PlacedAny a
        → PlacedAny (clean_any a).1
          × Kept (clean_any a).0 (all_any_rules a) (all_any_rules (clean_any a).1)
    clean_any-Kept null h = (tt, λ p. (refl, λ e. count-none p [] tt))
    clean_any-Kept (any t) h =
        let (same, kept) = clean-SameRules t h in
        (if-both PlacedAny (clean t).0 tt same.1.0, Kept-any (clean t).0 t (clean t).1 kept)

    clean_buckets-Kept :
        (f n k : ℕ) (bs : Buckets (Rule Expr Action))
        → PlacedBuckets f n k bs
        → PlacedBuckets f n k (clean_buckets bs).1
          × ((n_buckets (clean_buckets bs).1 ≡ n_buckets bs)
              × Kept
                  (clean_buckets bs).0
                  (all_bucket_rules bs)
                  (all_bucket_rules (clean_buckets bs).1))
    clean_buckets-Kept f n k no_more h = (tt, (refl, λ p. (refl, λ e. count-none p [] tt)))
    clean_buckets-Kept f n k (bucket c bs) (h, hs) =
        let (g, (_, kept)) = clean_chain-Kept f n k c h in
        let (gs, (sized, kepts)) = clean_buckets-Kept f n (suc k) bs hs in
        (
          (g, gs),
          (
            omega (arith, sized),
            λ p.
                let now = count-bucket p c bs in
                let later = count-bucket p (clean_chain c).1 (clean_buckets bs).1 in
                (
                  omega (arith, now, later, (kept p).0, (kepts p).0),
                  λ e. ground (arith, now, (kept p).1, (kepts p).1),
                ),
          ),
        )

    clean_chain-Kept :
        (f n k : ℕ) (c : Chain (Rule Expr Action))
        → PlacedChain f n k c
        → PlacedChain f n k (clean_chain c).1
          × (((v : ℕ) → child_of v c ≡ none → child_of v (clean_chain c).1 ≡ none)
              × Kept (clean_chain c).0 (all_chain_rules c) (all_chain_rules (clean_chain c).1))
    clean_chain-Kept f n k nil h = (tt, (λ v e. refl, λ p. (refl, λ e. count-none p [] tt)))
    clean_chain-Kept f n k (link t c) ((hk, h), (hb, hn), hs) =
        let ((v, (g, same)), kept) = clean-SameRules t h in
        let (gs, (others, kepts)) = clean_chain-Kept f n k c hs in
        let all_of_value = same (λ r. not (has_value f (value_of t) r)) ∙ hk in
        let placed : PlacedChain f n k (link (clean t).1 (clean_chain c).1) =
          rw v ((all_of_value, g), (hb, others (value_of t) hn), gs) in
        (
          if-both (PlacedChain f n k) (clean t).0 gs placed,
          (
            λ w e.
                let gone : child_of w (clean_chain c).1 ≡ none = others w (ground arith) in
                let linked : child_of w (link (clean t).1 (clean_chain c).1) ≡ none =
                  ground (arith, v, gone) in
                if-both (λ (c' : Chain (Rule Expr Action)). child_of w c' ≡ none) (clean t).0 gone
                  linked,
            Kept-link (clean t).0 (clean_chain c).0 t (clean t).1 c (clean_chain c).1 kept kepts,
          ),
        )

  -- Cleaning a tree that has its rules where they belong keeps the value of its root, each rule as
  -- often as it was in the tree, and that the rules are where they belong.
  pub clean_kept : (t : Cnode (Rule Expr Action)) → Placed t → SameRules t (clean t).1
  clean_kept t h = (clean-SameRules t h).0

  -- If cleaning a tree that has its rules where they belong reports that it is empty, it has no rule.
  pub clean_empty :
      (t : Cnode (Rule Expr Action)) (p : Rule Expr Action → Bool)
      → Placed t
      → (clean t).0 ≡ true
      → count p (all_rules t) ≡ 0
  clean_empty t p h e = ((clean-SameRules t h).1 p).1 e
