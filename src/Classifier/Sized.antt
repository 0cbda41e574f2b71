-- ===== src/Classifier/Sized.antt =====
-- A search visits no node twice (include/cnode.hh, traverse).
use nox13_interserver.Common.{
  ℕ, zero, suc, ◌+◌, ◌≤◌, false, some, List, [], ◌∷◌, ◌==◌, if◌then◌else◌, ◌≡◌, refl, arith,
  Bool-cases, Option-cases, inl, inr,
}
use nox13_interserver.Classifier.{
  Cnode, Chain, nil, link, Buckets, no_more, bucket, AnyNode, null, any, value_of, get_bucket,
  n_buckets, child_of, chain_at,
}
use nox13_interserver.Classifier.Traversal.{
  push_any, push_found, push_chain, push_buckets, push_children, size, size_any, size_buckets,
  size_chain,
}
use nox13_interserver.Classifier.Searched.{member, Distinct}

module _ {R : Type 0} where
  abbrev pub size_all : List (Cnode R) → ℕ
  size_all [] = 0
  size_all (t ∷ ts) = size t + size_all ts

  -- The nodes of the children of one value.
  abbrev size_at : ℕ → Chain R → ℕ
  size_at v nil = 0
  size_at v (link t c) = (if value_of t == v then size t else 0) + size_at v c

  abbrev size_in : ℕ → Buckets R → ℕ
  size_in v no_more = 0
  size_in v (bucket c bs) = size_at v c + size_in v bs

  abbrev sum_at : List ℕ → Chain R → ℕ
  sum_at [] c = 0
  sum_at (v ∷ vs) c = size_at v c + sum_at vs c

  abbrev sum_in : List ℕ → Buckets R → ℕ
  sum_in [] bs = 0
  sum_in (v ∷ vs) bs = size_in v bs + sum_in vs bs

  sum_at-other :
      (vs : List ℕ) (t : Cnode R) (c : Chain R)
      → member (value_of t) vs ≡ false
      → sum_at vs (link t c) ≡ sum_at vs c
  sum_at-other [] t c h = refl
  sum_at-other (v ∷ vs) t c h = ground (arith, sum_at-other vs t c)

  sum_at-link :
      (vs : List ℕ) (t : Cnode R) (c : Chain R)
      → Distinct vs
      → sum_at vs (link t c) ≤ size t + sum_at vs c
  sum_at-link [] t c d = omega arith
  sum_at-link (v ∷ vs) t c (d, ds) = elim (Bool-cases (value_of t == v)) [
    | inl e ↦
        let same : value_of t ≡ v = ground arith in
        let others : member (value_of t) vs ≡ false = rw same d in
        rw e (omega (arith, sum_at-other vs t c others))
    | inr e ↦ rw e (omega (arith, sum_at-link vs t c ds))
  ]

  sum_at-le : (vs : List ℕ) (c : Chain R) → Distinct vs → sum_at vs c ≤ size_chain c
  unfolding size
  sum_at-le [] nil d = omega arith
  sum_at-le (v ∷ vs) nil (d, ds) = omega (arith, sum_at-le vs nil ds)
  sum_at-le vs (link t c) d = omega (arith, sum_at-link vs t c d, sum_at-le vs c d)

  sum_in-bucket :
      (vs : List ℕ) (c : Chain R) (bs : Buckets R)
      → sum_in vs (bucket c bs) ≡ sum_at vs c + sum_in vs bs
  sum_in-bucket [] c bs = omega arith
  sum_in-bucket (v ∷ vs) c bs = omega (arith, sum_in-bucket vs c bs)

  sum_in-le : (vs : List ℕ) (bs : Buckets R) → Distinct vs → sum_in vs bs ≤ size_buckets bs
  unfolding size
  sum_in-le [] no_more d = omega arith
  sum_in-le (v ∷ vs) no_more (d, ds) = omega (arith, sum_in-le vs no_more ds)
  sum_in-le vs (bucket c bs) d =
      omega (arith, sum_in-bucket vs c bs, sum_at-le vs c d, sum_in-le vs bs d)

  child-size_at : (v : ℕ) (c : Chain R) (t : Cnode R) → child_of v c ≡ some t → size t ≤ size_at v c
  unfolding child_of
  child-size_at v nil t e = cc
  child-size_at v (link u c) t e = elim (Bool-cases (value_of u == v)) [
    | inl g ↦ let same : u ≡ t = ground arith in rw (g, same) (omega arith)
    | inr g ↦ rw g (omega (arith, child-size_at v c t (ground arith)))
  ]

  child-size_in :
      (v i : ℕ) (bs : Buckets R) (t : Cnode R)
      → child_of v (chain_at i bs) ≡ some t
      → size t ≤ size_in v bs
  unfolding chain_at child_of
  child-size_in v i no_more t e = cc
  child-size_in v zero (bucket c bs) t e = omega (arith, child-size_at v c t e)
  child-size_in v (suc i) (bucket c bs) t e = omega (arith, child-size_in v i bs t e)

  pub push_any-size :
      (a : AnyNode R) (stack : List (Cnode R))
      → size_all (push_any a stack) ≡ size_any a + size_all stack
  unfolding push_any size
  push_any-size null stack = omega arith
  push_any-size (any t) stack = refl

  push_chain-size :
      (c : Chain R) (stack : List (Cnode R))
      → size_all (push_chain c stack) ≡ size_chain c + size_all stack
  unfolding push_chain size
  push_chain-size nil stack = omega arith
  push_chain-size (link t c) stack = omega (arith, push_chain-size c (t ∷ stack))

  push_buckets-size :
      (bs : Buckets R) (stack : List (Cnode R))
      → size_all (push_buckets bs stack) ≡ size_buckets bs + size_all stack
  unfolding push_buckets size
  push_buckets-size no_more stack = omega arith
  push_buckets-size (bucket c bs) stack =
      omega (arith, push_chain-size c stack, push_buckets-size bs (push_chain c stack))

  push_found-size :
      (vs : List ℕ) (bs : Buckets R) (stack : List (Cnode R))
      → size_all (push_found vs bs stack) ≤ sum_in vs bs + size_all stack
  unfolding push_found
  push_found-size [] bs stack = omega arith
  push_found-size (v ∷ vs) bs stack =
      let i = get_bucket v (n_buckets bs) in
      elim (Option-cases (child_of v (chain_at i bs))) [
        | inl e ↦ ground (arith, e, push_found-size vs bs stack)
        | inr (t, e) ↦
            ground (arith, e, child-size_in v i bs t e, push_found-size vs bs (t ∷ stack))
      ]

  pub push_children-size :
      (vs : List ℕ) (bs : Buckets R) (stack : List (Cnode R))
      → Distinct vs
      → size_all (push_children vs bs stack) ≤ size_buckets bs + size_all stack
  unfolding push_children
  push_children-size [] bs stack d = omega (arith, push_buckets-size bs stack)
  push_children-size (v ∷ vs) bs stack d =
      omega (arith, push_found-size (v ∷ vs) bs stack, sum_in-le (v ∷ vs) bs d)
