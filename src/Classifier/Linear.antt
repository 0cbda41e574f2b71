-- ===== src/Classifier/Linear.antt =====
-- A search of the tree and a search of the list of all its rules (include/classifier.hh, get_rules).
use nox13_interserver.Common.{
  ℕ, zero, suc, ◌+◌, ◌≤◌, Bool, true, ◌||◌, some, List, [], ◌∷◌, ◌++◌, ◌≡◌, refl, subst, arith, All,
  length, Option-cases, inl, inr,
}
use nox13_interserver.Classifier.{
  SplitFields, Rule, Cnode, leaf, split, Chain, nil, link, Buckets, no_more, bucket, AnyNode, null,
  any, rules_at, get_bucket, n_buckets, child_of, chain_at,
}
use nox13_interserver.Classifier.Counts.{all_rules, count, count-none, count-split}
use nox13_interserver.Classifier.Placed.{Placed, PlacedAny, PlacedBuckets, PlacedChain, Sorted}
use nox13_interserver.Classifier.Traversal.{
  Query, push_any, push_found, push_chain, push_buckets, push_children, push, size, to_visit,
  traverse_all, get_rules, Applies,
}
use nox13_interserver.Classifier.Found.{count_all}
use nox13_interserver.Classifier.Searched.{
  Distinct, member, is_empty, push_any-count, push_children-count,
}
use nox13_interserver.Classifier.Sized.{size_all, push_any-size, push_children-size}

module _ {Expr Action : Type 0} ⦃o : SplitFields Expr⦄ where
  child-Placed :
      (f n k v : ℕ) (c : Chain (Rule Expr Action)) (t : Cnode (Rule Expr Action))
      → PlacedChain f n k c
      → child_of v c ≡ some t
      → Placed t
  unfolding Placed child_of
  child-Placed f n k v nil t h e = cc
  child-Placed f n k v (link u c) t ((_, h), _, hs) e = ground (arith, child-Placed f n k v c t hs)

  chain_at-Placed :
      (f n k i j : ℕ) (bs : Buckets (Rule Expr Action))
      → PlacedBuckets f n k bs
      → k + i ≡ j
      → PlacedChain f n j (chain_at i bs)
  unfolding Placed chain_at
  chain_at-Placed f n k i j no_more h e = tt
  chain_at-Placed f n k zero j (bucket c bs) (h, hs) e =
      let same : k ≡ j = omega arith in subst (λ k. PlacedChain f n k c) same h
  chain_at-Placed f n k (suc i) j (bucket c bs) (h, hs) e =
      chain_at-Placed f n (suc k) i j bs hs (omega arith)

  push_any-Placed :
      (a : AnyNode (Rule Expr Action)) (stack : List (Cnode (Rule Expr Action)))
      → PlacedAny a
      → All Placed stack
      → All Placed (push_any a stack)
  unfolding Placed push_any
  push_any-Placed null stack h hs = hs
  push_any-Placed (any t) stack h hs = (h, hs)

  push_chain-Placed :
      (f n k : ℕ) (c : Chain (Rule Expr Action)) (stack : List (Cnode (Rule Expr Action)))
      → PlacedChain f n k c
      → All Placed stack
      → All Placed (push_chain c stack)
  unfolding Placed push_chain
  push_chain-Placed f n k nil stack h hs = hs
  push_chain-Placed f n k (link t c) stack ((_, h), _, g) hs =
      push_chain-Placed f n k c (t ∷ stack) g (h, hs)

  push_buckets-Placed :
      (f n k : ℕ) (bs : Buckets (Rule Expr Action)) (stack : List (Cnode (Rule Expr Action)))
      → PlacedBuckets f n k bs
      → All Placed stack
      → All Placed (push_buckets bs stack)
  unfolding Placed push_buckets
  push_buckets-Placed f n k no_more stack h hs = hs
  push_buckets-Placed f n k (bucket c bs) stack (h, g) hs =
      push_buckets-Placed f n (suc k) bs (push_chain c stack) g
        (push_chain-Placed f n k c stack h hs)

  push_found-Placed :
      (f : ℕ) (vs : List ℕ) (bs : Buckets (Rule Expr Action))
      (stack : List (Cnode (Rule Expr Action)))
      → PlacedBuckets f (n_buckets bs) 0 bs
      → All Placed stack
      → All Placed (push_found vs bs stack)
  unfolding push_found
  push_found-Placed f [] bs stack h hs = hs
  push_found-Placed f (v ∷ vs) bs stack h hs =
      let i = get_bucket v (n_buckets bs) in
      elim (Option-cases (child_of v (chain_at i bs))) [
        | inl e ↦ rw e (push_found-Placed f vs bs stack h hs)
        | inr (t, e) ↦
            let found = chain_at-Placed f (n_buckets bs) 0 i i bs h (omega arith) in
            let placed = child-Placed f (n_buckets bs) i v (chain_at i bs) t found e in
            rw e (push_found-Placed f vs bs (t ∷ stack) h (placed, hs))
      ]

  push_children-Placed :
      (f : ℕ) (vs : List ℕ) (bs : Buckets (Rule Expr Action))
      (stack : List (Cnode (Rule Expr Action)))
      → PlacedBuckets f (n_buckets bs) 0 bs
      → All Placed stack
      → All Placed (push_children vs bs stack)
  unfolding push_children
  push_children-Placed f [] bs stack h hs = push_buckets-Placed f (n_buckets bs) 0 bs stack h hs
  push_children-Placed f (v ∷ vs) bs stack h hs = push_found-Placed f (v ∷ vs) bs stack h hs

abbrev pub count_lists : {R : Type 0} → (R → Bool) → List (List R) → ℕ
count_lists p [] = 0
count_lists p (rs ∷ ls) = count p rs + count_lists p ls

count_lists-append :
    {R : Type 0} (p : R → Bool) (ls : List (List R)) (rs : List R)
    → count_lists p (ls ++ rs ∷ []) ≡ count p rs + count_lists p ls
count_lists-append p [] rs = refl
count_lists-append p (l ∷ ls) rs = omega (arith, count_lists-append p ls rs)

push-count :
    {R : Type 0} (p : R → Bool) (rs : List R) (ls : List (List R))
    → count_lists p (push rs ls) ≡ count p rs + count_lists p ls
unfolding push
push-count p [] ls = omega (arith, count-none p [] tt)
push-count p (r ∷ rs) ls = count_lists-append p ls (r ∷ rs)

module _ {Expr Action : Type 0} where
  -- A list that is pushed has rules, in the order of their priorities.
  abbrev pub Listed : List (List (Rule Expr Action)) → Type 0
  Listed = All (λ rs. Sorted rs × (1 ≤ length rs))

  push-Listed :
      (rs : List (Rule Expr Action)) (ls : List (List (Rule Expr Action)))
      → Sorted rs
      → Listed ls
      → Listed (push rs ls)
  unfolding push
  push-Listed [] ls s h = h
  push-Listed (r ∷ rs) [] s h = ((s, omega arith), tt)
  push-Listed (r ∷ rs) (l ∷ ls) s (h, hs) = (h, push-Listed (r ∷ rs) ls s hs)

module _ {Expr Action : Type 0} ⦃o : SplitFields Expr⦄ where
  rules_at-Sorted : (t : Cnode (Rule Expr Action)) → Placed t → Sorted (rules_at t)
  unfolding Placed
  rules_at-Sorted (leaf v rs) h = h
  rules_at-Sorted (split v rs f bs a) h = h.0.0

-- What a search relies on: the values that the data have in a field differ, and, if there are any, a
-- rule that applies to the data and has a value in that field has one of them.
abbrev pub Consistent :
    (Expr Action : Type 0) {Data : Type 0} ⦃o : SplitFields Expr⦄ ⦃q : Query Expr Data⦄
    → Data
    → Type 0
Consistent Expr Action ⦃o⦄ ⦃q⦄ d =
    (f : ℕ)
    → Distinct (q.values f d)
      × ((r : Rule Expr Action) (w : ℕ)
          → q.matches r.id r.expr d ≡ true
          → o.get_field f r.expr ≡ some w
          → (is_empty (q.values f d) || member w (q.values f d)) ≡ true)

module _ {Expr Action Data : Type 0} ⦃o : SplitFields Expr⦄ ⦃q : Query Expr Data⦄ where
  to_visit-found :
      (d : Data) (t : Cnode (Rule Expr Action)) (stack : List (Cnode (Rule Expr Action)))
      → Consistent Expr Action d
      → Placed t
      → All Placed stack
      → All Placed (to_visit d t stack)
        × ((size_all (to_visit d t stack) + 1 ≤ size t + size_all stack)
            × ((p : Rule Expr Action → Bool)
                → Applies p d
                → count p (rules_at t) + count_all p (to_visit d t stack)
                  ≡ count p (all_rules t) + count_all p stack))
  unfolding to_visit Placed size
  to_visit-found d (leaf v rs) stack k h hs = (hs, (omega arith, λ p a. unfold all_rules in refl))
  to_visit-found d (split v rs f bs a) stack k ((s, l), (hb, ha)) hs =
      let later = push_any a stack in
      (
        push_children-Placed f (q.values f d) bs later hb (push_any-Placed a stack ha hs),
        (
          omega (arith, push_children-size (q.values f d) bs later (k f).0, push_any-size a stack),
          λ p ap. omega (
            arith,
            count-split p v rs f bs a,
            push_any-count p a stack,
            push_children-count f (q.values f d) p bs later hb (k f).0
                (λ r w e. (k f).1 r w (ap r e)),
          ),
        ),
      )

  traverse_all-found :
      (fuel : ℕ) (d : Data) (stack : List (Cnode (Rule Expr Action)))
      (lists : List (List (Rule Expr Action)))
      → Consistent Expr Action d
      → All Placed stack
      → size_all stack ≤ fuel
      → Listed lists
      → (found : List (List (Rule Expr Action))) × ((traverse_all fuel d stack lists ≡ some found)
          × (Listed found
              × ((p : Rule Expr Action → Bool)
                  → Applies p d
                  → count_lists p found ≡ count_lists p lists + count_all p stack)))
  unfolding traverse_all
  traverse_all-found zero d [] lists k h l g = (lists, (refl, (g, λ p a. omega arith)))
  traverse_all-found (suc fuel) d [] lists k h l g = (lists, (refl, (g, λ p a. omega arith)))
  traverse_all-found zero d (t ∷ stack) lists k (h, hs) l g =
      let smaller = (to_visit-found d t stack k h hs).1.0 in absurd (omega (arith, smaller))
  traverse_all-found (suc fuel) d (t ∷ stack) lists k (h, hs) l g =
      let (placed, (smaller, same)) = to_visit-found d t stack k h hs in
      let listed = push-Listed (rules_at t) lists (rules_at-Sorted t h) g in
      let (found, (e, (sorted, counted))) =
        traverse_all-found fuel d (to_visit d t stack) (push (rules_at t) lists) k placed
          (omega arith) listed in
      (
        found,
        (e, (sorted, λ p a. omega (arith, counted p a, same p a, push-count p (rules_at t) lists))),
      )

  -- Every search ends, and among the rules that it finds each rule that applies to the data stands as
  -- often as among all rules of the tree: for any property of rules that holds only of those that
  -- apply, both have as many with it. The lists found are sorted and none is empty.
  pub get_rules-linear_search :
      (d : Data) (root : Cnode (Rule Expr Action))
      → Consistent Expr Action d
      → Placed root
      → (found : List (List (Rule Expr Action))) × ((get_rules d root ≡ some found)
          × (Listed found
              × ((p : Rule Expr Action → Bool)
                  → Applies p d
                  → count_lists p found ≡ count p (all_rules root))))
  unfolding get_rules
  get_rules-linear_search d root k h =
      let (found, (e, (sorted, counted))) =
        traverse_all-found (size root) d (root ∷ []) [] k (h, tt) (omega arith) tt in
      (found, (e, (sorted, λ p a. omega (arith, counted p a))))
