-- ===== src/Classifier/Traversal.antt =====
-- The rules that may apply to some data: Cnode::traverse and Classifier::get_rules
-- (include/cnode.hh, include/classifier.hh). The vector of nodes to traverse is a list whose head is
-- the vector's back.
use nox13_interserver.Common.{
  ℕ, zero, suc, ◌+◌, Bool, true, ◌≡◌, Option, none, some, List, [], ◌∷◌, ◌++◌,
}
use nox13_interserver.Classifier.{
  Rule, Cnode, leaf, split, Chain, nil, link, Buckets, no_more, bucket, AnyNode, null, any,
  rules_at, get_bucket, n_buckets, child_of, chain_at,
}

-- What the classifier asks of its template argument Data: the values of a field, those that
-- `get_field` gives for the indices from 0 on until it fails, and whether a rule applies.
pub record Query (Expr Data : Type 0) : Type 0 where
  pub values : ℕ → Data → List ℕ
  pub matches : ℕ → Expr → Data → Bool

module _ {R : Type 0} where
  unfoldable pub push_any : AnyNode R → List (Cnode R) → List (Cnode R)
  push_any null stack = stack
  push_any (any t) stack = t ∷ stack

  -- The loop over the values: the child of each value, if there is one.
  unfoldable pub push_found : List ℕ → Buckets R → List (Cnode R) → List (Cnode R)
  unfolding child_of chain_at get_bucket
  push_found [] bs stack = stack
  push_found (v ∷ vs) bs stack =
      push_found vs bs (elim (child_of v (chain_at (get_bucket v (n_buckets bs)) bs)) [
        | none ↦ stack
        | some t ↦ t ∷ stack
      ])

  unfoldable pub push_chain : Chain R → List (Cnode R) → List (Cnode R)
  push_chain nil stack = stack
  push_chain (link t c) stack = push_chain c (t ∷ stack)

  -- The loop over all children, where the data have no value.
  unfoldable pub push_buckets : Buckets R → List (Cnode R) → List (Cnode R)
  unfolding push_chain
  push_buckets no_more stack = stack
  push_buckets (bucket c bs) stack = push_buckets bs (push_chain c stack)

  unfoldable pub push_children : List ℕ → Buckets R → List (Cnode R) → List (Cnode R)
  unfolding push_found push_buckets
  push_children [] bs stack = push_buckets bs stack
  push_children (v ∷ vs) bs stack = push_found (v ∷ vs) bs stack

  -- Cnode_result::push, of the lists so far
  unfoldable pub push : List R → List (List R) → List (List R)
  push [] lists = lists
  push (r ∷ rs) lists = lists ++ (r ∷ rs) ∷ []

  -- The number of nodes of a tree.
  unfoldable mutual
    pub size : Cnode R → ℕ
    size (leaf v rs) = 1
    size (split v rs f bs a) = suc (size_buckets bs + size_any a)

    pub size_any : AnyNode R → ℕ
    size_any null = 0
    size_any (any t) = size t

    pub size_buckets : Buckets R → ℕ
    size_buckets no_more = 0
    size_buckets (bucket c bs) = size_chain c + size_buckets bs

    pub size_chain : Chain R → ℕ
    size_chain nil = 0
    size_chain (link t c) = size t + size_chain c

module _ {Expr Action Data : Type 0} ⦃q : Query Expr Data⦄ where
  -- traverse, without its push of the rules
  unfoldable pub to_visit :
      Data
      → Cnode (Rule Expr Action)
      → List (Cnode (Rule Expr Action))
      → List (Cnode (Rule Expr Action))
  unfolding push_children push_any
  to_visit d (leaf v rs) stack = stack
  to_visit d (split v rs f bs a) stack = push_children (q.values f d) bs (push_any a stack)

  -- The loop of get_rules, on fuel.
  unfoldable pub traverse_all :
      ℕ
      → Data
      → List (Cnode (Rule Expr Action))
      → List (List (Rule Expr Action))
      → Option (List (List (Rule Expr Action)))
  unfolding to_visit push
  traverse_all fuel d [] lists = some lists
  traverse_all zero d (t ∷ stack) lists = none
  traverse_all (suc fuel) d (t ∷ stack) lists =
      traverse_all fuel d (to_visit d t stack) (push (rules_at t) lists)

  -- Each node is traversed at most once, so the fuel is the number of nodes.
  unfoldable pub get_rules :
      Data → Cnode (Rule Expr Action) → Option (List (List (Rule Expr Action)))
  unfolding traverse_all size
  get_rules d root = traverse_all (size root) d (root ∷ []) []

  -- The property holds only of rules that apply.
  abbrev pub Applies : (Rule Expr Action → Bool) → Data → Type 0
  Applies p d = (r : Rule Expr Action) → p r ≡ true → q.matches r.id r.expr d ≡ true
