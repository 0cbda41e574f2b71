-- ===== src/Classifier/Building.antt =====
-- Splitting a leaf, merging a tree into a leaf and deleting empty subtrees (include/cnode.hh).
use nox13_interserver.Common.{
  ℕ, zero, suc, ◌+◌, ◌-◌, ◌*◌, ◌/◌, Bool, true, false, not, ◌&&◌, ◌||◌, none, some, List, [], ◌∷◌,
  ltb, leb, ◌==◌, if◌then◌else◌, length,
}
use nox13_interserver.Classifier.{
  SplitFields, Rule, Cnode, leaf, split, Chain, nil, link, Buckets, no_more, bucket, AnyNode, null,
  any, has_bit, with_bit, get_bucket, empty_buckets, add_rule,
}

-- `while (n_buckets < n) n_buckets <<= 1`, on fuel; n rounds are enough, since 2^n is not below n.
unfoldable pub doubled_until : ℕ → ℕ → ℕ → ℕ
doubled_until zero n n_buckets = n_buckets
doubled_until (suc fuel) n n_buckets =
    let next = doubled_until fuel n (n_buckets * 2) in if ltb n_buckets n then next else n_buckets

abbrev pub buckets_for : ℕ → ℕ
buckets_for n = doubled_until n n 1

-- tmp_buckets[bucket]
unfoldable pub is_marked : ℕ → List ℕ → Bool
is_marked i [] = false
is_marked i (j ∷ js) = (i == j) || is_marked i js

-- The counters of exp_rules_with_split.
pub record Tally : Type 0 where
  pub n_anys : ℕ
  pub n_def : ℕ
  pub n_distinct : ℕ
  pub marked : List ℕ

-- The best field so far, the rules expected with it and the buckets it fills.
pub record Best : Type 0 where
  pub field : ℕ
  pub min_rules : ℕ
  pub min_distinct : ℕ

module _ {Expr Action : Type 0} where
  -- list::merge, where the rule of this list goes first unless its priority is greater
  unfoldable pub merge_before :
      Rule Expr Action
      → (List (Rule Expr Action) → List (Rule Expr Action))
      → List (Rule Expr Action)
      → List (Rule Expr Action)
  merge_before x rest [] = x ∷ rest []
  merge_before x rest (y ∷ ys) =
      let later = merge_before x rest ys in
      if ltb y.priority x.priority then y ∷ later else x ∷ rest (y ∷ ys)

  unfoldable pub merge : List (Rule Expr Action) → List (Rule Expr Action) → List (Rule Expr Action)
  unfolding merge_before
  merge [] = λ ys. ys
  merge (x ∷ xs) = merge_before x (merge xs)

  -- add_node_rules, of the rules collected so far
  unfoldable mutual
    pub add_node_rules :
        List (Rule Expr Action) → Cnode (Rule Expr Action) → List (Rule Expr Action)
    add_node_rules acc (leaf v rs) = merge acc rs
    add_node_rules acc (split v rs f bs a) = add_any_rules (add_bucket_rules (merge acc rs) bs) a

    pub add_any_rules :
        List (Rule Expr Action) → AnyNode (Rule Expr Action) → List (Rule Expr Action)
    add_any_rules acc null = acc
    add_any_rules acc (any t) = add_node_rules acc t

    pub add_bucket_rules :
        List (Rule Expr Action) → Buckets (Rule Expr Action) → List (Rule Expr Action)
    add_bucket_rules acc no_more = acc
    add_bucket_rules acc (bucket c bs) = add_bucket_rules (add_chain_rules acc c) bs

    pub add_chain_rules :
        List (Rule Expr Action) → Chain (Rule Expr Action) → List (Rule Expr Action)
    add_chain_rules acc nil = acc
    add_chain_rules acc (link t c) = add_chain_rules (add_node_rules acc t) c

  unfoldable pub unbuild : Cnode (Rule Expr Action) → Cnode (Rule Expr Action)
  unfolding add_node_rules
  unbuild (leaf v rs) = leaf v rs
  unbuild (split v rs f bs a) = leaf v (add_node_rules [] (split v rs f bs a))

  abbrev is_empty : List (Rule Expr Action) → Bool
  is_empty rs = length rs == 0

  -- clean, with what remains of the node
  unfoldable mutual
    pub clean : Cnode (Rule Expr Action) → Bool × Cnode (Rule Expr Action)
    clean (leaf v rs) = (is_empty rs, leaf v rs)
    clean (split v rs f bs a) =
        let (bs_clean, bs') = clean_buckets bs in
        let (a_clean, a') = clean_any a in
        (is_empty rs && (bs_clean && a_clean), split v rs f bs' a')

    pub clean_any : AnyNode (Rule Expr Action) → Bool × AnyNode (Rule Expr Action)
    clean_any null = (true, null)
    clean_any (any t) =
        let (is_clean, t') = clean t in (is_clean, if is_clean then null else any t')

    pub clean_buckets : Buckets (Rule Expr Action) → Bool × Buckets (Rule Expr Action)
    clean_buckets no_more = (true, no_more)
    clean_buckets (bucket c bs) =
        let (c_clean, c') = clean_chain c in
        let (bs_clean, bs') = clean_buckets bs in (c_clean && bs_clean, bucket c' bs')

    pub clean_chain : Chain (Rule Expr Action) → Bool × Chain (Rule Expr Action)
    clean_chain nil = (true, nil)
    clean_chain (link t c) =
        let (is_clean, t') = clean t in
        let (c_clean, c') = clean_chain c in
        (is_clean && c_clean, if is_clean then c' else link t' c')

module _ {Expr Action : Type 0} ⦃o : SplitFields Expr⦄ where
  -- One round of the loop of exp_rules_with_split.
  unfoldable pub tally_rule : ℕ → ℕ → Rule Expr Action → Tally → Tally
  unfolding is_marked get_bucket
  tally_rule field n_buckets r c = elim (o.get_field field r.expr) [
    | none ↦ record c { n_anys = c.n_anys + 1 }
    | some v ↦
        let defined = record c { n_def = c.n_def + 1 } in
        let b = get_bucket v n_buckets in
        if is_marked b c.marked
        then defined
        else record defined { n_distinct = c.n_distinct + 1; marked = b ∷ c.marked }
  ]

  unfoldable pub tally_rules : ℕ → ℕ → List (Rule Expr Action) → Tally → Tally
  unfolding tally_rule
  tally_rules field n_buckets [] c = c
  tally_rules field n_buckets (r ∷ rs) c =
      tally_rules field n_buckets rs (tally_rule field n_buckets r c)

  -- The rules expected, and n_distinct.
  unfoldable pub exp_rules_with_split : ℕ → ℕ → List (Rule Expr Action) → ℕ × ℕ
  unfolding tally_rules
  exp_rules_with_split field n_buckets rs =
      let c =
        tally_rules field n_buckets rs
          (record { n_anys = 0; n_def = 0; n_distinct = 0; marked = [] }) in
      (if c.n_distinct == 0 then c.n_anys else c.n_anys + c.n_def / c.n_distinct, c.n_distinct)

  -- The rounds of best_split from field i on; `todo` counts them.
  unfoldable pub best_of : ℕ → ℕ → ℕ → List (Rule Expr Action) → Best → Best
  unfolding exp_rules_with_split
  best_of zero i path rs b = b
  best_of (suc todo) i path rs b =
      let (exp, n_distinct) = exp_rules_with_split i (buckets_for (length rs * 3)) rs in
      let better : Best = record { field = i; min_rules = exp; min_distinct = n_distinct } in
      let is_better = (b.field == o.num_fields) || ltb exp b.min_rules in
      best_of todo (i + 1) path rs (if not (has_bit i path) && is_better then better else b)

  unfoldable pub best_split : ℕ → List (Rule Expr Action) → Best
  unfolding best_of
  best_split path rs =
      best_of o.num_fields 0 path rs
        (record { field = o.num_fields; min_rules = 0; min_distinct = 0 })

  -- Adds the rules in their order.
  unfoldable pub add_rules :
      List (Rule Expr Action) → ℕ → Cnode (Rule Expr Action) → Cnode (Rule Expr Action)
  add_rules [] path t = t
  add_rules (r ∷ rs) path t = add_rules rs path (add_rule r path t)

  -- split of a leaf, which is where build calls it
  unfoldable pub split_leaf : ℕ → ℕ → List (Rule Expr Action) → Cnode (Rule Expr Action)
  unfolding best_split add_rules empty_buckets doubled_until
  split_leaf path v rs =
      let b = best_split path rs in
      if (b.field == o.num_fields) || ltb (length rs - b.min_rules) o.leaf_threshold
      then leaf v rs
      else add_rules rs path
          (split v [] b.field (empty_buckets (buckets_for (b.min_distinct * 3))) null)

module _ {R : Type 0} (build_child : Cnode R → Cnode R) where
  unfoldable pub build_chain : Chain R → Chain R
  build_chain nil = nil
  build_chain (link t c) = link (build_child t) (build_chain c)

  unfoldable pub build_buckets : Buckets R → Buckets R
  unfolding build_chain
  build_buckets no_more = no_more
  build_buckets (bucket c bs) = bucket (build_chain c) (build_buckets bs)

  unfoldable pub build_any : AnyNode R → AnyNode R
  build_any null = null
  build_any (any t) = any (build_child t)

  -- The children of a node, and the node itself if it is a leaf.
  unfoldable pub build_children : Cnode R → Cnode R
  unfolding build_buckets build_any
  build_children (leaf v rs) = leaf v rs
  build_children (split v rs f bs a) = split v rs f (build_buckets bs) (build_any a)

module _ {Expr Action : Type 0} ⦃o : SplitFields Expr⦄ where
  -- The path below a node.
  abbrev pub path_below : ℕ → Cnode (Rule Expr Action) → ℕ
  path_below path (leaf v rs) = path
  path_below path (split v rs f bs a) = with_bit f path

  abbrev pub split_if_leaf : ℕ → Cnode (Rule Expr Action) → Cnode (Rule Expr Action)
  split_if_leaf path (leaf v rs) =
      if leb (length rs) o.leaf_threshold then leaf v rs else split_leaf path v rs
  split_if_leaf path (split v rs f bs a) = split v rs f bs a

  -- On fuel, which bounds the depth of the tree that is built.
  unfoldable pub build : ℕ → ℕ → Cnode (Rule Expr Action) → Cnode (Rule Expr Action)
  unfolding split_leaf build_children
  build zero path t = t
  build (suc fuel) path t =
      let new_this = split_if_leaf path t in
      build_children (build fuel (path_below path new_this)) new_this
