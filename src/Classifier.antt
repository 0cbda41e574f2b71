-- ===== src/Classifier.antt =====
-- The packet classifier (include/classifier.hh, include/cnode.hh, include/rule.hh): the tree of
-- nodes, and the operations on the rules of one node. A null pointer is `nil` or `null`, a node's
-- bucket_mask is its number of buckets less 1. Exceptions for want of memory and the copies that
-- guard against them leave no trace, nor do the pointers from a rule to its node.
pub mod Building
pub mod Traversal
pub mod Results
pub mod Counts
pub mod Placed
pub mod Added
pub mod Rebuilt
pub mod Unbuilt
pub mod Cleaned
pub mod Found
pub mod Searched
pub mod Sized
pub mod Linear
pub mod Entries
pub mod Chosen
pub mod Ranked
pub mod Ids
pub mod Removed
pub mod Table
pub mod PacketExpr
use nox13_interserver.Common.{
  ℕ, zero, suc, ◌+◌, ◌*◌, ◌/◌, ◌%◌, ◌^◌, Bool, true, false, not, ◌&&◌, ◌||◌, Option, none, some,
  List, [], ◌∷◌, ◌++◌, ltb, leb, ◌==◌, if◌then◌else◌, length,
}

-- What the classifier asks of its template argument Expr. A path is the set of the fields split on,
-- as the bits of a number.
pub record SplitFields (Expr : Type 0) : Type 0 where
  pub num_fields : ℕ
  pub leaf_threshold : ℕ
  pub get_field : ℕ → Expr → Option ℕ
  pub splittable : ℕ → Expr → Bool

pub record Rule (Expr Action : Type 0) : Type 0 where
  pub id : ℕ
  pub priority : ℕ
  pub expr : Expr
  pub action : Action

-- A leaf has no buckets; the nodes of a bucket are chained by `next`.
mutual
  pub data Cnode (R : Type 0) : Type 0 where
    leaf : ℕ → List R → Cnode R
    split : ℕ → List R → ℕ → Buckets R → AnyNode R → Cnode R

  pub data Chain (R : Type 0) : Type 0 where
    nil : Chain R
    link : Cnode R → Chain R → Chain R

  pub data Buckets (R : Type 0) : Type 0 where
    no_more : Buckets R
    bucket : Chain R → Buckets R → Buckets R

  pub data AnyNode (R : Type 0) : Type 0 where
    null : AnyNode R
    any : Cnode R → AnyNode R

abbrev pub value_of : {R : Type 0} → Cnode R → ℕ
value_of (leaf v rs) = v
value_of (split v rs f bs a) = v

abbrev pub rules_at : {R : Type 0} → Cnode R → List R
rules_at (leaf v rs) = rs
rules_at (split v rs f bs a) = rs

-- path & MASKS[i], of the numbers below 32
abbrev pub has_bit : ℕ → ℕ → Bool
has_bit i path = ((path / 2 ^ i) % 2) == 1

-- path | MASKS[i]
abbrev pub with_bit : ℕ → ℕ → ℕ
with_bit i path = if has_bit i path then path else path + 2 ^ i

-- The mask keeps the remainder, since the number of buckets is a power of 2.
unfoldable pub get_bucket : ℕ → ℕ → ℕ
get_bucket value n_buckets = ((value * 2654435761) % 2 ^ 32) % n_buckets

abbrev pub n_buckets : {R : Type 0} → Buckets R → ℕ
n_buckets no_more = 0
n_buckets (bucket c bs) = suc (n_buckets bs)

-- `new Cnode*[n]`, all null
unfoldable pub empty_buckets : {R : Type 0} → ℕ → Buckets R
empty_buckets zero = no_more
empty_buckets (suc n) = bucket nil (empty_buckets n)

-- The first node of the value in a chain, which the loops over `child` find.
unfoldable pub child_of : {R : Type 0} → ℕ → Chain R → Option (Cnode R)
child_of v nil = none
child_of v (link t c) = if value_of t == v then some t else child_of v c

-- buckets[i]
unfoldable pub chain_at : {R : Type 0} → ℕ → Buckets R → Chain R
chain_at i no_more = nil
chain_at zero (bucket c bs) = c
chain_at (suc i) (bucket c bs) = chain_at i bs

module _ {Expr Action : Type 0} where
  unfoldable pub add_rule_to_list :
      Rule Expr Action → List (Rule Expr Action) → List (Rule Expr Action)
  add_rule_to_list r [] = r ∷ []
  add_rule_to_list r (q ∷ qs) =
      let rest = add_rule_to_list r qs in if leb r.priority q.priority then r ∷ q ∷ qs else q ∷ rest

  -- The first rule of the id, and those that it leaves.
  unfoldable pub taken :
      ℕ → List (Rule Expr Action) → Option (Rule Expr Action × List (Rule Expr Action))
  taken id [] = none
  taken id (q ∷ qs) =
      if q.id == id
      then some (q, qs)
      else elim (taken id qs) [ none ↦ none | some (r, rest) ↦ some (r, q ∷ rest) ]

  unfoldable pub change_rule_priority :
      ℕ → ℕ → List (Rule Expr Action) → List (Rule Expr Action) × Bool
  unfolding taken add_rule_to_list
  change_rule_priority id priority rs = elim (taken id rs) [
    | none ↦ (rs, false)
    | some (r, rest) ↦ (add_rule_to_list (record r { priority = priority }) rest, true)
  ]

  unfoldable pub remove_rule : ℕ → List (Rule Expr Action) → List (Rule Expr Action) × Bool
  remove_rule id [] = ([], false)
  remove_rule id (q ∷ qs) =
      let (rest, removed) = remove_rule id qs in
      if q.id == id then (qs, true) else (q ∷ rest, removed)

module _ {Expr Action : Type 0} ⦃o : SplitFields Expr⦄ where
  -- The node that a value without a child gets is a leaf, where a rule is added to the list.
  unfoldable mutual
    pub add_rule : Rule Expr Action → ℕ → Cnode (Rule Expr Action) → Cnode (Rule Expr Action)
    add_rule r path (leaf v rs) = leaf v (add_rule_to_list r rs)
    add_rule r path (split v rs f bs a) = elim (o.splittable path r.expr) [
      | false ↦ split v (add_rule_to_list r rs) f bs a
      | true ↦ elim (o.get_field f r.expr) [
        | none ↦ split v rs f bs (add_any r (with_bit f path) a)
        | some w ↦
            split v rs f (add_bucket r (with_bit f path) w (get_bucket w (n_buckets bs)) bs) a
      ]
    ]

    pub add_any : Rule Expr Action → ℕ → AnyNode (Rule Expr Action) → AnyNode (Rule Expr Action)
    add_any r path null = any (leaf 0 (add_rule_to_list r []))
    add_any r path (any t) = any (add_rule r path t)

    pub add_bucket :
        Rule Expr Action → ℕ → ℕ → ℕ → Buckets (Rule Expr Action) → Buckets (Rule Expr Action)
    add_bucket r path w i no_more = no_more
    add_bucket r path w zero (bucket c bs) =
        bucket
          (elim (child_of w c) [
            | none ↦ link (leaf w (add_rule_to_list r [])) c
            | some t ↦ add_child r path w c
          ])
          bs
    add_bucket r path w (suc i) (bucket c bs) = bucket c (add_bucket r path w i bs)

    pub add_child : Rule Expr Action → ℕ → ℕ → Chain (Rule Expr Action) → Chain (Rule Expr Action)
    add_child r path w nil = nil
    add_child r path w (link t c) = elim (value_of t == w) [
      | true ↦ link (add_rule r path t) c
      | false ↦ link t (add_child r path w c)
    ]

module _ {Expr Action : Type 0} where
  -- `remove_rule` of the node whose list holds the rule, which is the one that the rule's pointer is to:
  -- add_rule sets the pointer, and build and unbuild set it for the nodes that they make.
  unfoldable mutual
    pub remove_from : ℕ → Cnode (Rule Expr Action) → Cnode (Rule Expr Action) × Bool
    remove_from id (leaf v rs) = let (rs', removed) = remove_rule id rs in (leaf v rs', removed)
    remove_from id (split v rs f bs a) =
        let (rs', here) = remove_rule id rs in
        let (bs', below) = remove_from_buckets id bs in
        let (a', in_any) = remove_from_any id a in
        if here
        then (split v rs' f bs a, true)
        else if below
        then (split v rs f bs' a, true)
        else (split v rs f bs a', in_any)

    pub remove_from_any : ℕ → AnyNode (Rule Expr Action) → AnyNode (Rule Expr Action) × Bool
    remove_from_any id null = (null, false)
    remove_from_any id (any t) = let (t', removed) = remove_from id t in (any t', removed)

    pub remove_from_buckets : ℕ → Buckets (Rule Expr Action) → Buckets (Rule Expr Action) × Bool
    remove_from_buckets id no_more = (no_more, false)
    remove_from_buckets id (bucket c bs) =
        let (c', here) = remove_from_chain id c in
        let (bs', below) = remove_from_buckets id bs in
        if here then (bucket c' bs, true) else (bucket c bs', below)

    pub remove_from_chain : ℕ → Chain (Rule Expr Action) → Chain (Rule Expr Action) × Bool
    remove_from_chain id nil = (nil, false)
    remove_from_chain id (link t c) =
        let (t', here) = remove_from id t in
        let (c', below) = remove_from_chain id c in
        if here then (link t' c, true) else (link t c', below)
