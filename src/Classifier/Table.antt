-- ===== src/Classifier/Table.antt =====
-- The classifier (include/classifier.hh): a tree of nodes and the rules by their ids.
pub mod Keyed
pub mod Kept
use nox13_interserver.Common.{
  ℕ, suc, ◌+◌, Bool, true, false, Option, none, some, List, [], ◌∷◌, ◌==◌, if◌then◌else◌,
}
use nox13_interserver.Classifier.{SplitFields, Rule, Cnode, leaf, add_rule, remove_from}
use nox13_interserver.Classifier.Building.{build, unbuild, clean}
use nox13_interserver.Classifier.Traversal.{Query, size, get_rules}
use nox13_interserver.Classifier.Results.{weight, entries, all_next}
use nox13_interserver.Classifier.Ids.{is_used, max_id, get_id}

pub record Table (Expr Action : Type 0) : Type 0 where
  pub root : Cnode (Rule Expr Action)
  pub rules : List (ℕ × Rule Expr Action)
  pub id_counter : ℕ

-- rules.erase(id)
unfoldable pub erase : {R : Type 0} → ℕ → List (ℕ × R) → List (ℕ × R)
erase id [] = []
erase id ((j, r) ∷ m) = let rest = erase id m in if j == id then m else (j, r) ∷ rest

-- What a client asks of it.
pub data Request (Expr Action : Type 0) : Type 0 where
  adds : ℕ → Expr → Action → Request Expr Action
  deletes : ℕ → Request Expr Action
  builds unbuilds cleans resets : Request Expr Action

module _ {Expr Action : Type 0} where
  -- Classifier::Classifier() and reset()
  abbrev pub new_table : Table Expr Action
  new_table = record { root = leaf 0 []; rules = []; id_counter = 1 }

  -- Whether there was a rule of the id.
  unfoldable pub delete_rule : ℕ → Table Expr Action → Table Expr Action × Bool
  unfolding remove_from erase
  delete_rule id t = elim (is_used id t.rules) [
    | true ↦ (record t { root = (remove_from id t.root).0; rules = erase id t.rules }, true)
    | false ↦ (t, false)
  ]

module _ {Expr Action : Type 0} ⦃o : SplitFields Expr⦄ where
  -- Classifier::add_rule: the id of the rule, or none where no id is left, which is an exception. The
  -- id is not in the map, so that the insertion does not fail.
  unfoldable pub insert_rule : ℕ → Expr → Action → Table Expr Action → Table Expr Action × Option ℕ
  unfolding get_id add_rule
  insert_rule priority e action t = elim (get_id t.rules t.id_counter) [
    | none ↦ (record t { id_counter = max_id }, none)
    | some (id, counter) ↦
        let r : Rule Expr Action = record {
          id = id;
          priority = priority;
          expr = e;
          action = action;
        } in
        (
          record { root = add_rule r 0 t.root; rules = (id, r) ∷ t.rules; id_counter = counter },
          some id,
        )
  ]

  -- A path from the root has at most as many nodes as the tree, and one more for each field at most
  -- once a leaf is split.
  unfoldable pub build_table : Table Expr Action → Table Expr Action
  unfolding build
  build_table t = record t { root = build (size t.root + (o.num_fields + 1)) 0 t.root }

  unfoldable pub unbuild_table : Table Expr Action → Table Expr Action
  unfolding unbuild
  unbuild_table t = record t { root = unbuild t.root }

  unfoldable pub clean_table : Table Expr Action → Table Expr Action
  unfolding clean
  clean_table t = record t { root = (clean t.root).1 }

  unfoldable pub serve : Request Expr Action → Table Expr Action → Table Expr Action
  unfolding insert_rule delete_rule build_table unbuild_table clean_table
  serve (adds priority e action) t = (insert_rule priority e action t).0
  serve (deletes id) t = (delete_rule id t).0
  serve builds t = build_table t
  serve unbuilds t = unbuild_table t
  serve cleans t = clean_table t
  serve resets t = new_table

  abbrev pub serve_all : List (Request Expr Action) → Table Expr Action → Table Expr Action
  serve_all [] t = t
  serve_all (r ∷ rs) t = serve_all rs (serve r t)

module _ {Expr Action Data : Type 0} ⦃q : Query Expr Data⦄ where
  -- get_rules, and then next until it gives NULL, each of whose calls takes a rule.
  unfoldable pub search : Data → Cnode (Rule Expr Action) → Option (List (Rule Expr Action))
  unfolding get_rules entries all_next
  search d root = elim (get_rules d root) [
    | none ↦ none
    | some lists ↦ all_next (suc (weight (entries lists))) d (entries lists)
  ]
