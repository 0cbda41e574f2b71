-- ===== src/Classifier/Table/Kept.antt =====
-- The classifier holds the same rules in its tree and in its map, and a search gives those that apply.
use nox13_interserver.Common.{
  ℕ, suc, ◌+◌, ◌≤◌, Bool, true, false, ◌&&◌, Option, some, List, [], ◌∷◌, ◌≡◌, refl, ◌∙◌, arith,
  All, Bool-cases, Option-cases, inl, inr,
}
use nox13_interserver.Classifier.{SplitFields, Rule, Cnode, remove_from}
use nox13_interserver.Classifier.Building.{build, unbuild, clean}
use nox13_interserver.Classifier.Counts.{all_rules, count, count-both}
use nox13_interserver.Classifier.Placed.{Placed, Sorted, count-add_rule}
use nox13_interserver.Classifier.Added.{Placed-add_rule}
use nox13_interserver.Classifier.Rebuilt.{build-SameRules, SameRules}
use nox13_interserver.Classifier.Unbuilt.{unbuild-SameRules}
use nox13_interserver.Classifier.Cleaned.{clean_kept}
use nox13_interserver.Classifier.Removed.{of_id, Taken, remove_from-kept}
use nox13_interserver.Classifier.Traversal.{Query, Applies, size}
use nox13_interserver.Classifier.Results.{weight, entries}
use nox13_interserver.Classifier.Linear.{Consistent, get_rules-linear_search}
use nox13_interserver.Classifier.Chosen.{applies}
use nox13_interserver.Classifier.Ranked.{all_next-Drained, count-entries, entries-Valid}
use nox13_interserver.Classifier.Ids.{is_used, max_id, get_id}
use nox13_interserver.Classifier.Table.{
  Table, erase, Request, adds, deletes, builds, unbuilds, cleans, resets, new_table, delete_rule,
  insert_rule, build_table, unbuild_table, clean_table, serve, serve_all, search,
}
use nox13_interserver.Classifier.Table.Keyed.{
  rules_of, Keyed, get_id-unused, erase-Keyed, erase-Taken,
}

module _ {Expr Action : Type 0} ⦃o : SplitFields Expr⦄ where
  -- The tree holds the rules of the map.
  abbrev pub Inv : Table Expr Action → Type 0
  Inv t =
      Placed t.root
      × (((p : Rule Expr Action → Bool) → count p (all_rules t.root) ≡ count p (rules_of t.rules))
          × (Keyed t.rules × ((1 ≤ t.id_counter) × (t.id_counter ≤ max_id))))

  pub new_table-Inv : Inv new_table
  new_table-Inv = unfold Placed all_rules in (tt, (λ p. refl, (tt, (omega arith, omega arith))))

  -- A change of the tree alone that keeps its rules.
  SameRules-Inv :
      (t : Table Expr Action) (u : Cnode (Rule Expr Action))
      → Inv t
      → SameRules t.root u
      → Inv (record t { root = u })
  SameRules-Inv t u (h, (same, rest)) (_, (g, c)) = (g, (λ p. c p ∙ same p, rest))

  insert_rule-Inv :
      (priority : ℕ) (e : Expr) (action : Action) (t : Table Expr Action)
      → Inv t
      → Inv (insert_rule priority e action t).0
  unfolding insert_rule count
  insert_rule-Inv priority e action t (h, (same, (k, (l, m)))) =
      elim (Option-cases (get_id t.rules t.id_counter)) [
        | inl eq ↦ rw (eq, insert_rule) (h, (same, (k, (omega arith, omega arith))))
        | inr ((id, after), eq) ↦
            let (unused, range) = get_id-unused t.rules t.id_counter id after eq l m in
            let r : Rule Expr Action = record {
              id = id;
              priority = priority;
              expr = e;
              action = action;
            } in
            rw (eq, insert_rule)
              (
                Placed-add_rule r 0 t.root h,
                (
                  λ p. ground (arith, same p, count-add_rule p r 0 t.root h),
                  ((refl, (unused, k)), range),
                ),
              )
      ]

  -- Of lists with the same rules, each loses the only rule of an id.
  removed-same :
      (id : ℕ) (b : Bool) (xs xs' ys ys' : List (Rule Expr Action)) (r : Rule Expr Action)
      → Taken id b xs xs'
      → ((p : Rule Expr Action → Bool) → count p xs ≡ count p ys)
      → of_id id r ≡ true
      → count (of_id id) ys' ≡ 0
      → ((p : Rule Expr Action → Bool) → count p ys ≡ count p (r ∷ []) + count p ys')
      → (p : Rule Expr Action → Bool) → count p xs' ≡ count p ys'
  unfolding count
  removed-same id false xs xs' ys ys' r (n, h) same i z sum p =
      absurd (ground (arith, n, same (of_id id), sum (of_id id)))
  removed-same id true xs xs' ys ys' r (q, (j, h)) same i z sum p =
      let both : Rule Expr Action → Bool = λ r. p r && of_id id r in
      let left : count (of_id id) xs' ≡ 0 =
        ground (arith, same (of_id id), sum (of_id id), h (of_id id)) in
      let none_left = count-both p (of_id id) xs' left in
      let none_there = count-both p (of_id id) ys' z in
      ground (arith, same p, sum p, h p, same both, sum both, h both, none_left, none_there)

  delete_rule-Inv : (id : ℕ) (t : Table Expr Action) → Inv t → Inv (delete_rule id t).0
  unfolding delete_rule
  delete_rule-Inv id t (h, (same, (k, range))) = elim (Bool-cases (is_used id t.rules)) [
    | inr e ↦ rw (e, delete_rule) (h, (same, (k, range)))
    | inl e ↦
        let (_, (placed, lost)) = remove_from-kept id t.root h in
        let (r, (i, (z, sum))) = erase-Taken id t.rules k e in
        let kept =
          removed-same id (remove_from id t.root).1 (all_rules t.root)
            (all_rules (remove_from id t.root).0) (rules_of t.rules) (rules_of (erase id t.rules)) r
            lost same i z sum in
        rw (e, delete_rule) (placed, (kept, (erase-Keyed id t.rules k, range)))
  ]

  serve-Inv : (r : Request Expr Action) (t : Table Expr Action) → Inv t → Inv (serve r t)
  unfolding serve build_table unbuild_table clean_table
  serve-Inv (adds priority e action) t h = insert_rule-Inv priority e action t h
  serve-Inv (deletes id) t h = delete_rule-Inv id t h
  serve-Inv builds t h =
      let fuel = size t.root + (o.num_fields + 1) in
      SameRules-Inv t (build fuel 0 t.root) h (build-SameRules fuel 0 t.root h.0)
  serve-Inv unbuilds t h = SameRules-Inv t (unbuild t.root) h (unbuild-SameRules t.root h.0).0
  serve-Inv cleans t h = SameRules-Inv t (clean t.root).1 h (clean_kept t.root h.0)
  serve-Inv resets t h = new_table-Inv

  pub serve_all-Inv :
      (rs : List (Request Expr Action)) (t : Table Expr Action) → Inv t → Inv (serve_all rs t)
  serve_all-Inv [] t h = h
  serve_all-Inv (r ∷ rs) t h = serve_all-Inv rs (serve r t) (serve-Inv r t h)

module _ {Expr Action Data : Type 0} ⦃o : SplitFields Expr⦄ ⦃q : Query Expr Data⦄ where
  count-applied :
      (d : Data) (p : Rule Expr Action → Bool) (ms : List (Rule Expr Action))
      → All (λ m. applies d m ≡ true) ms
      → count (λ r. p r && applies d r) ms ≡ count p ms
  unfolding count
  count-applied d p [] a = refl
  count-applied d p (m ∷ ms) (a, as_) = ground (arith, count-applied d p ms as_)

  -- What a search gives, of rules: those that apply to the data, in the order of their priorities, and
  -- each as often as it stands among the rules: of those that pass any test, as many.
  abbrev pub IsSearched : Data → List (Rule Expr Action) → Option (List (Rule Expr Action)) → Type 0
  IsSearched d rules given =
      (ms : List (Rule Expr Action)) × ((given ≡ some ms)
        × (Sorted ms
            × (All (λ m. applies d m ≡ true) ms
                × ((p : Rule Expr Action → Bool)
                    → count p ms ≡ count (λ r. p r && applies d r) rules))))

  -- A search of a tree ends, and gives the rules of the tree that apply to the data, in the order of
  -- their priorities and each as often as it stands in the tree, where the lists of the tree are
  -- sorted and its rules stand where they belong, and the data's values are consistent with the rules
  -- that apply to them.
  pub search-linear :
      (d : Data) (root : Cnode (Rule Expr Action))
      → Consistent Expr Action d
      → Placed root
      → IsSearched d (all_rules root) (search d root)
  unfolding search
  search-linear d root k h =
      let (lists, (e, (listed, found))) = get_rules-linear_search d root k h in
      let valid = entries-Valid d lists listed in
      let (ms, (g, (s, (a, same)))) =
        all_next-Drained (suc (weight (entries lists))) d (entries lists) valid (omega arith) in
      (
        ms,
        (
          rw (e, search) g,
          (
            s,
            (
              a,
              λ p.
                  let both : Rule Expr Action → Bool = λ r. p r && applies d r in
                  let ap : Applies both d = λ r e. ground (arith, e) in
                  omega (
                    arith,
                    count-applied d p ms a,
                    same both ap,
                    found both ap,
                    count-entries both lists,
                  ),
            ),
          ),
        ),
      )

  -- After any requests to a new classifier, of adding and deleting rules, building, unbuilding and
  -- cleaning the tree and resetting, a search ends and gives the rules of its map that apply to the
  -- data, in the order of their priorities, each once, where the data's values are consistent with
  -- the rules that apply to them; and the map holds each rule under its own id and no id twice.
  pub serve_all-search :
      (rs : List (Request Expr Action)) (d : Data)
      → Consistent Expr Action d
      → IsSearched d
          (rules_of (serve_all rs new_table).rules)
          (search d (serve_all rs new_table).root)
        × Keyed (serve_all rs new_table).rules
  serve_all-search rs d k =
      let (h, (same, (keyed, _))) = serve_all-Inv rs new_table new_table-Inv in
      let (ms, (e, (s, (a, found)))) = search-linear d (serve_all rs new_table).root k h in
      ((ms, (e, (s, (a, λ p. found p ∙ same (λ r. p r && applies d r))))), keyed)
