-- ===== src/Classifier/Chosen.antt =====
-- The loop of the iterator's next chooses a rule of the least priority (include/cnode-result.hh).
use nox13_interserver.Common.{
  ℕ, zero, suc, ◌+◌, ◌≤◌, Bool, true, false, ◌||◌, Option, none, some, List, [], ◌∷◌, ◌≡◌, refl, ap,
  ◌∙◌, subst, arith, All, ◌⊎◌, Bool-cases, inl, inr,
}
use nox13_interserver.Classifier.{Rule}
use nox13_interserver.Classifier.Counts.{count-none}
use nox13_interserver.Classifier.Placed.{Sorted}
use nox13_interserver.Classifier.Traversal.{Query, Applies}
use nox13_interserver.Classifier.Results.{
  Current, advanced, remaining, weight, passing, is_better, scan,
}
use nox13_interserver.Classifier.Entries.{
  count_entries, weight-advanced, All-last_first, count-entry,
}

module _ {Expr Action : Type 0} where
  abbrev AtMost : Option (Rule Expr Action × ℕ) → Rule Expr Action → Type 0
  AtMost none m = Unit
  AtMost (some (b, i)) m = m.priority ≤ b.priority

  AtMost-trans :
      (best : Option (Rule Expr Action × ℕ)) (r m : Rule Expr Action)
      → is_better best r ≡ true
      → m.priority ≤ r.priority
      → AtMost best m
  AtMost-trans none r m e h = tt
  AtMost-trans (some (b, i)) r m e h = ground arith

module _ {Expr Action Data : Type 0} ⦃q : Query Expr Data⦄ where
  abbrev pub applies : Data → Rule Expr Action → Bool
  applies d r = q.matches r.id r.expr d

  -- The rules are sorted, and ismatch is set of a rule only that applies.
  abbrev pub Valid : Data → Current (Rule Expr Action) → Type 0
  Valid d c = Sorted (remaining c) × (c.ismatch ≡ true → applies d c.rule ≡ true)

  pub advanced-Valid :
      (d : Data) (rs : List (Rule Expr Action)) (cs : List (Current (Rule Expr Action)))
      → Sorted rs
      → All (Valid d) cs
      → All (Valid d) (advanced rs cs)
  unfolding advanced
  advanced-Valid d [] cs s h = All-last_first (Valid d) cs h
  advanced-Valid d (r ∷ rs) cs s h = ((s, λ e. cc), h)

  -- Entry k stands on the rule, which applies.
  abbrev pub Stands : Data → Rule Expr Action → ℕ → List (Current (Rule Expr Action)) → Type 0
  Stands d m k [] = ⊥
  Stands d m zero (c ∷ cs) = (c.rule ≡ m) × (applies d m ≡ true)
  Stands d m (suc k) (c ∷ cs) = Stands d m k cs

  -- What the loop from entry i on has chosen: none if there was none and is none, else a rule of
  -- the least priority, which it had or on which an entry from i on stands.
  abbrev pub Chosen :
      Data
      → ℕ
      → Option (Rule Expr Action × ℕ)
      → Option (Rule Expr Action × ℕ)
      → List (Current (Rule Expr Action))
      → Type 0
  Chosen d i best none cs = (cs ≡ []) × (best ≡ none)
  Chosen d i best (some (m, j)) cs =
      All (λ c. m.priority ≤ c.rule.priority) cs
      × (AtMost best m × ((best ≡ some (m, j)) ⊎ ((k : ℕ) × ((j ≡ i + k) × Stands d m k cs))))

  Chosen-end : (d : Data) (i : ℕ) (best : Option (Rule Expr Action × ℕ)) → Chosen d i best best []
  Chosen-end d i none = (refl, refl)
  Chosen-end d i (some (m, j)) = (tt, (omega arith, inl refl))

  Chosen-pass :
      (d : Data) (i : ℕ) (best now : Option (Rule Expr Action × ℕ)) (c : Current (Rule Expr Action))
      (cs : List (Current (Rule Expr Action)))
      → is_better best c.rule ≡ false
      → Chosen d (i + 1) best now cs
      → Chosen d i best now (c ∷ cs)
  Chosen-pass d i none now c cs e h = cc
  Chosen-pass d i (some (b, n)) none c cs e h = cc
  Chosen-pass d i (some (b, n)) (some (m, j)) c cs e (least, (l, w)) = (
    (ground arith, least),
    (l, elim w [ inl g ↦ inl g | inr (k, (g, st)) ↦ inr (suc k, (omega arith, st)) ]),
  )

  taken_now :
      (d : Data) (i j : ℕ) (c : Current (Rule Expr Action)) (m : Rule Expr Action)
      → ◌≡◌ {A = Option (Rule Expr Action × ℕ)} (some (c.rule, i)) (some (m, j))
      → applies d c.rule ≡ true
      → (c.rule ≡ m) × (applies d m ≡ true)
  taken_now d i j c m e a =
      let same : c.rule ≡ m = cc in (same, subst (λ r. applies d r ≡ true) same a)

  Chosen-take :
      (d : Data) (i : ℕ) (best now : Option (Rule Expr Action × ℕ)) (c : Current (Rule Expr Action))
      (cs : List (Current (Rule Expr Action)))
      → is_better best c.rule ≡ true
      → applies d c.rule ≡ true
      → Chosen d (i + 1) (some (c.rule, i)) now cs
      → Chosen d i best now (c ∷ cs)
  Chosen-take d i best none c cs e a h = cc
  Chosen-take d i best (some (m, j)) c cs e a (least, (l, w)) = (
    (l, least),
    (
      AtMost-trans best c.rule m e l,
      elim w [
        | inl g ↦ inr (0, (ground arith, taken_now d i j c m g a))
        | inr (k, (g, st)) ↦ inr (suc k, (omega arith, st))
      ],
    ),
  )

  -- What holds of a loop that has ended: the rules dropped do not apply.
  abbrev pub Scanned :
      Data
      → ℕ
      → Option (Rule Expr Action × ℕ)
      → List (Current (Rule Expr Action))
      → Option (Rule Expr Action × ℕ)
      → List (Current (Rule Expr Action))
      → Type 0
  Scanned d i best cs now cs' =
      Chosen d i best now cs'
      × (All (Valid d) cs'
          × ((weight cs' ≤ weight cs)
              × ((p : Rule Expr Action → Bool)
                  → Applies p d
                  → count_entries p cs' ≡ count_entries p cs)))

  scan-passed :
      (fuel : ℕ) (d : Data) (i : ℕ) (best : Option (Rule Expr Action × ℕ))
      (c : Current (Rule Expr Action)) (cs : List (Current (Rule Expr Action)))
      → is_better best c.rule ≡ false
      → scan (suc fuel) d i best (c ∷ cs) ≡ passing c (scan fuel d (i + 1) best cs)
  unfolding scan
  scan-passed fuel d i best c cs e = rw (e, scan) refl

  scan-taken :
      (fuel : ℕ) (d : Data) (i : ℕ) (best : Option (Rule Expr Action × ℕ))
      (c : Current (Rule Expr Action)) (cs : List (Current (Rule Expr Action)))
      → is_better best c.rule ≡ true
      → (c.ismatch || applies d c.rule) ≡ true
      → scan (suc fuel) d i best (c ∷ cs)
        ≡ passing (record c { ismatch = true }) (scan fuel d (i + 1) (some (c.rule, i)) cs)
  unfolding scan
  scan-taken fuel d i best c cs e g = rw (e, scan, g) refl

  scan-dropped :
      (fuel : ℕ) (d : Data) (i : ℕ) (best : Option (Rule Expr Action × ℕ))
      (c : Current (Rule Expr Action)) (cs : List (Current (Rule Expr Action)))
      → is_better best c.rule ≡ true
      → (c.ismatch || applies d c.rule) ≡ false
      → scan (suc fuel) d i best (c ∷ cs) ≡ scan fuel d i best (advanced c.others cs)
  unfolding scan
  scan-dropped fuel d i best c cs e g = rw (e, scan, g) refl

  pub scan-Scanned :
      (fuel : ℕ) (d : Data) (i : ℕ) (best : Option (Rule Expr Action × ℕ))
      (cs : List (Current (Rule Expr Action)))
      → All (Valid d) cs
      → weight cs ≤ fuel
      → (now : Option (Rule Expr Action × ℕ)) × ((cs' : List (Current (Rule Expr Action))) × ((scan
                fuel d i best cs
              ≡ some (now, cs'))
            × Scanned d i best cs now cs'))
  unfolding scan
  scan-Scanned zero d i best [] h l =
      (best, ([], (refl, (Chosen-end d i best, (tt, (omega arith, λ p a. refl))))))
  scan-Scanned (suc fuel) d i best [] h l =
      (best, ([], (refl, (Chosen-end d i best, (tt, (omega arith, λ p a. refl))))))
  scan-Scanned zero d i best (c ∷ cs) h l = absurd (omega arith)
  scan-Scanned (suc fuel) d i best (c ∷ cs) ((s, v), h) l =
      elim (Bool-cases (is_better best c.rule)) [
        | inr e ↦
            let (now, (cs', (eq, (chosen, (valid, (w, same)))))) =
              scan-Scanned fuel d (i + 1) best cs h (omega arith) in
            (
              now,
              (
                c ∷ cs',
                (
                  scan-passed fuel d i best c cs e ∙ ap (passing c) eq,
                  (
                    Chosen-pass d i best now c cs' e chosen,
                    (((s, v), valid), (omega arith, λ p a. omega (arith, same p a))),
                  ),
                ),
              ),
            )
        | inl e ↦ elim (Bool-cases (c.ismatch || applies d c.rule)) [
          | inl g ↦
              let (now, (cs', (eq, (chosen, (valid, (w, same)))))) =
                scan-Scanned fuel d (i + 1) (some (c.rule, i)) cs h (omega arith) in
              let applied : applies d c.rule ≡ true = ground (arith, v) in
              let marked = record c { ismatch = true } in
              (
                now,
                (
                  marked ∷ cs',
                  (
                    scan-taken fuel d i best c cs e g ∙ ap (passing marked) eq,
                    (
                      Chosen-take d i best now marked cs' e applied chosen,
                      (((s, λ _. applied), valid), (omega arith, λ p a. omega (arith, same p a))),
                    ),
                  ),
                ),
              )
          | inr g ↦
              let after = advanced c.others cs in
              let smaller = weight-advanced c.others cs in
              let (now, (cs', (eq, (chosen, (valid, (w, same)))))) =
                scan-Scanned fuel d i best after (advanced-Valid d c.others cs s.1 h)
                  (omega (arith, smaller)) in
              (
                now,
                (
                  cs',
                  (
                    scan-dropped fuel d i best c cs e g ∙ eq,
                    (
                      chosen,
                      (
                        valid,
                        (
                          omega (arith, w, smaller),
                          λ p a.
                              let skipped : p c.rule ≡ false = ground (arith, a c.rule) in
                              omega (
                                arith,
                                same p a,
                                count-entry p c cs,
                                count-none p (c.rule ∷ []) (skipped, tt),
                              ),
                        ),
                      ),
                    ),
                  ),
                ),
              )
        ]
      ]
