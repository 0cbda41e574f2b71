-- ===== src/Classifier/Ranked.antt =====
-- The iterator gives the rules in the order of their priorities (include/cnode-result.hh, next).
use nox13_interserver.Common.{
  ℕ, zero, suc, ◌+◌, ◌≤◌, ◌<◌, Bool, true, ◌&&◌, Option, none, some, List, [], ◌∷◌, ◌≡◌, refl, sym,
  subst, arith, All, ltb, inl, inr,
}
use nox13_interserver.Classifier.{Rule}
use nox13_interserver.Classifier.Counts.{count, count-none}
use nox13_interserver.Classifier.Placed.{Sorted}
use nox13_interserver.Classifier.Traversal.{Query, Applies}
use nox13_interserver.Classifier.Linear.{count_lists, Listed}
use nox13_interserver.Classifier.Results.{
  Current, advanced, advance_at, remaining, weight, entries, scan, next, all_next,
}
use nox13_interserver.Classifier.Entries.{
  count_entries, weight-advanced, count-entry, From, From-first, From-advance_at,
}
use nox13_interserver.Classifier.Chosen.{
  applies, Valid, Stands, Scanned, scan-Scanned, advanced-Valid,
}

module _ {Expr Action : Type 0} where
  pub count-entries :
      (p : Rule Expr Action → Bool) (ls : List (List (Rule Expr Action)))
      → count_entries p (entries ls) ≡ count_lists p ls
  unfolding entries
  count-entries p [] = refl
  count-entries p ([] ∷ ls) = omega (arith, count-none p [] tt, count-entries p ls)
  count-entries p ((r ∷ rs) ∷ ls) = omega (arith, count-entries p ls)

module _ {Expr Action Data : Type 0} ⦃q : Query Expr Data⦄ where
  -- The entry that is chosen goes on, which takes its rule and no other.
  advance_at-found :
      (d : Data) (m : Rule Expr Action) (k : ℕ) (cs : List (Current (Rule Expr Action)))
      → All (Valid d) cs
      → Stands d m k cs
      → (applies d m ≡ true)
        × (All (Valid d) (advance_at k cs)
            × ((weight cs ≡ suc (weight (advance_at k cs)))
                × ((p : Rule Expr Action → Bool)
                    → count_entries p cs ≡ count p (m ∷ []) + count_entries p (advance_at k cs))))
  unfolding advance_at
  advance_at-found d m k [] h st = absurd st
  advance_at-found d m zero (c ∷ cs) ((s, v), h) (e, a) = (
    a,
    (
      advanced-Valid d c.others cs s.1 h,
      (
        omega (arith, weight-advanced c.others cs),
        λ p.
            subst
              (λ r.
                count_entries p (c ∷ cs)
                ≡ count p (r ∷ []) + count_entries p (advanced c.others cs))
              e (count-entry p c cs),
      ),
    ),
  )
  advance_at-found d m (suc k) (c ∷ cs) (v, h) st =
      let (a, (valid, (w, same))) = advance_at-found d m k cs h st in
      (a, ((v, valid), (omega (arith, w), λ p. omega (arith, same p))))

  Sorted-entries :
      (d : Data) (cs : List (Current (Rule Expr Action)))
      → All (Valid d) cs
      → All (λ c. Sorted (remaining c)) cs
  Sorted-entries d [] h = tt
  Sorted-entries d (c ∷ cs) ((s, _), h) = (s, Sorted-entries d cs h)

  -- What a call of next does: either no rule that applies is left, or it gives one of the least
  -- priority, which is taken.
  abbrev Nexted :
      Data
      → List (Current (Rule Expr Action))
      → Option (Rule Expr Action)
      → List (Current (Rule Expr Action))
      → Type 0
  Nexted d cs none cs' = (p : Rule Expr Action → Bool) → Applies p d → count_entries p cs ≡ 0
  Nexted d cs (some m) cs' =
      (applies d m ≡ true)
      × (All (Valid d) cs'
          × ((weight cs' < weight cs)
              × (From m.priority cs'
                  × ((p : Rule Expr Action → Bool)
                      → Applies p d
                      → count_entries p cs ≡ count p (m ∷ []) + count_entries p cs'))))

  Nexted-chosen :
      (d : Data) (cs cs' : List (Current (Rule Expr Action))) (m : Rule Expr Action) (j : ℕ)
      → Scanned d 0 none cs (some (m, j)) cs'
      → Nexted d cs (some m) (advance_at j cs')
  Nexted-chosen d cs cs' m j ((least, (_, inl e)), _) = cc
  Nexted-chosen d cs cs' m j ((least, (_, inr (k, (e, st)))), (valid, (w, same))) =
      let at : j ≡ k = omega arith in
      let (a, (valid', (w', same'))) = advance_at-found d m k cs' valid st in
      let bound =
        From-advance_at m.priority k cs'
          (From-first m.priority cs' (Sorted-entries d cs' valid) least) in
      rw at (a, (valid', (omega arith, (bound, λ p ap. omega (arith, same p ap, same' p)))))

  next-Scanned :
      (d : Data) (cs cs' : List (Current (Rule Expr Action))) (now : Option (Rule Expr Action × ℕ))
      → scan (weight cs) d 0 none cs ≡ some (now, cs')
      → Scanned d 0 none cs now cs'
      → (m : Option (Rule Expr Action)) × ((after : List (Current (Rule Expr Action))) × ((next d cs
              ≡ some (m, after))
            × Nexted d cs m after))
  unfolding next
  next-Scanned d cs cs' none e ((empty, _), (_, (_, same))) = (
    none,
    (
      cs',
      (
        rw (e, next) refl,
        λ p a.
            let nothing = subst (λ cs'. count_entries p cs' ≡ 0) (sym empty) refl in
            omega (arith, same p a, nothing),
      ),
    ),
  )
  next-Scanned d cs cs' (some (m, j)) e scanned =
      (some m, (advance_at j cs', (rw (e, next) refl, Nexted-chosen d cs cs' m j scanned)))

  next-Nexted :
      (d : Data) (cs : List (Current (Rule Expr Action)))
      → All (Valid d) cs
      → (m : Option (Rule Expr Action)) × ((after : List (Current (Rule Expr Action))) × ((next d cs
              ≡ some (m, after))
            × Nexted d cs m after))
  next-Nexted d cs h =
      let (now, (cs', (e, scanned))) = scan-Scanned (weight cs) d 0 none cs h (omega arith) in
      next-Scanned d cs cs' now e scanned

  -- All rules given: those that are left, in the order of their priorities.
  abbrev pub Drained : Data → List (Current (Rule Expr Action)) → List (Rule Expr Action) → Type 0
  Drained d cs ms =
      Sorted ms
      × (All (λ m. applies d m ≡ true) ms
          × ((p : Rule Expr Action → Bool) → Applies p d → count p ms ≡ count_entries p cs))

  -- The property of a rule that it applies and is of a lesser priority than k, which those given
  -- cannot have where none of those left has it.
  abbrev below : Data → ℕ → Rule Expr Action → Bool
  below d k r = applies d r && ltb r.priority k

  count-below_entry :
      (d : Data) (k : ℕ) (rs : List (Rule Expr Action))
      → All (λ r. k ≤ r.priority) rs
      → count (below d k) rs ≡ 0
  unfolding count
  count-below_entry d k [] h = refl
  count-below_entry d k (r ∷ rs) (h, hs) = ground (arith, count-below_entry d k rs hs)

  count-below :
      (d : Data) (k : ℕ) (cs : List (Current (Rule Expr Action)))
      → From k cs
      → count_entries (below d k) cs ≡ 0
  count-below d k [] h = refl
  count-below d k (c ∷ cs) (h, hs) =
      omega (arith, count-below_entry d k (remaining c) h, count-below d k cs hs)

  All-count-below :
      (d : Data) (k : ℕ) (ms : List (Rule Expr Action))
      → All (λ m. applies d m ≡ true) ms
      → count (below d k) ms ≡ 0
      → All (λ m. k ≤ m.priority) ms
  unfolding count
  All-count-below d k [] a h = tt
  All-count-below d k (m ∷ ms) (a, as_) h = ground (arith, All-count-below d k ms as_)

  Drained-From :
      (d : Data) (k : ℕ) (cs : List (Current (Rule Expr Action))) (ms : List (Rule Expr Action))
      → Drained d cs ms
      → From k cs
      → All (λ m. k ≤ m.priority) ms
  Drained-From d k cs ms (s, (a, same)) h =
      let none_below = same (below d k) (λ r e. ground (arith, e)) in
      All-count-below d k ms a (omega (arith, none_below, count-below d k cs h))

  -- One more call of next, of what later calls give.
  all_next-step :
      (fuel : ℕ) (d : Data) (cs after : List (Current (Rule Expr Action)))
      (m : Option (Rule Expr Action))
      → next d cs ≡ some (m, after)
      → Nexted d cs m after
      → (All (Valid d) after
          → weight after < weight cs
          → (ms : List (Rule Expr Action)) × ((all_next fuel d after ≡ some ms)
              × Drained d after ms))
      → (ms : List (Rule Expr Action)) × ((all_next (suc fuel) d cs ≡ some ms) × Drained d cs ms)
  unfolding all_next count
  all_next-step fuel d cs after none e h rest =
      ([], (rw (e, all_next) refl, (tt, (tt, λ p a. omega (arith, h p a)))))
  all_next-step fuel d cs after (some m) e (a, (valid, (w, (bound, same)))) rest =
      let (ms, (g, (s, (as_, sames)))) = rest valid w in
      let least = Drained-From d m.priority after ms (s, (as_, sames)) bound in
      (
        m ∷ ms,
        (
          rw (e, all_next, g) refl,
          ((least, s), ((a, as_), λ p ap. ground (arith, same p ap, sames p ap))),
        ),
      )

  pub all_next-Drained :
      (fuel : ℕ) (d : Data) (cs : List (Current (Rule Expr Action)))
      → All (Valid d) cs
      → weight cs < fuel
      → (ms : List (Rule Expr Action)) × ((all_next fuel d cs ≡ some ms) × Drained d cs ms)
  all_next-Drained zero d cs h l = absurd (omega arith)
  all_next-Drained (suc fuel) d cs h l =
      let (m, (after, (e, nexted))) = next-Nexted d cs h in
      all_next-step fuel d cs after m e nexted
        (λ valid w. all_next-Drained fuel d after valid (omega (arith, w)))

  pub entries-Valid :
      (d : Data) (ls : List (List (Rule Expr Action))) → Listed ls → All (Valid d) (entries ls)
  unfolding entries
  entries-Valid d [] h = tt
  entries-Valid d ([] ∷ ls) (_, h) = entries-Valid d ls h
  entries-Valid d ((r ∷ rs) ∷ ls) ((s, _), h) = ((s, λ e. cc), entries-Valid d ls h)
