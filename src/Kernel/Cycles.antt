-- ===== src/Kernel/Cycles.antt =====
-- Components that depend on each other in a cycle are never installed (builtin/kernel.cc).
pub mod Installing
pub mod Resolving
use nox13_interserver.Common.{
  ℕ, zero, suc, ◌+◌, Bool, true, false, ◌||◌, Option, none, some, List, [], ◌∷◌, ◌++◌, ◌==◌, ◌≡◌,
  refl, sym, subst, ◌∙◌, if◌then◌else◌, ltb, get_elem?, arith, All, Bool-cases, Option-cases,
  if-both, inl, inr, nat_key,
}
use nox13_interserver.Common.Maps.{lookup, insert, erase, lookup-insert, lookup-erase}
use nox13_interserver.Kernel.{
  Name, Context, Kernel, Result, returns, throws, undefined, exhausted, ◌>>=◌, installed, deploy,
  install_context, change, install, resolve_name, resolve_dependencies, collect, move, move_all,
  resolve_state, resolve_states, resolve_loop, resolve_all, install_name, kernel_after,
  install_each, new_kernel,
}
use nox13_interserver.Kernel.Cycles.Installing.{
  any_cyclic, Stuck, Depends, Inv, Ends, Keeps, some-injective, true-false, none-some, Ends-bind,
  Stuck-insert, install-Keeps,
}
use nox13_interserver.Kernel.Cycles.Resolving.{Outside, collect-Outside}

module _ (cyclic : Name → Bool) (succeeds : Name → ℕ → Bool) where
  move-Keeps :
      (from : ℕ) (name : Name) (k : Kernel)
      → Inv cyclic k
      → cyclic name ≡ false
      → Ends cyclic (Keeps cyclic) (move succeeds from name k)
  unfolding move
  move-Keeps from name k (s, d) y = elim (Option-cases (lookup name k.contexts)) [
    | inl e ↦ rw (e, move) tt
    | inr (c, e) ↦ elim (Option-cases (lookup from k.per_state)) [
      | inl g ↦ rw (e, move, g) tt
      | inr (names, g) ↦
          rw (e, move, g)
            (Stuck-insert cyclic name _ k.contexts s (λ z. absurd (true-false (sym z ∙ y))), d)
    ]
  ]

  move_all-Keeps :
      (from : ℕ) (names : List Name) (k : Kernel)
      → Outside cyclic names k
      → Ends cyclic (Keeps cyclic) (move_all succeeds from names k)
  unfolding move_all
  move_all-Keeps from [] k h = h.0
  move_all-Keeps from (n ∷ ns) k (h, (y, ys)) =
      Ends-bind cyclic (Keeps cyclic) (Keeps cyclic) (move succeeds from n k) _
        (move-Keeps from n k h y) (λ u k' g. move_all-Keeps from ns k' (g, ys))

  abbrev Progressed : Bool → Kernel → Type 0
  Progressed b k = Inv cyclic k

  resolve_state-Keeps :
      (fuel from : ℕ) (k : Kernel)
      → Inv cyclic k
      → Ends cyclic Progressed (resolve_state succeeds fuel from k)
  unfolding resolve_state
  resolve_state-Keeps fuel from k h =
      Ends-bind cyclic (Outside cyclic) Progressed (collect fuel from 0 [] k) _
        (collect-Outside cyclic fuel from 0 [] k (h, tt))
        (λ ready k' g.
          Ends-bind cyclic (Keeps cyclic) Progressed (move_all succeeds from ready k') _
            (move_all-Keeps from ready k' g) (λ u k'' r. r))

  states-rest :
      (fuel n from : ℕ) (progress : Bool) (k : Kernel)
      → Inv cyclic k
      → Ends cyclic Progressed (resolve_states succeeds fuel n (from + 1) k)
      → Ends cyclic Progressed (elim progress [
        | true ↦ returns true k
        | false ↦ resolve_states succeeds fuel n (from + 1) k
      ])
  states-rest fuel n from true k h g = h
  states-rest fuel n from false k h g = g

  resolve_states-Keeps :
      (fuel n from : ℕ) (k : Kernel)
      → Inv cyclic k
      → Ends cyclic Progressed (resolve_states succeeds fuel n from k)
  unfolding resolve_states
  resolve_states-Keeps fuel zero from k h = h
  resolve_states-Keeps fuel (suc n) from k h =
      Ends-bind cyclic Progressed Progressed (resolve_state succeeds fuel from k) _
        (resolve_state-Keeps fuel from k h)
        (λ progress k' g.
          states-rest fuel n from progress k' g (resolve_states-Keeps fuel n (from + 1) k' g))

  loop-rest :
      (fuel rounds : ℕ) (again : Bool) (k : Kernel)
      → Inv cyclic k
      → Ends cyclic (Keeps cyclic) (resolve_loop succeeds fuel rounds k)
      → Ends cyclic (Keeps cyclic) (elim again [
        | false ↦ returns tt (record k { installing = false })
        | true ↦ resolve_loop succeeds fuel rounds k
      ])
  loop-rest fuel rounds false k h g = h
  loop-rest fuel rounds true k h g = g

  resolve_loop-Keeps :
      (fuel rounds : ℕ) (k : Kernel)
      → Inv cyclic k
      → Ends cyclic (Keeps cyclic) (resolve_loop succeeds fuel rounds k)
  unfolding resolve_loop
  resolve_loop-Keeps fuel zero k h = tt
  resolve_loop-Keeps fuel (suc rounds) k h =
      let start = record k { state_requirements_changed = false } in
      Ends-bind cyclic Progressed (Keeps cyclic) (resolve_states succeeds fuel installed 0 start) _
        (resolve_states-Keeps fuel installed 0 start h)
        (λ progress k' g.
          loop-rest fuel rounds (progress || k'.state_requirements_changed) k' g
            (resolve_loop-Keeps fuel rounds k' g))

  install_name-Keeps :
      (fuel : ℕ) (name : Name) (k : Kernel)
      → Inv cyclic k
      → Ends cyclic (Keeps cyclic) (install_name succeeds fuel name k)
  unfolding install_name resolve_all
  install_name-Keeps fuel name k h =
      install-Keeps cyclic (resolve_all succeeds fuel) name k
        (λ k g. resolve_loop-Keeps fuel fuel (record k { installing = true }) g) h

  Ends-after :
      (m : Result (Unit {0})) (k : Kernel)
      → Ends cyclic (Keeps cyclic) m
      → kernel_after m ≡ some k
      → Inv cyclic k
  Ends-after (returns u j) k h e = subst (Inv cyclic) (some-injective e) h
  Ends-after (throws j) k h e = subst (Inv cyclic) (some-injective e) h
  Ends-after undefined k h e = cc
  Ends-after exhausted k h e = cc

  ended :
      (n : Name) (ns : List Name) (fuel : ℕ) (k : Kernel)
      → kernel_after (install_name succeeds fuel n k) ≡ none
      → install_each succeeds fuel (n ∷ ns) k ≡ none
  unfolding install_each
  ended n ns fuel k g = rw (g, install_each) refl

  went_on :
      (n : Name) (ns : List Name) (fuel : ℕ) (k j : Kernel)
      → kernel_after (install_name succeeds fuel n k) ≡ some j
      → install_each succeeds fuel (n ∷ ns) k ≡ install_each succeeds fuel ns j
  unfolding install_each
  went_on n ns fuel k j g = rw (g, install_each) refl

  unknown :
      (n : Name) (c : Context)
      → lookup n [] ≡ some c
      → cyclic n ≡ true
      → (c.current_state ≡ 0) × (any_cyclic cyclic c.dependencies ≡ true)
  unfolding lookup
  unknown n c e y = cc

  install_each-Inv :
      (fuel : ℕ) (names : List Name) (k after : Kernel)
      → Inv cyclic k
      → install_each succeeds fuel names k ≡ some after
      → Inv cyclic after
  unfolding install_each
  install_each-Inv fuel [] k after h e = subst (Inv cyclic) (some-injective e) h
  install_each-Inv fuel (n ∷ ns) k after h e =
      elim (Option-cases (kernel_after (install_name succeeds fuel n k))) [
        | inl g ↦ absurd (none-some (sym (ended n ns fuel k g) ∙ e))
        | inr (j, g) ↦
            let between =
              Ends-after (install_name succeeds fuel n k) j (install_name-Keeps fuel n k h) g in
            install_each-Inv fuel ns j after between (sym (went_on n ns fuel k j g) ∙ e)
      ]

  -- Where some components are chosen of which each depends on one of them, as those of a cycle do, and
  -- none is known at first, none of them is past NOT_INSTALLED after any calls of install, of which
  -- each may throw.
  pub install_each-cycle :
      (fuel : ℕ) (names : List Name) (ds : List (List (Name × List Name))) (after : Kernel)
      (n : Name) (c : Context)
      → All (Depends cyclic) ds
      → install_each succeeds fuel names (new_kernel ds) ≡ some after
      → lookup n after.contexts ≡ some c
      → cyclic n ≡ true
      → c.current_state ≡ 0
  install_each-cycle fuel names ds after n c h e found y =
      let start : Inv cyclic (new_kernel ds) = (λ n c e. unknown n c e, h) in
      let (stuck, _) = install_each-Inv fuel names (new_kernel ds) after start e in
      (stuck n c found y).0
