-- ===== src/Kernel/Cycles/Resolving.antt =====
-- No component of a cycle has its dependencies resolved (builtin/kernel.cc, resolve).
use nox13_interserver.Common.{
  ℕ, zero, suc, ◌+◌, Bool, true, false, List, [], ◌∷◌, ◌++◌, ◌≡◌, refl, if◌then◌else◌, get_elem?,
  arith, All, Bool-cases, Option-cases, inl, inr, nat_key,
}
use nox13_interserver.Common.Maps.{lookup}
use nox13_interserver.Kernel.{
  Name, Kernel, returns, undefined, install, resolve_name, resolve_dependencies, collect,
}
use nox13_interserver.Kernel.Cycles.Installing.{
  any_cyclic, Inv, Ends, Keeps, true-false, Ends-bind, install-Keeps,
}

-- The names of components that each depend on one of them.
module _ (cyclic : Name → Bool) where
  -- A dependency in the cycle is not met.
  abbrev Unmet : Bool → Bool → Kernel → Type 0
  Unmet in_cycle met k = Inv cyclic k × (in_cycle ≡ true → met ≡ false)

  resolve_name-Unmet :
      (name : Name) (k : Kernel)
      → Inv cyclic k
      → Ends cyclic (Unmet (cyclic name)) (resolve_name name k)
  unfolding resolve_name
  resolve_name-Unmet name k (s, d) = elim (Option-cases (lookup name k.contexts)) [
    | inl e ↦
        let installs = install-Keeps cyclic (λ k. undefined) name k (λ k h. tt) (s, d) in
        rw (e, resolve_name)
          (Ends-bind cyclic (Keeps cyclic) (Unmet (cyclic name)) (install (λ k. undefined) name k) _
            installs (λ u k' h. (h, λ y. refl)))
    | inr (c, e) ↦
        rw (e, resolve_name) ((s, d), λ y. let at_start = (s name c e y).0 in ground arith)
  ]

  rest-Unmet :
      (d : Name) (ds : List Name) (met : Bool) (k : Kernel)
      → Unmet (cyclic d) met k
      → Ends cyclic (Unmet (any_cyclic cyclic ds)) (resolve_dependencies ds k)
      → Ends cyclic
          (Unmet (any_cyclic cyclic (d ∷ ds)))
          (elim met [ false ↦ returns false k | true ↦ resolve_dependencies ds k ])
  rest-Unmet d ds false k (g, u) h = (g, λ y. refl)
  rest-Unmet d ds true k (g, u) h = elim (Bool-cases (cyclic d)) [
    | inl y ↦ absurd (true-false (u y))
    | inr y ↦ rw y h
  ]

  resolve_dependencies-Unmet :
      (ds : List Name) (k : Kernel)
      → Inv cyclic k
      → Ends cyclic (Unmet (any_cyclic cyclic ds)) (resolve_dependencies ds k)
  unfolding resolve_dependencies
  resolve_dependencies-Unmet [] k h = (h, λ y. cc)
  resolve_dependencies-Unmet (d ∷ ds) k h =
      Ends-bind cyclic (Unmet (cyclic d)) (Unmet (any_cyclic cyclic (d ∷ ds))) (resolve_name d k) _
        (resolve_name-Unmet d k h)
        (λ met k' g. rest-Unmet d ds met k' g (resolve_dependencies-Unmet ds k' g.0))

  -- None of the names is in the cycle.
  abbrev pub Outside : List Name → Kernel → Type 0
  Outside names k = Inv cyclic k × All (λ n. cyclic n ≡ false) names

  Outside-append :
      (names : List Name) (name : Name)
      → All (λ n. cyclic n ≡ false) names
      → cyclic name ≡ false
      → All (λ n. cyclic n ≡ false) (names ++ name ∷ [])
  Outside-append [] name h e = (e, tt)
  Outside-append (n ∷ ns) name (h, hs) e = (h, Outside-append ns name hs e)

  ready-Outside :
      (names : List Name) (name : Name) (met in_cycle : Bool)
      → (cyclic name ≡ true → in_cycle ≡ true)
      → (in_cycle ≡ true → met ≡ false)
      → All (λ n. cyclic n ≡ false) names
      → All (λ n. cyclic n ≡ false) (if met then names ++ name ∷ [] else names)
  ready-Outside names name false in_cycle g u h = h
  ready-Outside names name true in_cycle g u h = elim (Bool-cases (cyclic name)) [
    | inl y ↦ absurd (true-false (u (g y)))
    | inr y ↦ Outside-append names name h y
  ]

  pub collect-Outside :
      (fuel from i : ℕ) (resolved : List Name) (k : Kernel)
      → Outside resolved k
      → Ends cyclic Outside (collect fuel from i resolved k)
  unfolding collect
  collect-Outside zero from i resolved k h = tt
  collect-Outside (suc fuel) from i resolved k ((s, d), o) =
      elim (Option-cases (lookup from k.per_state)) [
        | inl e ↦ rw (e, collect) tt
        | inr (names, e) ↦ elim (Option-cases (get_elem? names i)) [
          | inl g ↦ rw (e, collect, g) ((s, d), o)
          | inr (name, g) ↦ elim (Option-cases (lookup name k.contexts)) [
            | inl f ↦ rw (e, collect, g, f) tt
            | inr (c, f) ↦
                rw (e, collect, g, f)
                  (Ends-bind cyclic (Unmet (any_cyclic cyclic c.dependencies)) Outside
                    (resolve_dependencies c.dependencies k) _
                    (resolve_dependencies-Unmet c.dependencies k (s, d))
                    (λ met k' (h, u).
                      collect-Outside fuel from (i + 1)
                        (if met then resolved ++ name ∷ [] else resolved) k'
                        (
                          h,
                          ready-Outside resolved name met (any_cyclic cyclic c.dependencies)
                              (λ y. (s name c f y).1) u o,
                        )))
          ]
        ]
      ]
