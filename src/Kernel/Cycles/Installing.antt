-- ===== src/Kernel/Cycles/Installing.antt =====
-- An installation leaves the components of a cycle as they are (builtin/kernel.cc, install and change).
use nox13_interserver.Common.{
  Bool, true, false, ◌||◌, Option, none, some, List, [], ◌∷◌, ◌==◌, ◌≡◌, refl, sym, subst, ◌∙◌,
  if◌then◌else◌, ltb, arith, All, Bool-cases, Option-cases, if-both, inl, inr, nat_key,
}
use nox13_interserver.Common.Maps.{lookup, insert, erase, lookup-insert, lookup-erase}
use nox13_interserver.Kernel.{
  Name, Context, Kernel, Result, returns, throws, undefined, exhausted, ◌>>=◌, installed, deploy,
  install_context, change, install,
}

pub some-injective {ℓ} : {A : Type ℓ} {a b : A} → some a ≡ some b → a ≡ b
some-injective h = cc

pub true-false : true ≡ false → ⊥
true-false h = cc

pub none-some {ℓ} : {A : Type ℓ} {a : A} → ◌≡◌ {A = Option A} none (some a) → ⊥
none-some h = cc

-- The names of components that each depend on one of them.
module _ (cyclic : Name → Bool) where
  abbrev pub any_cyclic : List Name → Bool
  any_cyclic [] = false
  any_cyclic (d ∷ ds) = cyclic d || any_cyclic ds

  -- Each such component that is known is not installed at all.
  abbrev pub Stuck : List (Name × Context) → Type 0
  Stuck contexts =
      (n : Name) (c : Context)
      → lookup n contexts ≡ some c
      → cyclic n ≡ true
      → (c.current_state ≡ 0) × (any_cyclic c.dependencies ≡ true)

  abbrev pub Depends : List (Name × List Name) → Type 0
  Depends d =
      (n : Name) (deps : List Name)
      → lookup n d ≡ some deps
      → cyclic n ≡ true
      → any_cyclic deps ≡ true

  abbrev pub Inv : Kernel → Type 0
  Inv k = Stuck k.contexts × All Depends k.deployers

  -- What holds of the value and the kernel that a call returns; of an exception, the invariant.
  abbrev pub Ends : {A : Type 0} → (A → Kernel → Type 0) → Result A → Type 0
  Ends Q (returns a k) = Q a k
  Ends Q (throws k) = Inv k
  Ends Q undefined = Unit
  Ends Q exhausted = Unit

  pub Ends-bind :
      {A B : Type 0} (Q : A → Kernel → Type 0) (R : B → Kernel → Type 0) (m : Result A)
      (f : A → Kernel → Result B)
      → Ends Q m
      → ((a : A) (k : Kernel) → Q a k → Ends R (f a k))
      → Ends R (m >>= f)
  Ends-bind Q R (returns a k) f h g = g a k h
  Ends-bind Q R (throws k) f h g = h
  Ends-bind Q R undefined f h g = tt
  Ends-bind Q R exhausted f h g = tt

  abbrev pub Keeps : Unit {0} → Kernel → Type 0
  Keeps u k = Inv k

  pub Stuck-insert :
      (name : Name) (c : Context) (m : List (Name × Context))
      → Stuck m
      → (cyclic name ≡ true → (c.current_state ≡ 0) × (any_cyclic c.dependencies ≡ true))
      → Stuck (insert name c m)
  Stuck-insert name c m h g n d e y = elim (Bool-cases (name == n)) [
    | inl q ↦
        let same : name ≡ n = ground arith in
        let found : lookup n (insert name c m) ≡ some c =
          ground (arith, lookup-insert name n c m) in
        let here : c ≡ d = some-injective (sym found ∙ e) in
        rw (← here) (g (subst (λ n. cyclic n ≡ true) (sym same) y))
    | inr q ↦
        let found : lookup n (insert name c m) ≡ lookup n m =
          ground (arith, lookup-insert name n c m) in
        h n d (sym found ∙ e) y
  ]

  erase-Depends : (name : Name) (d : List (Name × List Name)) → Depends d → Depends (erase name d)
  erase-Depends name d h n deps e y = elim (Bool-cases (name == n)) [
    | inl q ↦
        let found : lookup n (erase name d) ≡ none = ground (arith, lookup-erase name n d) in
        absurd (none-some (sym found ∙ e))
    | inr q ↦
        let found : lookup n (erase name d) ≡ lookup n d = ground (arith, lookup-erase name n d) in
        h n deps (sym found ∙ e) y
  ]

  -- What holds of a deployment.
  abbrev Deployed : Name → Option (List Name × List (List (Name × List Name))) → Type 0
  Deployed name none = Unit
  Deployed name (some (deps, after)) =
      (cyclic name ≡ true → any_cyclic deps ≡ true) × All Depends after

  later-Deployed :
      (name : Name) (d : List (Name × List Name))
      (o : Option (List Name × List (List (Name × List Name))))
      → Depends d
      → Deployed name o
      → Deployed name (elim o [ none ↦ none | some (deps, ds') ↦ some (deps, d ∷ ds') ])
  later-Deployed name d none h g = tt
  later-Deployed name d (some (deps, ds)) h (g, gs) = (g, (h, gs))

  deploy-Deployed :
      (name : Name) (ds : List (List (Name × List Name)))
      → All Depends ds
      → Deployed name (deploy name ds)
  unfolding deploy
  deploy-Deployed name [] h = tt
  deploy-Deployed name (d ∷ ds) (h, hs) = elim (Option-cases (lookup name d)) [
    | inl e ↦ rw (e, deploy) (later-Deployed name d (deploy name ds) h (deploy-Deployed name ds hs))
    | inr (deps, e) ↦ rw (e, deploy) (h name deps e, (erase-Depends name d h, hs))
  ]

  install_context-Keeps :
      (name : Name) (deps : List Name) (k : Kernel)
      → Inv k
      → (cyclic name ≡ true → any_cyclic deps ≡ true)
      → Ends Keeps (install_context name deps k)
  unfolding install_context
  install_context-Keeps name deps k (s, d) g = elim (Option-cases (lookup name k.contexts)) [
    | inl e ↦ rw (e, install_context) (Stuck-insert name _ k.contexts s (λ y. (refl, g y)), d)
    | inr (c, e) ↦ rw (e, install_context) (s, d)
  ]

  checked-Keeps :
      (name : Name) (k : Kernel)
      → Inv k
      → Ends Keeps (elim (lookup name k.contexts) [
        | none ↦ throws k
        | some c ↦ if c.current_state == installed then returns tt k else throws k
      ])
  checked-Keeps name k h = elim (Option-cases (lookup name k.contexts)) [
    | inl e ↦ rw e h
    | inr (c, e) ↦ rw e (if-both (Ends Keeps) (c.current_state == installed) h h)
  ]

  change-Keeps :
      (all : Kernel → Result (Unit {0})) (name : Name) (k : Kernel)
      → ((k : Kernel) → Inv k → Ends Keeps (all k))
      → Inv k
      → Ends Keeps (change all name k)
  unfolding change
  change-Keeps all name k keep (s, d) = elim (Option-cases (lookup name k.contexts)) [
    | inl e ↦ rw (e, change) tt
    | inr (c, e) ↦
        let required : Kernel = record k {
          contexts = insert name (record c { required_state = installed }) k.contexts;
        } in
        let kept : Inv required = (Stuck-insert name _ k.contexts s (s name c e), d) in
        rw (e, change)
          (if-both (Ends Keeps) (c.current_state == installed) (s, d)
            (if-both (Ends Keeps) (ltb installed c.current_state) (s, d)
              (if-both (Ends Keeps) k.installing kept (
                Ends-bind Keeps Keeps (all required) _ (keep required kept)
                  (λ u k' h. checked-Keeps name k' h)))))
  ]

  pub install-Keeps :
      (all : Kernel → Result (Unit {0})) (name : Name) (k : Kernel)
      → ((k : Kernel) → Inv k → Ends Keeps (all k))
      → Inv k
      → Ends Keeps (install all name k)
  unfolding install
  install-Keeps all name k keep (s, d) = elim (Option-cases (lookup name k.contexts)) [
    | inr (c, e) ↦ rw (e, install) (s, d)
    | inl e ↦ elim (Option-cases (deploy name k.deployers)) [
      | inl g ↦ rw (e, install, g) (s, d)
      | inr ((deps, ds), g) ↦
          let deployed : Deployed name (some (deps, ds)) =
            subst (Deployed name) g (deploy-Deployed name k.deployers d) in
          let with_context =
            install_context-Keeps name deps (record k { deployers = ds }) (s, deployed.1)
              deployed.0 in
          rw (e, install, g)
            (Ends-bind Keeps Keeps (install_context name deps (record k { deployers = ds })) _
              with_context (λ u k' h. change-Keeps all name k' keep h))
    ]
  ]
