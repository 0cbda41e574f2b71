-- ===== src/Kernel.antt =====
-- The kernel, which installs components after those that they depend on (builtin/kernel.cc,
-- nox/kernel.hh, builtin/deployer.cc, lines 31-45). A component is named by its context's name, its
-- dependencies are Name_dependency objects, and what its install actions do is a parameter.
pub mod Cycles
use nox13_interserver.Common.{
  ℕ, zero, suc, ◌+◌, Bool, true, false, ◌||◌, Option, none, some, List, [], ◌∷◌, ◌++◌, ltb, ◌==◌,
  if◌then◌else◌, length, get_elem?, is_some, nat_key,
}
use nox13_interserver.Common.Maps.{lookup, insert, erase}

-- A name is a number, since names are compared only.
abbrev pub Name : Type 0
Name = ℕ

-- Component_state, as the numbers that the enumeration gives.
abbrev pub not_installed : ℕ
not_installed = 0

abbrev pub installed : ℕ
installed = 6

abbrev pub error_state : ℕ
error_state = 7

pub record Context : Type 0 where
  pub current_state : ℕ
  pub required_state : ℕ
  pub dependencies : List Name

-- A deployer has the contexts that are not installed, with their dependencies. A state without a
-- vector in per_state is a null pointer there.
pub record Kernel : Type 0 where
  pub contexts : List (Name × Context)
  pub per_state : List (ℕ × List Name)
  pub deployers : List (List (Name × List Name))
  pub state_requirements_changed : Bool
  pub installing : Bool

-- How a call ends: with a value, with a state_change_error, or in undefined behaviour; or the fuel
-- runs out first.
pub data Result (A : Type 0) : Type 0 where
  returns : A → Kernel → Result A
  throws : Kernel → Result A
  undefined exhausted : Result A

infixl 5 ◌>>=◌
abbrev pub ◌>>=◌ : {A B : Type 0} → Result A → (A → Kernel → Result B) → Result B
returns a k >>= f = f a k
throws k >>= f = throws k
undefined >>= f = undefined
exhausted >>= f = exhausted

-- Deployer::deploy of the first deployer that has the name: its dependencies, and the deployers after.
unfoldable pub deploy :
    Name → List (List (Name × List Name)) → Option (List Name × List (List (Name × List Name)))
deploy name [] = none
deploy name (d ∷ ds) = elim (lookup name d) [
  | some deps ↦ some (deps, erase name d ∷ ds)
  | none ↦ elim (deploy name ds) [ none ↦ none | some (deps, ds') ↦ some (deps, d ∷ ds') ]
]

-- per_state[state]->push_back(name), of a vector that is made if there is none
abbrev pub pushed : ℕ → Name → List (ℕ × List Name) → List (ℕ × List Name)
pushed state name m = elim (lookup state m) [
  | none ↦ insert state (name ∷ []) m
  | some names ↦ insert state (names ++ name ∷ []) m
]

-- Kernel::install of a context to NOT_INSTALLED, where change has nothing to do.
unfoldable pub install_context : Name → List Name → Kernel → Result (Unit {0})
install_context name deps k = elim (lookup name k.contexts) [
  | some c ↦ throws k
  | none ↦ returns tt (record k {
    contexts =
        insert name (record { current_state = 0; required_state = 0; dependencies = deps })
          k.contexts;
    per_state = pushed 0 name k.per_state;
  })
]

-- Kernel::change to INSTALLED, of a context that is known; `resolve_all` stands for the call of
-- resolve(), which is made unless the kernel is installing.
unfoldable pub change : (Kernel → Result (Unit {0})) → Name → Kernel → Result (Unit {0})
change resolve_all name k = elim (lookup name k.contexts) [
  | none ↦ undefined
  | some c ↦
      if c.current_state == installed
      then returns tt k
      else if ltb installed c.current_state
      then throws k
      else let required = record k {
        contexts = insert name (record c { required_state = installed }) k.contexts;
      } in
        if k.installing
        then returns tt (record required { state_requirements_changed = true })
        else resolve_all required >>= λ _ k'. elim (lookup name k'.contexts) [
          | none ↦ throws k'
          | some c' ↦ if c'.current_state == installed then returns tt k' else throws k'
        ]
]

-- Kernel::install of a name to INSTALLED.
unfoldable pub install : (Kernel → Result (Unit {0})) → Name → Kernel → Result (Unit {0})
unfolding deploy install_context change
install resolve_all name k = elim (lookup name k.contexts) [
  | some c ↦ throws k
  | none ↦ elim (deploy name k.deployers) [
    | none ↦ throws k
    | some (deps, ds) ↦ install_context name deps (record k { deployers = ds }) >>= λ _ k'.
        change resolve_all name k'
  ]
]

-- Name_dependency::resolve, which is called while the kernel is installing only, so that the call of
-- install makes no call of resolve().
unfoldable pub resolve_name : Name → Kernel → Result Bool
unfolding install
resolve_name name k = elim (lookup name k.contexts) [
  | none ↦ install (λ k. undefined) name k >>= λ _ k'. returns false k'
  | some c ↦ returns (c.current_state == installed) k
]

-- Component_context::resolve
unfoldable pub resolve_dependencies : List Name → Kernel → Result Bool
unfolding resolve_name
resolve_dependencies [] k = returns true k
resolve_dependencies (d ∷ ds) k = resolve_name d k >>= λ met k'. elim met [
  | false ↦ returns false k'
  | true ↦ resolve_dependencies ds k'
]

-- The loop of resolve over the vector of a state, from index i on, with the names whose dependencies
-- are resolved so far. An installation may add to the vector meanwhile. On fuel.
unfoldable pub collect : ℕ → ℕ → ℕ → List Name → Kernel → Result (List Name)
unfolding resolve_dependencies
collect zero from i resolved k = exhausted
collect (suc fuel) from i resolved k = elim (lookup from k.per_state) [
  | none ↦ undefined
  | some names ↦ elim (get_elem? names i) [
    | none ↦ returns resolved k
    | some name ↦ elim (lookup name k.contexts) [
      | none ↦ undefined
      | some c ↦ resolve_dependencies c.dependencies k >>= λ met k'.
          collect fuel from (i + 1) (if met then resolved ++ name ∷ [] else resolved) k'
    ]
  ]
]

-- The first of the name goes from the vector.
unfoldable pub without : Name → List Name → List Name
without name [] = []
without name (n ∷ ns) = let rest = without name ns in if n == name then ns else n ∷ rest

-- The kernel after a call, if the call has not ended the process.
abbrev pub kernel_after : {A : Type 0} → Result A → Option Kernel
kernel_after (returns a k) = some k
kernel_after (throws k) = some k
kernel_after undefined = none
kernel_after exhausted = none

-- What the actions do, which make no call of the kernel: whether that of a component to a state succeeds; if not, it is in ERROR.
module _ (succeeds : Name → ℕ → Bool) where
  -- ctxt->install(to), and the vectors after it.
  unfoldable pub move : ℕ → Name → Kernel → Result (Unit {0})
  unfolding without
  move from name k = elim (lookup name k.contexts) [
    | none ↦ undefined
    | some c ↦ elim (lookup from k.per_state) [
      | none ↦ undefined
      | some names ↦
          let state = if succeeds name (from + 1) then from + 1 else error_state in
          returns tt (record k {
            contexts = insert name (record c { current_state = state }) k.contexts;
            per_state = pushed state name (insert from (without name names) k.per_state);
          })
    ]
  ]

  unfoldable pub move_all : ℕ → List Name → Kernel → Result (Unit {0})
  unfolding move
  move_all from [] k = returns tt k
  move_all from (n ∷ ns) k = move from n k >>= λ _ k'. move_all from ns k'

  -- Kernel::resolve of a state and the next: whether there was progress.
  unfoldable pub resolve_state : ℕ → ℕ → Kernel → Result Bool
  unfolding collect move_all
  resolve_state fuel from k = collect fuel from 0 [] k >>= λ ready k'.
      move_all from ready k' >>= λ _ k''. returns (ltb 0 (length ready)) k''

  -- The inner loop of resolve(), with this many states to go.
  unfoldable pub resolve_states : ℕ → ℕ → ℕ → Kernel → Result Bool
  unfolding resolve_state
  resolve_states fuel zero from k = returns false k
  resolve_states fuel (suc n) from k = resolve_state fuel from k >>= λ progress k'. elim progress [
    | true ↦ returns true k'
    | false ↦ resolve_states fuel n (from + 1) k'
  ]

  -- The outer loop of resolve(), on fuel.
  unfoldable pub resolve_loop : ℕ → ℕ → Kernel → Result (Unit {0})
  unfolding resolve_states
  resolve_loop fuel zero k = exhausted
  resolve_loop fuel (suc rounds) k =
      resolve_states fuel installed 0 (record k { state_requirements_changed = false })
      >>= λ progress k'. elim (progress || k'.state_requirements_changed) [
        | false ↦ returns tt (record k' { installing = false })
        | true ↦ resolve_loop fuel rounds k'
      ]

  -- Kernel::resolve(), of which an exception leaves `installing` set.
  unfoldable pub resolve_all : ℕ → Kernel → Result (Unit {0})
  unfolding resolve_loop
  resolve_all fuel k = resolve_loop fuel fuel (record k { installing = true })

  -- Kernel::install, as a client calls it.
  unfoldable pub install_name : ℕ → Name → Kernel → Result (Unit {0})
  unfolding install resolve_all
  install_name fuel name k = install (resolve_all fuel) name k

  -- Calls of install in a row, of which each may throw.
  unfoldable pub install_each : ℕ → List Name → Kernel → Option Kernel
  unfolding install_name
  install_each fuel [] k = some k
  install_each fuel (n ∷ ns) k = elim (kernel_after (install_name fuel n k)) [
    | none ↦ none
    | some k' ↦ install_each fuel ns k'
  ]

-- Kernel::Kernel, with these deployers attached.
abbrev pub new_kernel : List (List (Name × List Name)) → Kernel
new_kernel ds = record {
  contexts = [];
  per_state = [];
  deployers = ds;
  state_requirements_changed = false;
  installing = false;
}
