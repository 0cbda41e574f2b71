-- ===== src/Tests/KernelTests.antt =====
-- A kernel with a component that depends on nothing, and two that depend on each other.
use nox13_interserver.Common.{
  nat_key, ℕ, Bool, true, ◌==◌, ◌||◌, arith, Option, none, some, List, [], ◌∷◌, ◌≡◌, refl, All,
}
use nox13_interserver.Common.Maps.{lookup, insert, erase}
use nox13_interserver.Kernel.{
  Name, Context, Kernel, undefined, install_name, install_each, new_kernel,
}
use nox13_interserver.Kernel.Cycles.{install_each-cycle}
use nox13_interserver.Kernel.Cycles.Installing.{Depends}

abbrev three : List (List (Name × List Name))
three = ((1, 2 ∷ []) ∷ (2, 1 ∷ []) ∷ (3, []) ∷ []) ∷ []

abbrev works : Name → ℕ → Bool
works n s = true

-- A component that depends on another, where no component has been installed before and the other is
-- unknown to be installed: the vector of the next state is a null pointer.
null_vector : install_name works 20 1 (new_kernel three) ≡ undefined
unfolding install_name lookup insert erase
null_vector = refl

-- The first two components.
abbrev in_cycle : Name → Bool
in_cycle n = (n == 1) || (n == 2)

three-Depends : All (Depends in_cycle) three
unfolding lookup
three-Depends = (λ n deps e y. ground (arith, e), tt)

abbrev kernel_or_new : Option Kernel → Kernel
kernel_or_new none = new_kernel []
kernel_or_new (some k) = k

-- Once the third component is installed, the first is not, with an exception.
abbrev after_both : Kernel
after_both = kernel_or_new (install_each works 30 (3 ∷ 1 ∷ []) (new_kernel three))

abbrev first : Context
first = record { current_state = 0; required_state = 6; dependencies = 2 ∷ [] }

third_installed :
    lookup 3 after_both.contexts
    ≡ some (record { current_state = 6; required_state = 6; dependencies = [] })
unfolding install_each lookup insert erase
third_installed = refl

install_each-cycle_example : first.current_state ≡ 0
install_each-cycle_example =
    unfold install_each lookup insert erase in
    install_each-cycle in_cycle works 30 (3 ∷ 1 ∷ []) three after_both 1 first three-Depends refl
      refl refl
