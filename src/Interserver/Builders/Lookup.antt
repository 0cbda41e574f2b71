-- ===== src/Interserver/Builders/Lookup.antt =====
-- The interactors as the resolver finds them by their types (msg_resolver.cc).
use text.Mathlib.Text.{◌==◌ as string_eq}
use text.Mathlib.TextEquality.{eq_iff}
use nox13_interserver.Common.{
  true, some, List, [], ◌∷◌, String, All, ◌≡◌, refl, sym, ap, subst, ◌∙◌, inl, inr, arith,
  Bool-cases, Option-cases,
}
use nox13_interserver.Common.Outcome.{ok}
use nox13_interserver.Interserver.Resolver.{
  Interactor, find_object, init_interactor, resolver_is_modify,
}
use nox13_interserver.Interserver.Processor.{find_string}
use nox13_interserver.Interserver.Builders.Arguments.{Libc}
use nox13_interserver.Interserver.Builders.Messages.{OflMsg}
use nox13_interserver.Interserver.Builders.Registry.{interactors, installed_resolver}

-- What holds of every entry of the factory holds of the one that is found.
pub find_object-All :
    (P : String × Interactor OflMsg → Type 0) (tp : String) (m : List (String × Interactor OflMsg))
    (i : Interactor OflMsg)
    → All P m
    → find_object tp m ≡ some i
    → P (tp, i)
unfolding find_object
find_object-All P tp [] i h e = cc
find_object-All P tp ((k, j) ∷ m) i (h, hs) e = elim (Bool-cases (string_eq k tp)) [
  | inl b ↦ subst (λ k. P (k, i)) ((eq_iff k tp).0 b) (subst (λ j. P (k, j)) (ground arith) h)
  | inr b ↦ find_object-All P tp m i hs (ground arith)
]

-- The types of the requests that change a switch.
abbrev pub modify_types : List String
modify_types = "set_sw_config" ∷ "flow_mod" ∷ "group_mod" ∷ "port_mod" ∷ "meter_mod" ∷ []

module _ (libc : Libc) where
  pub factory-interactors : (installed_resolver libc).factory ≡ interactors libc
  unfolding installed_resolver
  factory-interactors = refl

  interactors-is_modify : All (λ e. e.1.is_modify ≡ find_string e.0 modify_types) (interactors libc)
  unfolding find_string
  interactors-is_modify = (
    refl,
    (
      refl,
      (
        refl,
        (
          refl,
          (
            refl,
            (
              refl,
              (
                refl,
                (
                  refl,
                  (
                    refl,
                    (
                      refl,
                      (
                        refl,
                        (
                          refl,
                          (
                            refl,
                            (
                              refl,
                              (refl, (refl, (refl, (refl, (refl, (refl, (refl, (refl, tt)))))))),
                            ),
                          ),
                        ),
                      ),
                    ),
                  ),
                ),
              ),
            ),
          ),
        ),
      ),
    ),
  )

  -- For a type that an interactor is made for, is_modify returns whether it is one of the five that
  -- change a switch.
  pub resolver_is_modify-installed :
      (tp : String)
      → (init_interactor tp (installed_resolver libc)).1 ≡ true
      → resolver_is_modify (init_interactor tp (installed_resolver libc)).0
        ≡ ok (find_string tp modify_types)
  unfolding init_interactor resolver_is_modify
  resolver_is_modify-installed tp h =
      elim (Option-cases (find_object tp (installed_resolver libc).factory)) [
        | inl e ↦ ground arith
        | inr (i, e) ↦
            let found : find_object tp (interactors libc) ≡ some i =
              ap (find_object tp) (sym factory-interactors) ∙ e in
            let modify =
              find_object-All (λ e. e.1.is_modify ≡ find_string e.0 modify_types) tp
                (interactors libc) i interactors-is_modify found in
            ground arith
      ]
