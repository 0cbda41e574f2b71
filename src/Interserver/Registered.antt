-- ===== src/Interserver/Registered.antt =====
-- The types that Msg_resolver registers (msg_resolver.cc, install) and those it can make an
-- interactor for.
use text.Mathlib.Text.{◌==◌ as string_eq}
use text.Mathlib.TextEquality.{eq_iff}
use nox13_interserver.Common.{
  ◌≡◌, refl, sym, ap, subst, ◌∙◌, true, ◌||◌, List, [], ◌∷◌, ◌++◌, String, is_some, Option-cases,
  Bool-cases, inl, inr, arith,
}
use nox13_interserver.Interserver.Resolver.{
  Interactor, Resolver, find_object, register, register_all, init_interactor, empty_resolver,
}
use nox13_interserver.Interserver.Processor.{find_string}

find_string-append :
    (k j : String) (ids : List String)
    → find_string k (ids ++ j ∷ []) ≡ (find_string k ids || string_eq j k)
unfolding find_string
find_string-append k j [] = ground arith
find_string-append k j (i ∷ ids) = ground (arith, find_string-append k j ids)

find_string-known :
    (j k : String) (ids : List String)
    → find_string j ids ≡ true
    → find_string k ids ≡ (find_string k ids || string_eq j k)
find_string-known j k ids h = elim (Bool-cases (string_eq j k)) [
  | inl e ↦
      let known : find_string k ids ≡ true =
        subst (λ k. find_string k ids ≡ true) ((eq_iff j k).0 e) h in
      ground (arith, known)
  | inr e ↦ ground arith
]

module _ {Message : Type 0} where
  find_object-append :
      (k j : String) (i : Interactor Message) (m : List (String × Interactor Message))
      → is_some (find_object k (m ++ (j, i) ∷ [])) ≡ (is_some (find_object k m) || string_eq j k)
  unfolding find_object
  find_object-append k j i [] = ground arith
  find_object-append k j i ((h, x) ∷ m) = ground (arith, find_object-append k j i m)

  -- The types listed are those of the factory.
  abbrev pub Registered : Resolver Message → Type 0
  Registered r = (k : String) → is_some (find_object k r.factory) ≡ find_string k r.res_ids

  register-Registered :
      (j : String) (i : Interactor Message) (r : Resolver Message)
      → Registered r
      → Registered (register j i r)
  unfolding register
  register-Registered j i r v k = elim (Option-cases (find_object j r.factory)) [
    | inl h ↦
        rw (h, register)
          (find_object-append k j i r.factory
            ∙ ap (λ b. b || string_eq j k) (v k)
            ∙ sym (find_string-append k j r.res_ids))
    | inr (old, h) ↦
        rw (h, register)
          (v k
            ∙ find_string-known j k r.res_ids (sym (v j) ∙ ap is_some h)
            ∙ sym (find_string-append k j r.res_ids))
  ]

  register_all-Registered :
      (classes : List (String × Interactor Message)) (r : Resolver Message)
      → Registered r
      → Registered (register_all classes r)
  unfolding register_all
  register_all-Registered [] r v = v
  register_all-Registered ((j, i) ∷ classes) r v =
      register_all-Registered classes (register j i r) (register-Registered j i r v)

  init_interactor-made :
      (tp : String) (r : Resolver Message)
      → (init_interactor tp r).1 ≡ is_some (find_object tp r.factory)
  unfolding init_interactor
  init_interactor-made tp r = elim (Option-cases (find_object tp r.factory)) [
    | inl h ↦ rw (h, init_interactor) refl
    | inr (i, h) ↦ rw (h, init_interactor) refl
  ]

  -- Whatever classes are registered at the start, an interactor is made for exactly the types that are
  -- listed, which are those that the request processor accepts.
  pub init_interactor-register_all :
      (classes : List (String × Interactor Message)) (tp : String)
      → let r = register_all classes empty_resolver in
        (init_interactor tp r).1 ≡ find_string tp r.res_ids
  unfolding find_object find_string
  init_interactor-register_all classes tp =
      init_interactor-made tp (register_all classes empty_resolver)
      ∙ register_all-Registered classes empty_resolver (λ k. refl) tp
