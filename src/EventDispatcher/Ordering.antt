-- ===== src/EventDispatcher/Ordering.antt =====
-- The order of the handlers of an event (lib/event-dispatcher.cc, lines 55-61).
use text.Mathlib.Text.{◌==◌ as string_eq}
use text.Mathlib.TextEquality.{eq_iff}
use nox13_interserver.Common.{
  ℕ, suc, ◌≤◌, true, List, [], ◌∷◌, ◌++◌, String, All, ltb, ◌==◌, if◌then◌else◌, ◌≡◌, refl, sym, ap,
  subst, ◌∙◌, arith, Bool-cases, inl, inr,
}
use mathlib.Core.List.{append-nil, append_assoc}
use nox13_interserver.EventDispatcher.{
  Handler, Signal, Dispatcher, insert_handler, insert_at, add_handler, signal_of, new_dispatcher,
}

-- Registrations, in the order in which they are made.
abbrev pub Registrations : Type 0 → Type 0 → Type 0
Registrations State Event = List (String × (ℕ × Handler State Event))

module _ {State Event : Type 0} where
  abbrev pub Sorted : Signal State Event → Type 0
  Sorted [] = Unit
  Sorted (x ∷ xs) = All (λ y. x.0 ≤ y.0) xs × Sorted xs

  -- The handlers of one order.
  abbrev pub of_order : ℕ → Signal State Event → Signal State Event
  of_order k [] = []
  of_order k ((o, h) ∷ s) = let rest = of_order k s in if o == k then (o, h) ∷ rest else rest

  insert_handler-All :
      (P : ℕ × Handler State Event → Type 0) (o : ℕ) (h : Handler State Event)
      (s : Signal State Event)
      → P (o, h)
      → All P s
      → All P (insert_handler o h s)
  unfolding insert_handler
  insert_handler-All P o h [] p ps = (p, tt)
  insert_handler-All P o h ((k, g) ∷ s) p (q, qs) = elim (Bool-cases (ltb o k)) [
    | inl e ↦ rw e (p, (q, qs))
    | inr e ↦ rw e (q, insert_handler-All P o h s p qs)
  ]

  All-le : (o k : ℕ) (s : Signal State Event) → o ≤ k → All (λ y. k ≤ y.0) s → All (λ y. o ≤ y.0) s
  All-le o k [] h hs = tt
  All-le o k ((m, g) ∷ s) h (p, ps) = (omega arith, All-le o k s h ps)

  insert_handler-Sorted :
      (o : ℕ) (h : Handler State Event) (s : Signal State Event)
      → Sorted s
      → Sorted (insert_handler o h s)
  unfolding insert_handler
  insert_handler-Sorted o h [] v = (tt, tt)
  insert_handler-Sorted o h ((k, g) ∷ s) (ps, v) = elim (Bool-cases (ltb o k)) [
    | inl e ↦ rw e ((ground arith, All-le o k s (ground arith) ps), (ps, v))
    | inr e ↦
        rw e
          (insert_handler-All (λ y. k ≤ y.0) o h s (ground arith) ps, insert_handler-Sorted o h s v)
  ]

  -- Where all orders are greater, none of the handlers is of the order.
  of_order-none : (k : ℕ) (s : Signal State Event) → All (λ y. suc k ≤ y.0) s → of_order k s ≡ []
  of_order-none k [] h = refl
  of_order-none k ((o, g) ∷ s) (p, ps) = ground (arith, of_order-none k s ps)

  of_order-append :
      (k : ℕ) (s t : Signal State Event) → of_order k (s ++ t) ≡ of_order k s ++ of_order k t
  of_order-append k [] t = refl
  of_order-append k ((o, g) ∷ s) t = elim (Bool-cases (o == k)) [
    | inl e ↦ rw e (ap (◌∷◌ (o, g)) (of_order-append k s t))
    | inr e ↦ rw e (of_order-append k s t)
  ]

  -- A handler before those of greater orders, or after them.
  of_order-either_end :
      (k o : ℕ) (h : Handler State Event) (s : Signal State Event)
      → All (λ y. suc o ≤ y.0) s
      → of_order k ((o, h) ∷ s) ≡ of_order k (s ++ (o, h) ∷ [])
  of_order-either_end k o h s ps = elim (Bool-cases (o == k)) [
    | inl e ↦
        let same : o ≡ k = ground arith in
        let others : of_order k s ≡ [] =
          of_order-none k s (subst (λ k. All (λ y. suc k ≤ y.0) s) same ps) in
        rw (of_order-append k s ((o, h) ∷ []), others, e) refl
    | inr e ↦ rw (of_order-append k s ((o, h) ∷ []), e) (sym (append-nil (of_order k s)))
  ]

  of_order-insert_handler :
      (k o : ℕ) (h : Handler State Event) (s : Signal State Event)
      → Sorted s
      → of_order k (insert_handler o h s) ≡ of_order k (s ++ (o, h) ∷ [])
  unfolding insert_handler
  of_order-insert_handler k o h [] v = refl
  of_order-insert_handler k o h ((m, g) ∷ s) (ps, v) = elim (Bool-cases (ltb o m)) [
    | inl e ↦ rw e (
        of_order-either_end k o h ((m, g) ∷ s) (ground arith, All-le (suc o) m s (ground arith) ps))
    | inr e ↦ rw e (ap (λ r. if m == k then (m, g) ∷ r else r) (of_order-insert_handler k o h s v))
  ]

  -- The handlers of a name, once another has been added.
  signal_of-insert_at :
      (n name : String) (o : ℕ) (h : Handler State Event) (t : List (String × Signal State Event))
      → signal_of n (insert_at name o h t)
        ≡ (if string_eq name n then insert_handler o h (signal_of n t) else signal_of n t)
  unfolding signal_of insert_at
  signal_of-insert_at n name o h [] = unfold insert_handler in refl
  signal_of-insert_at n name o h ((m, s) ∷ t) = elim (Bool-cases (string_eq m name)) [
    | inl e ↦
        let same : m ≡ name = (eq_iff m name).0 e in
        rw (e, ← same) (elim (Bool-cases (string_eq m n)) [ inl f ↦ rw f refl | inr f ↦ rw f refl ])
    | inr e ↦ elim (Bool-cases (string_eq m n)) [
      | inl f ↦ elim (Bool-cases (string_eq name n)) [
        | inl g ↦
            let same : m ≡ name = (eq_iff m n).0 f ∙ sym ((eq_iff name n).0 g) in
            let met : string_eq m name ≡ true = (eq_iff m name).1 same in cc
        | inr g ↦ rw (e, f, g) refl
      ]
      | inr f ↦ rw (e, f) (signal_of-insert_at n name o h t)
    ]
  ]

  abbrev pub add_handlers :
      Registrations State Event → Dispatcher State Event → Dispatcher State Event
  add_handlers [] d = d
  add_handlers ((name, (o, h)) ∷ rs) d = add_handlers rs (add_handler name h o d)

  -- Those for a name.
  abbrev pub registered : String → Registrations State Event → Signal State Event
  registered n [] = []
  registered n ((name, (o, h)) ∷ rs) =
      let rest = registered n rs in if string_eq name n then (o, h) ∷ rest else rest

  insert_at-Sorted :
      (n name : String) (o : ℕ) (h : Handler State Event) (t : List (String × Signal State Event))
      → Sorted (signal_of n t)
      → Sorted (signal_of n (insert_at name o h t))
  insert_at-Sorted n name o h t v = elim (Bool-cases (string_eq name n)) [
    | inl e ↦ rw (signal_of-insert_at n name o h t, e) (insert_handler-Sorted o h (signal_of n t) v)
    | inr e ↦ rw (signal_of-insert_at n name o h t, e) v
  ]

  of_order-insert_at :
      (n name : String) (k o : ℕ) (h : Handler State Event) (t : List (String × Signal State Event))
      (rest : Signal State Event)
      → Sorted (signal_of n t)
      → of_order k (signal_of n (insert_at name o h t) ++ rest)
        ≡ of_order k (signal_of n t ++ (if string_eq name n then (o, h) ∷ rest else rest))
  of_order-insert_at n name k o h t rest v = elim (Bool-cases (string_eq name n)) [
    | inl e ↦
        rw (signal_of-insert_at n name o h t, e)
          (of_order-append k (insert_handler o h (signal_of n t)) rest
            ∙ ap (λ s. s ++ of_order k rest) (of_order-insert_handler k o h (signal_of n t) v)
            ∙ sym (of_order-append k (signal_of n t ++ (o, h) ∷ []) rest)
            ∙ ap (of_order k) (append_assoc (signal_of n t) ((o, h) ∷ []) rest))
    | inr e ↦ rw (signal_of-insert_at n name o h t, e) refl
  ]

  add_handlers-Sorted :
      (n : String) (rs : Registrations State Event) (d : Dispatcher State Event)
      → Sorted (signal_of n d.table)
      → Sorted (signal_of n (add_handlers rs d).table)
  unfolding add_handler
  add_handlers-Sorted n [] d v = v
  add_handlers-Sorted n ((name, (o, h)) ∷ rs) d v =
      add_handlers-Sorted n rs (add_handler name h o d) (insert_at-Sorted n name o h d.table v)

  of_order-add_handlers :
      (n : String) (k : ℕ) (rs : Registrations State Event) (d : Dispatcher State Event)
      → Sorted (signal_of n d.table)
      → of_order k (signal_of n (add_handlers rs d).table)
        ≡ of_order k (signal_of n d.table ++ registered n rs)
  unfolding add_handler
  of_order-add_handlers n k [] d v = ap (of_order k) (sym (append-nil (signal_of n d.table)))
  of_order-add_handlers n k ((name, (o, h)) ∷ rs) d v =
      of_order-add_handlers n k rs (add_handler name h o d) (insert_at-Sorted n name o h d.table v)
      ∙ of_order-insert_at n name k o h d.table (registered n rs) v

  -- Whatever handlers are registered, for whatever events, those of an event stand in its signal in
  -- increasing order, and those of one order as they were registered, each as often as it was.
  pub add_handlers_order :
      (state : State) (rs : Registrations State Event) (n : String)
      → let s = signal_of n (add_handlers rs (new_dispatcher state)).table in
        Sorted s × ((k : ℕ) → of_order k s ≡ of_order k (registered n rs))
  unfolding signal_of
  add_handlers_order state rs n = (
    add_handlers-Sorted n rs (new_dispatcher state) tt,
    λ k. of_order-add_handlers n k rs (new_dispatcher state) tt,
  )
