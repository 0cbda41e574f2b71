-- ===== src/TimerDispatcher/Drained.antt =====
-- What one poll fires (lib/timer-dispatcher.cc, lines 117-164).
use nox13_interserver.Common.{
  ℕ, zero, suc, ◌≤◌, ◌<◌, List, [], ◌∷◌, ◌++◌, All, leb, ◌==◌, length, ◌≡◌, refl, sym, ap, ◌∙◌,
  arith, Bool-cases, Option-cases, inl, inr,
}
use mathlib.Core.List.{append-nil, append_assoc}
use nox13_interserver.TimerDispatcher.{
  Timer, Timers, Command, posts, cancels, delays, resets, insert_timer, insert_timers, remove_timer,
  compare_timer, post, cancel, set_timeout, valid_timer, do_command, do_commands, fire, fire_loop,
  poll,
}

abbrev From : ℕ → List Timer → Type 0
From time ts = All (λ t. time ≤ t.time) ts

abbrev pub Sorted : List Timer → Type 0
Sorted [] = Unit
Sorted (t ∷ ts) = From t.time ts × Sorted ts

From-le : (a b : ℕ) (ts : List Timer) → a ≤ b → From b ts → From a ts
From-le a b [] h hs = tt
From-le a b (t ∷ ts) h (p, ps) = (omega arith, From-le a b ts h ps)

insert_timer-From :
    (time : ℕ) (t : Timer) (ts : List Timer)
    → time ≤ t.time
    → From time ts
    → From time (insert_timer t ts)
unfolding insert_timer
insert_timer-From time t [] h hs = (h, tt)
insert_timer-From time t (u ∷ us) h (p, ps) = elim (Bool-cases (compare_timer t u)) [
  | inl e ↦ rw e (h, (p, ps))
  | inr e ↦ rw e (p, insert_timer-From time t us h ps)
]

insert_timer-Sorted : (t : Timer) (ts : List Timer) → Sorted ts → Sorted (insert_timer t ts)
unfolding insert_timer
insert_timer-Sorted t [] v = (tt, tt)
insert_timer-Sorted t (u ∷ us) (p, v) = elim (Bool-cases (compare_timer t u)) [
  | inl e ↦
      let before : t.time ≤ u.time = ground arith in
      rw e ((before, From-le t.time u.time us before p), (p, v))
  | inr e ↦ rw e (insert_timer-From u.time t us (ground arith) p, insert_timer-Sorted t us v)
]

insert_timers-Sorted : (ts us : List Timer) → Sorted us → Sorted (insert_timers ts us)
unfolding insert_timers
insert_timers-Sorted [] us v = v
insert_timers-Sorted (t ∷ ts) us v =
    insert_timers-Sorted ts (insert_timer t us) (insert_timer-Sorted t us v)

remove_timer-From : (g time : ℕ) (ts : List Timer) → From time ts → From time (remove_timer g ts)
remove_timer-From g time [] h = tt
remove_timer-From g time (t ∷ ts) (p, ps) = elim (Bool-cases (t.generation == g)) [
  | inl e ↦ rw e (remove_timer-From g time ts ps)
  | inr e ↦ rw e (p, remove_timer-From g time ts ps)
]

remove_timer-Sorted : (g : ℕ) (ts : List Timer) → Sorted ts → Sorted (remove_timer g ts)
remove_timer-Sorted g [] v = tt
remove_timer-Sorted g (t ∷ ts) (p, v) = elim (Bool-cases (t.generation == g)) [
  | inl e ↦ rw e (remove_timer-Sorted g ts v)
  | inr e ↦ rw e (remove_timer-From g t.time ts p, remove_timer-Sorted g ts v)
]

length-remove_timer : (g : ℕ) (ts : List Timer) → length (remove_timer g ts) ≤ length ts
length-remove_timer g [] = omega arith
length-remove_timer g (t ∷ ts) = ground (arith, length-remove_timer g ts)

module _ {State : Type 0} where
  -- What a callback leaves of the active timers.
  record Leaves (d e : Timers State) : Type 0 where
    sorted : Sorted d.timers → Sorted e.timers
    fewer : length e.timers ≤ length d.timers
    log : e.fired ≡ d.fired

  Leaves-same : (d : Timers State) → Leaves d d
  Leaves-same d = record { sorted = λ v. v; fewer = omega arith; log = refl }

  Leaves-then : (d e f : Timers State) → Leaves d e → Leaves e f → Leaves d f
  Leaves-then d e f h k = record {
    sorted = λ v. k.sorted (h.sorted v);
    fewer = omega (arith, h.fewer, k.fewer);
    log = k.log ∙ h.log;
  }

  Leaves-cancel : (g : ℕ) (d : Timers State) → Leaves d (cancel g d)
  unfolding cancel
  Leaves-cancel g d = record {
    sorted = remove_timer-Sorted g d.timers;
    fewer = length-remove_timer g d.timers;
    log = refl;
  }

  Leaves-set_timeout : (t : Timer) (time : ℕ) (d : Timers State) → Leaves d (set_timeout t time d)
  unfolding set_timeout
  Leaves-set_timeout t time d =
      let c = Leaves-cancel t.generation d in
      record { sorted = c.sorted; fewer = c.fewer; log = c.log }

  Leaves-do_command : (now : ℕ) (c : Command) (d : Timers State) → Leaves d (do_command now c d)
  unfolding do_command post
  Leaves-do_command now (posts callback duration) d = record {
    sorted = λ v. v;
    fewer = omega arith;
    log = refl;
  }
  Leaves-do_command now (cancels g) d = elim (Option-cases (valid_timer g d)) [
    | inl e ↦ rw (e, do_command) (Leaves-same d)
    | inr (t, e) ↦ rw (e, do_command) (Leaves-cancel g d)
  ]
  Leaves-do_command now (delays neg g delta) d = elim (Option-cases (valid_timer g d)) [
    | inl e ↦ rw (e, do_command) (Leaves-same d)
    | inr (t, e) ↦ rw (e, do_command) (Leaves-set_timeout t _ d)
  ]
  Leaves-do_command now (resets g after) d = elim (Option-cases (valid_timer g d)) [
    | inl e ↦ rw (e, do_command) (Leaves-same d)
    | inr (t, e) ↦ rw (e, do_command) (Leaves-set_timeout t _ d)
  ]

  Leaves-do_commands :
      (now : ℕ) (cs : List Command) (d : Timers State) → Leaves d (do_commands now cs d)
  unfolding do_commands
  Leaves-do_commands now [] d = Leaves-same d
  Leaves-do_commands now (c ∷ cs) d =
      Leaves-then d (do_command now c d) _ (Leaves-do_command now c d) (Leaves-do_commands now cs _)

-- The timers fired are those before the time, and none of the active ones is.
abbrev pub Drained : {State : Type 0} → ℕ → Timers State → Timers State → Type 0
Drained now d e =
    ((new : List Timer) × ((e.fired ≡ d.fired ++ new) × All (λ t. t.time < now) new))
    × (From now e.timers × Sorted e.timers)

module _ {State : Type 0} (run : ℕ → State → State × List Command) where
  fired-then :
      (now : ℕ) (t : Timer) (c d e : Timers State)
      → t.time < now
      → c.fired ≡ d.fired ++ t ∷ []
      → Drained now c e
      → Drained now d e
  fired-then now t c d e h hc ((new, (hf, hn)), rest) =
      ((t ∷ new, (hf ∙ ap (λ l. l ++ new) hc ∙ append_assoc d.fired (t ∷ []) new, (h, hn))), rest)

  none_fired :
      {now : ℕ} (d : Timers State) (ts : List Timer)
      → From now ts
      → Sorted ts
      → Drained now d (record d { timers = ts })
  none_fired d ts h v = (([], (sym (append-nil d.fired), tt)), (h, v))

  fire_loop-Drained :
      (n now : ℕ) (d : Timers State) (ts : List Timer)
      → length ts ≤ n
      → Sorted ts
      → Drained now d (fire_loop run n now (record d { timers = ts }))
  unfolding fire_loop fire
  fire_loop-Drained zero now d [] l v = none_fired d [] tt tt
  fire_loop-Drained (suc n) now d [] l v = none_fired d [] tt tt
  fire_loop-Drained zero now d (t ∷ ts) l v = ground arith
  fire_loop-Drained (suc n) now d (t ∷ ts) l (p, v) = elim (Bool-cases (leb now t.time)) [
    | inl f ↦
        let late : now ≤ t.time = ground arith in
        rw f (none_fired d (t ∷ ts) (late, From-le now t.time ts late p) (p, v))
    | inr f ↦
        let (s, cs) = run t.callback d.state in
        let c : Timers State = record d { timers = ts; state = s; fired = d.fired ++ t ∷ [] } in
        let after = Leaves-do_commands now cs c in
        rw f (
          fired-then now t (do_commands now cs c) d (fire_loop run n now (do_commands now cs c))
            (ground arith) after.log
            (fire_loop-Drained n now (do_commands now cs c) (do_commands now cs c).timers
              (omega (arith, l, after.fewer)) (after.sorted v)))
  ]

  -- Whatever the callbacks do with timers, one poll fires, in the rounds that the timers admitted allow,
  -- only timers that were due before its time, and leaves no admitted timer that is due, where the active
  -- timers were sorted by their times; they are sorted again.
  pub poll-Drained : (now : ℕ) (d : Timers State) → Sorted d.timers → Drained now d (poll run now d)
  unfolding poll
  poll-Drained now d v =
      let admitted = insert_timers d.applicants d.timers in
      fire_loop-Drained (length admitted) now (record d { applicants = [] }) admitted (omega arith)
        (insert_timers-Sorted d.applicants d.timers v)
