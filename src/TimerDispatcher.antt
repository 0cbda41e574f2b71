-- ===== src/TimerDispatcher.antt =====
-- Timer_dispatcher (lib/timer-dispatcher.cc), with callbacks that do not block. A time is a number of
-- microseconds, and a timer is known by its generation. What a callback does is to change a state and
-- to use timers; `now` is what do_gettimeofday returns until the next poll. A delay to before the
-- time 0 gives 0.
pub mod Drained
use nox13_interserver.Common.{
  ℕ, zero, suc, ◌+◌, ◌-◌, ◌%◌, ◌^◌, Bool, true, false, ◌&&◌, ◌||◌, List, [], ◌∷◌, ◌++◌, ltb, leb,
  ◌==◌, if◌then◌else◌, length, Option, none, some,
}

-- Timer_impl; a timer is admitted if it stands in `timers`.
pub record Timer : Type 0 where
  pub time : ℕ
  pub generation : ℕ
  pub callback : ℕ

-- What a callback does with timers: post, cancel, delay (to an earlier or a later time) and reset.
pub data Command : Type 0 where
  posts : ℕ → ℕ → Command
  cancels : ℕ → Command
  delays : Bool → ℕ → ℕ → Command
  resets : ℕ → ℕ → Command

-- Timer_dispatcher_impl, with the timers fired so far; all_timers are those of the two lists.
pub record Timers (State : Type 0) : Type 0 where
  pub timers : List Timer
  pub applicants : List Timer
  pub next_generation : ℕ
  pub fired : List Timer
  pub state : State

-- Compare_timer
abbrev pub compare_timer : Timer → Timer → Bool
compare_timer l r = if l.time == r.time then ltb l.generation r.generation else ltb l.time r.time

-- The insert of the set of active timers.
unfoldable pub insert_timer : Timer → List Timer → List Timer
insert_timer t [] = t ∷ []
insert_timer t (u ∷ us) =
    let rest = insert_timer t us in if compare_timer t u then t ∷ u ∷ us else u ∷ rest

unfoldable pub insert_timers : List Timer → List Timer → List Timer
unfolding insert_timer
insert_timers [] us = us
insert_timers (t ∷ ts) us = insert_timers ts (insert_timer t us)

abbrev pub remove_timer : ℕ → List Timer → List Timer
remove_timer g [] = []
remove_timer g (t ∷ ts) =
    let rest = remove_timer g ts in if t.generation == g then rest else t ∷ rest

abbrev pub find_timer : ℕ → List Timer → Option Timer
find_timer g [] = none
find_timer g (t ∷ ts) = if t.generation == g then some t else find_timer g ts

module _ {State : Type 0} where
  unfoldable pub post : ℕ → ℕ → ℕ → Timers State → Timers State
  post now callback duration d =
      let generation = (d.next_generation + 1) % 2 ^ 32 in
      record d {
        next_generation = generation;
        applicants =
            record { time = now + duration; generation = generation; callback = callback }
            ∷ d.applicants;
      }

  -- Timer_impl::cancel
  unfoldable pub cancel : ℕ → Timers State → Timers State
  cancel g d = record d {
    timers = remove_timer g d.timers;
    applicants = remove_timer g d.applicants;
  }

  -- Timer_impl::set_timeout
  unfoldable pub set_timeout : Timer → ℕ → Timers State → Timers State
  unfolding cancel
  set_timeout t time d =
      let c = cancel t.generation d in
      record c { applicants = record t { time = time } ∷ c.applicants }

  -- check_validity, and the timer that is valid.
  unfoldable pub valid_timer : ℕ → Timers State → Option Timer
  valid_timer g d = find_timer g (d.timers ++ d.applicants)

  unfoldable pub do_command : ℕ → Command → Timers State → Timers State
  unfolding post cancel set_timeout valid_timer
  do_command now (posts callback duration) d = post now callback duration d
  do_command now (cancels g) d = elim (valid_timer g d) [ none ↦ d | some t ↦ cancel g d ]
  do_command now (delays neg g delta) d = elim (valid_timer g d) [
    | none ↦ d
    | some t ↦ set_timeout t (if neg then t.time - delta else t.time + delta) d
  ]
  do_command now (resets g after) d = elim (valid_timer g d) [
    | none ↦ d
    | some t ↦ set_timeout t (now + after) d
  ]

  unfoldable pub do_commands : ℕ → List Command → Timers State → Timers State
  unfolding do_command
  do_commands now [] d = d
  do_commands now (c ∷ cs) d = do_commands now cs (do_command now c d)

module _ {State : Type 0} (run : ℕ → State → State × List Command) where
  -- The call of a timer that was taken out of the sets.
  unfoldable pub fire : ℕ → Timer → Timers State → Timers State
  unfolding do_commands
  fire now t d =
      let (s, cs) = run t.callback d.state in
      do_commands now cs (record d { state = s; fired = d.fired ++ t ∷ [] })

  -- The loop of poll, for some rounds.
  unfoldable pub fire_loop : ℕ → ℕ → Timers State → Timers State
  unfolding fire
  fire_loop zero now d = d
  fire_loop (suc n) now d = elim d.timers [
    | [] ↦ d
    | t ∷ ts ↦ if leb now t.time then d else fire_loop n now (fire now t (record d { timers = ts }))
  ]

  -- It returns whether it has fired a timer, which `fired` shows.
  unfoldable pub poll : ℕ → Timers State → Timers State
  unfolding insert_timers fire_loop
  poll now d =
      let admitted = insert_timers d.applicants d.timers in
      fire_loop (length admitted) now (record d { timers = admitted; applicants = [] })
