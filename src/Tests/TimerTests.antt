-- ===== src/Tests/TimerTests.antt =====
-- A timer dispatcher whose callbacks post a timer or cancel one.
use nox13_interserver.Common.{ℕ, List, [], ◌∷◌, ◌++◌, if◌then◌else◌, ◌==◌, ◌≡◌, refl, arith}
use nox13_interserver.TimerDispatcher.{
  Timer, Timers, Command, posts, cancels, poll, insert_timers, insert_timer, fire_loop, fire,
  do_commands, do_command, post, cancel, valid_timer,
}
use nox13_interserver.TimerDispatcher.Drained.{Drained, poll-Drained}

abbrev timer : ℕ → ℕ → ℕ → Timer
timer time generation callback = record {
  time = time;
  generation = generation;
  callback = callback;
}

-- Callback 1 cancels timer 3, and the others post callback 9 for at once; the state lists them.
abbrev run : ℕ → List ℕ → List ℕ × List Command
run callback s = (s ++ callback ∷ [], if callback == 1 then cancels 3 ∷ [] else posts 9 0 ∷ [])

abbrev waiting : Timers (List ℕ)
waiting = record {
  timers = timer 20 2 5 ∷ timer 30 3 6 ∷ timer 90 4 7 ∷ [];
  applicants = timer 10 5 1 ∷ [];
  next_generation = 5;
  fired = [];
  state = [];
}

abbrev polled : Timers (List ℕ)
polled = record {
  timers = timer 90 4 7 ∷ [];
  applicants = timer 50 6 9 ∷ [];
  next_generation = 6;
  fired = timer 10 5 1 ∷ timer 20 2 5 ∷ [];
  state = 1 ∷ 5 ∷ [];
}

-- The timer that the first callback cancels is not fired, nor is the one that the second posts.
polls_at_50 : poll run 50 waiting ≡ polled
unfolding poll insert_timers insert_timer fire_loop fire do_commands do_command post cancel
    valid_timer
polls_at_50 = refl

poll-Drained_example : Drained 50 waiting (poll run 50 waiting)
poll-Drained_example =
    poll-Drained run 50 waiting ((ground arith, (ground arith, tt)), ((ground arith, tt), (tt, tt)))
