-- ===== src/EventDispatcher/Polling.antt =====
-- What one poll handles (lib/event-dispatcher.cc, lines 59-103).
use nox13_interserver.Common.{
  ℕ, ◌+◌, ◌%◌, ◌^◌, List, [], ◌∷◌, ◌++◌, String, ltb, length, ◌≡◌, refl, sym, ap, ◌∙◌,
}
use mathlib.Core.List.{append-nil, append_assoc}
use nox13_interserver.EventDispatcher.{
  Ended, continues, stops, leaks, unless_stopped, Signal, Dispatcher, signal_of, run_signal,
  dispatch, poll_loop, poll,
}

module _ {State Event : Type 0} where
  -- The dispatcher with events before those of its queue.
  abbrev behind : List Event → Dispatcher State Event → Dispatcher State Event
  behind xs d = record d { queue = xs ++ d.queue }

  unless_stopped-behind :
      (xs : List Event) (x : Ended) (rest : Dispatcher State Event → Dispatcher State Event)
      (c d : Dispatcher State Event)
      → ((d : Dispatcher State Event) → rest (behind xs d) ≡ behind xs (rest d))
      → c ≡ behind xs d
      → unless_stopped x rest c ≡ behind xs (unless_stopped x rest d)
  unless_stopped-behind xs continues rest c d h e = ap rest e ∙ h d
  unless_stopped-behind xs stops rest c d h e = e
  unless_stopped-behind xs leaks rest c d h e = e

  run_signal-behind :
      (hs : Signal State Event) (e : Event) (xs : List Event) (d : Dispatcher State Event)
      → run_signal hs e (behind xs d) ≡ behind xs (run_signal hs e d)
  unfolding run_signal
  run_signal-behind [] e xs d = refl
  run_signal-behind ((o, h) ∷ hs) e xs d =
      let c = h e d.state in
      unless_stopped-behind xs c.ended (run_signal hs e) _ _ (run_signal-behind hs e xs)
        (ap (λ q. record d { state = c.state; queue = q }) (append_assoc xs d.queue c.posted))

module _ {State Event : Type 0} (name_of : Event → String) where
  -- The events one after the other, by the handlers that are registered.
  abbrev pub handle_all : List Event → Dispatcher State Event → Dispatcher State Event
  handle_all [] d = d
  handle_all (e ∷ es) d = handle_all es (dispatch name_of e d)

  poll_loop-handle_all :
      (es : List Event) (d : Dispatcher State Event)
      → poll_loop name_of (length es) (behind es d) ≡ handle_all es d
  unfolding poll_loop dispatch
  poll_loop-handle_all [] d = refl
  poll_loop-handle_all (e ∷ es) d =
      ap (poll_loop name_of (length es)) (run_signal-behind (signal_of (name_of e) d.table) e es d)
      ∙ poll_loop-handle_all es (dispatch name_of e d)

  -- One poll, whose handlers post events to the queue that it takes its events from, handles exactly
  -- the events that were in the queue, in their order, as if the queue had been emptied before: the
  -- events that the handlers post stay for the next poll, in the order in which they were posted.
  pub poll-handle_all :
      (d : Dispatcher State Event)
      → poll name_of d ≡ (
        handle_all d.queue (record d { queue = []; serial = (d.serial + 1) % 2 ^ 32 }),
        ltb 0 (length d.queue),
      )
  unfolding poll
  poll-handle_all d =
      let serial : ℕ = (d.serial + 1) % 2 ^ 32 in
      ap (λ x. (x, ltb 0 (length d.queue)))
        (ap (λ q. poll_loop name_of (length d.queue) (record d { queue = q; serial = serial }))
            (sym (append-nil d.queue))
          ∙ poll_loop-handle_all d.queue (record d { queue = []; serial = serial }))
