-- ===== src/Tests/EventTests.antt =====
-- An event dispatcher with two handlers, of which one posts an event.
use nox13_interserver.Common.{
  ℕ, ◌+◌, ◌%◌, ◌^◌, true, List, [], ◌∷◌, ◌++◌, String, ltb, length, ◌≡◌, refl,
}
use nox13_interserver.EventDispatcher.{
  Handler, continues, stops, Dispatcher, poll, poll_loop, dispatch, signal_of, run_signal,
  add_handler, insert_at, insert_handler, new_dispatcher, post,
}
use nox13_interserver.EventDispatcher.Polling.{handle_all, poll-handle_all}
use nox13_interserver.EventDispatcher.Ordering.{
  Registrations, add_handlers, registered, Sorted, of_order, add_handlers_order,
}

-- An event is a number; the state lists what was handled. The first handler posts the next number.
abbrev next : Handler (List ℕ) ℕ
next e s = record { state = s ++ e ∷ []; posted = (e + 1) ∷ []; ended = continues }

abbrev last : Handler (List ℕ) ℕ
last e s = record { state = s ++ (e + 100) ∷ []; posted = []; ended = stops }

abbrev two_handlers : Registrations (List ℕ) ℕ
two_handlers = ("tick", (5, last)) ∷ ("tick", (3, next)) ∷ []

abbrev tick : ℕ → String
tick e = "tick"

abbrev ready : Dispatcher (List ℕ) ℕ
ready = post 7 (post 1 (add_handlers two_handlers (new_dispatcher [])))

abbrev polled : Dispatcher (List ℕ) ℕ
polled = record {
  table = ("tick", (3, next) ∷ (5, last) ∷ []) ∷ [];
  queue = 2 ∷ 8 ∷ [];
  serial = 1;
  state = 1 ∷ 101 ∷ 7 ∷ 107 ∷ [];
}

-- The handlers are called by order, and what they post stays in the queue.
polls_once : poll tick ready ≡ (polled, true)
unfolding poll poll_loop dispatch signal_of run_signal add_handler insert_at insert_handler post
polls_once = refl

poll-handle_all_example : poll tick ready ≡ (
  handle_all tick ready.queue (record ready { queue = []; serial = (ready.serial + 1) % 2 ^ 32 }),
  ltb 0 (length ready.queue),
)
poll-handle_all_example = poll-handle_all tick ready

add_handlers_order_example :
    Sorted (signal_of "tick" (add_handlers two_handlers (new_dispatcher [])).table)
    × ((k : ℕ)
        → of_order k (signal_of "tick" (add_handlers two_handlers (new_dispatcher [])).table)
          ≡ of_order k (registered "tick" two_handlers))
add_handlers_order_example = add_handlers_order [] two_handlers "tick"
