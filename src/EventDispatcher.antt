-- ===== src/EventDispatcher.antt =====
-- Event_dispatcher (lib/event-dispatcher.cc, include/event-dispatcher.hh), with handlers that do not
-- block: what a handler does is to change a state, to post events and to end. An order, which is an
-- int, is given with 2^31 added. A multimap's insert puts an entry after those of an equal key.
pub mod Polling
pub mod Ordering
use text.Mathlib.Text.{◌==◌ as string_eq}
use nox13_interserver.Common.{
  ℕ, zero, suc, ◌+◌, ◌%◌, ◌^◌, Bool, true, false, Option, none, some, List, [], ◌∷◌, ◌++◌, String,
  ltb, if◌then◌else◌, length,
}

-- How a call of a handler ends: CONTINUE, STOP, or a std::exception.
pub data Ended : Type 0 where
  continues stops leaks : Ended

pub record Called (State Event : Type 0) : Type 0 where
  pub state : State
  pub posted : List Event
  pub ended : Ended

abbrev pub Handler : Type 0 → Type 0 → Type 0
Handler State Event = Event → State → Called State Event

abbrev pub Signal : Type 0 → Type 0 → Type 0
Signal State Event = List (ℕ × Handler State Event)

-- Event_dispatcher_impl, with the state of the components that the handlers belong to.
pub record Dispatcher (State Event : Type 0) : Type 0 where
  pub table : List (String × Signal State Event)
  pub queue : List Event
  pub serial : ℕ
  pub state : State

-- The rest of the loop, where the handler returned CONTINUE.
abbrev pub unless_stopped : {A : Type 0} → Ended → (A → A) → A → A
unless_stopped continues rest d = rest d
unless_stopped stops rest d = d
unless_stopped leaks rest d = d

module _ {State Event : Type 0} where
  -- Event_dispatcher::Event_dispatcher
  abbrev pub new_dispatcher : State → Dispatcher State Event
  new_dispatcher s = record { table = []; queue = []; serial = 0; state = s }

  unfoldable pub insert_handler : ℕ → Handler State Event → Signal State Event → Signal State Event
  insert_handler order handler [] = (order, handler) ∷ []
  insert_handler order handler ((o, h) ∷ s) =
      let rest = insert_handler order handler s in
      if ltb order o then (order, handler) ∷ (o, h) ∷ s else (o, h) ∷ rest

  -- `table[name].insert(…)`, which adds the name if it is not there.
  unfoldable pub insert_at :
      String
      → ℕ
      → Handler State Event
      → List (String × Signal State Event)
      → List (String × Signal State Event)
  unfolding insert_handler
  insert_at name order handler [] = (name, (order, handler) ∷ []) ∷ []
  insert_at name order handler ((n, s) ∷ t) =
      let rest = insert_at name order handler t in
      if string_eq n name then (n, insert_handler order handler s) ∷ t else (n, s) ∷ rest

  unfoldable pub add_handler :
      String → Handler State Event → ℕ → Dispatcher State Event → Dispatcher State Event
  unfolding insert_at
  add_handler name handler order d = record d { table = insert_at name order handler d.table }

  unfoldable pub post : Event → Dispatcher State Event → Dispatcher State Event
  post event d = record d { queue = d.queue ++ event ∷ [] }

  -- The handlers of a name; none are called where the name is not in the table.
  unfoldable pub signal_of : String → List (String × Signal State Event) → Signal State Event
  signal_of name [] = []
  signal_of name ((n, s) ∷ t) = if string_eq n name then s else signal_of name t

  unfoldable pub run_signal :
      Signal State Event → Event → Dispatcher State Event → Dispatcher State Event
  run_signal [] e d = d
  run_signal ((o, h) ∷ hs) e d =
      let c = h e d.state in
      let after = record d { state = c.state; queue = d.queue ++ c.posted } in
      unless_stopped c.ended (run_signal hs e) after

module _ {State Event : Type 0} (name_of : Event → String) where
  unfoldable pub dispatch : Event → Dispatcher State Event → Dispatcher State Event
  unfolding signal_of run_signal
  dispatch e d = run_signal (signal_of (name_of e) d.table) e d

  -- The loop of poll. No handler blocks, so that the serial number stays.
  unfoldable pub poll_loop : ℕ → Dispatcher State Event → Dispatcher State Event
  unfolding dispatch
  poll_loop zero d = d
  poll_loop (suc n) d = elim d.queue [
    | [] ↦ d
    | e ∷ es ↦ poll_loop n (dispatch e (record d { queue = es }))
  ]

  unfoldable pub poll : Dispatcher State Event → Dispatcher State Event × Bool
  unfolding poll_loop
  poll d = (
    poll_loop (length d.queue) (record d { serial = (d.serial + 1) % 2 ^ 32 }),
    ltb 0 (length d.queue),
  )
