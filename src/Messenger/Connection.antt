-- ===== src/Messenger/Connection.antt =====
-- messenger_core.cc: a connection that cuts the bytes it reads into messages.
-- `endpointer` always points behind the first `currSize` bytes of `internalrecvbuf`, and both are
-- reset together; the model keeps those bytes as the list `received`.
use nox13_interserver.Common.{
  ℕ, zero, suc, ◌+◌, ◌-◌, ◌%◌, Bool, false, ◌&&◌, not, Option, none, some, List, [], ◌∷◌, ◌++◌, ltb,
  leb, ◌==◌, if◌then◌else◌, length, take, drop,
}
use nox13_interserver.Common.Outcome.{Outcome, ok, throws, undefined}

-- A ssize_t that processBlock returns: the bytes to take, or a negative number.
pub data Count : Type 0 where
  count : ℕ → Count
  negative : ℕ → Count

-- The part of `message_processor` that cuts messages. `State` is what the processor keeps for the
-- connection; process_block is given the block read and the bytes received before it.
pub record Processor : Type 1 where
  pub State : Type 0
  pub process_block : State → List ℕ → List ℕ → State × Count
  pub msg_complete : State → List ℕ → Bool

-- What reaches `message_processor::process`, and what is sent to the peer.
pub data Delivery : Type 0 where
  message : List ℕ → Delivery
  new_connection : Delivery
  disconnection : Delivery
  echo : Delivery

abbrev pub max_msg_size : ℕ
max_msg_size = 3072

module _ (P : Processor) where
  open P use {State, process_block, msg_complete}

  pub record Connection : Type 0 where
    pub state : State
    pub received : List ℕ
    pub last_active : ℕ
    pub echo_missed : ℕ
    pub running : Bool
    pub delivered : List Delivery

  -- messenger_connection::process
  unfoldable pub process : ℕ → Delivery → Connection → Connection
  process now d c = record c {
    last_active = now;
    echo_missed = 0;
    delivered = c.delivered ++ d ∷ [];
  }

  -- "End of message"
  unfoldable pub end_of_message : ℕ → Connection → Connection
  unfolding process
  end_of_message now c =
      if ltb 0 (length c.received) && msg_complete c.state c.received
      then record (process now (message c.received) c) { received = [] }
      else c

  -- One round of the loop of processBlock, up to the test of its condition: the rest of the block
  -- and the connection. A copy of a negative size, or past the end of the buffer, is undefined.
  unfoldable pub take_block : ℕ → List ℕ → Connection → Outcome (List ℕ × Connection)
  unfolding end_of_message
  take_block now block c =
      let (state, n) = process_block c.state block c.received in
      elim n [
        | negative k ↦ undefined
        | count n ↦
            if ltb max_msg_size (length c.received + n)
            then undefined
            else ok (
              drop n block,
              end_of_message now
                  (record c { state = state; received = c.received ++ take n block }),
            )
      ]

  -- The loop of processBlock; `none` if the rounds given do not suffice.
  unfoldable pub process_blocks : ℕ → ℕ → List ℕ → Connection → Option (Outcome Connection)
  process_blocks fuel now [] c = some (ok c)
  process_blocks zero now (b ∷ block) c = none
  process_blocks (suc fuel) now (b ∷ block) c = elim (take_block now (b ∷ block) c) [
    | throws e ↦ some (throws e)
    | undefined ↦ some undefined
    | ok (rest, c') ↦ process_blocks fuel now rest c'
  ]

  -- post_disconnect
  unfoldable pub post_disconnect : ℕ → Connection → Connection
  unfolding process
  post_disconnect now c = process now disconnection c

  -- The loop of `run` over what the reads return, an empty read standing for `dataSize <= 0`.
  unfoldable pub run : ℕ → List (ℕ × List ℕ) → Connection → Option (Outcome Connection)
  unfolding post_disconnect
  run fuel [] c = some (ok c)
  run fuel ((now, []) ∷ reads) c = some (ok (record (post_disconnect now c) { running = false }))
  run fuel ((now, b ∷ block) ∷ reads) c = elim (process_blocks fuel now (b ∷ block) c) [
    | none ↦ none
    | some (throws e) ↦ some (throws e)
    | some undefined ↦ some undefined
    | some (ok c') ↦ run fuel reads c'
  ]

  -- check_idle, for the processor's `idleInterval` and `thresholdEchoMissed`; whether it re-arms.
  unfoldable pub check_idle : ℕ → ℕ → ℕ → Connection → Connection × Bool
  unfolding post_disconnect
  check_idle interval threshold now c =
      let closed = record (post_disconnect now c) { running = false; received = [] } in
      let pinged = record c {
        echo_missed = (c.echo_missed + 1) % 256;
        delivered = c.delivered ++ echo ∷ [];
      } in
      let c' =
        if ltb interval (now - c.last_active)
        then if leb threshold c.echo_missed then closed else pinged
        else c in
      (c', c'.running && not (interval == 0))
