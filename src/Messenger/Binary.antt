-- ===== src/Messenger/Binary.antt =====
-- messenger.cc: messages that begin with their length, 16 bits in network order.
use nox13_interserver.Common.{
  ℕ, ◌+◌, ◌-◌, ◌*◌, Bool, ◌&&◌, List, ltb, leb, ◌==◌, if◌then◌else◌, length, get_or,
}
use nox13_interserver.Messenger.Connection.{Processor, Count, count, negative}

-- ntohs(*((uint16_t*) data)). A byte that is not received yet is what the buffer held; the code
-- does not use the number then, and the model reads 0.
unfoldable pub header_size : List ℕ → ℕ
header_size bytes = get_or bytes 0 0 * 256 + get_or bytes 1 0

-- messenger::processBlock
unfoldable pub binary_process_block : List ℕ → List ℕ → Count
unfolding header_size
binary_process_block block received =
    let size = header_size received in
    if ltb (length received) 2
    then if ltb (length block) 2 then count (length block) else count 2
    else if leb (length received + length block) size
    then count (length block)
    else if ltb size (length received)
    then negative (length received - size)
    else count (size - length received)

-- messenger::msg_complete
unfoldable pub binary_msg_complete : List ℕ → Bool
unfolding header_size
binary_msg_complete received = header_size received == length received && ltb 2 (length received)

abbrev pub messenger : Processor
messenger = record {
  State = Unit {0};
  process_block = λ s block received. (tt, binary_process_block block received);
  msg_complete = λ s received. binary_msg_complete received;
}
