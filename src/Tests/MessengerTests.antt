-- ===== src/Tests/MessengerTests.antt =====
-- A connection of `messenger` fed with concrete bytes.
use nox13_interserver.Common.{ℕ, ◌≡◌, ◌≢◌, refl, some, none, true, List, [], ◌∷◌, arith, All}
use nox13_interserver.Common.Outcome.{ok, undefined}
use nox13_interserver.Messenger.Connection.{
  Connection, message, run, check_idle, process_blocks, take_block, end_of_message, process,
}
use nox13_interserver.Messenger.Binary.{messenger, header_size}
use nox13_interserver.Messenger.Reassembly.{IsFrame}
use nox13_interserver.Messenger.Stream.{run-Reassembled, Reassembled}
use nox13_interserver.Messenger.JsonFraming.{
  jsonmessenger, process_blocks-json_ends, json_process_block, json_msg_complete, scan, count_byte,
}
use nox13_interserver.Messenger.Idle.{idle_checks, idle_checks-Closed, Closed}
use nox13_interserver.Messenger.ShortHeader.{
  process_blocks-length_two, process_blocks-length_below_two,
}

abbrev json_connection : Connection jsonmessenger
json_connection = record {
  state = record { brackets = 0; braces = 0 };
  received = [];
  last_active = 0;
  echo_missed = 0;
  running = true;
  delivered = [];
}

process_blocks-json_ends_example :
    process_blocks jsonmessenger 4 0 (123 ∷ 34 ∷ 34 ∷ 125 ∷ []) json_connection ≢ none
process_blocks-json_ends_example =
    process_blocks-json_ends 4 0 (123 ∷ 34 ∷ 34 ∷ 125 ∷ []) json_connection (omega arith)

-- "[1 ][][]" is cut into "[1 ]" and "[][]": a pair of brackets alone is too short to be a message.
json_two_messages :
    process_blocks jsonmessenger 8 0 (91 ∷ 49 ∷ 32 ∷ 93 ∷ 91 ∷ 93 ∷ 91 ∷ 93 ∷ []) json_connection
    ≡ some (
        ok (record json_connection {
          delivered = message (91 ∷ 49 ∷ 32 ∷ 93 ∷ []) ∷ message (91 ∷ 93 ∷ 91 ∷ 93 ∷ []) ∷ [];
        }))
unfolding process_blocks take_block end_of_message process json_process_block json_msg_complete scan
    count_byte
json_two_messages = refl

abbrev fresh_connection : List ℕ → Connection messenger
fresh_connection bytes = record {
  state = tt;
  received = bytes;
  last_active = 0;
  echo_missed = 0;
  running = true;
  delivered = [];
}

-- Two messages of 3 and 4 bytes, cut in the header of the second.
abbrev two_reads : List (ℕ × List ℕ)
two_reads = (10, 0 ∷ 3 ∷ 7 ∷ 0 ∷ []) ∷ (11, 4 ∷ 8 ∷ 9 ∷ []) ∷ []

abbrev two_frames : List (List ℕ)
two_frames = (0 ∷ 3 ∷ 7 ∷ []) ∷ (0 ∷ 4 ∷ 8 ∷ 9 ∷ []) ∷ []

two_frames-IsFrame : All IsFrame two_frames
unfolding header_size
two_frames-IsFrame = (
  record { has_header = omega arith; fits = omega arith; stated = refl },
  (record { has_header = omega arith; fits = omega arith; stated = refl }, tt),
)

run-Reassembled_example :
    Reassembled two_frames (fresh_connection []) (run messenger 4 two_reads (fresh_connection []))
run-Reassembled_example =
    run-Reassembled 4 two_reads two_frames (fresh_connection []) (ground arith) two_frames-IsFrame
      refl refl

process_blocks-length_two_example :
    process_blocks messenger 5 0 (9 ∷ []) (fresh_connection (0 ∷ 2 ∷ [])) ≡ none
process_blocks-length_two_example =
    process_blocks-length_two 5 0 9 [] (fresh_connection (0 ∷ 2 ∷ [])) refl

process_blocks-length_below_two_example :
    process_blocks messenger 1 0 (9 ∷ []) (fresh_connection (0 ∷ 1 ∷ [])) ≡ some undefined
process_blocks-length_below_two_example =
    process_blocks-length_below_two 0 0 1 9 [] (fresh_connection (0 ∷ 1 ∷ [])) (omega arith) refl

-- Three checks, each more than 10 seconds after time 0, for a threshold of 2.
idle_checks-Closed_example :
    Closed messenger 2
      (fresh_connection [])
      (check_idle messenger 10 2 40
        (idle_checks messenger 10 2 (20 ∷ 30 ∷ []) (fresh_connection []))).0
idle_checks-Closed_example =
    idle_checks-Closed messenger 10 2 40 (20 ∷ 30 ∷ []) (fresh_connection []) (ground arith)
      (omega arith) (omega arith) (omega arith)
