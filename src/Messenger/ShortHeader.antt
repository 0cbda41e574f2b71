-- ===== src/Messenger/ShortHeader.antt =====
-- Messages whose header states a length below that of a header with a type.
use nox13_interserver.Common.{ℕ, zero, suc, ◌<◌, ◌≡◌, refl, none, some, List, [], ◌∷◌, arith}
use nox13_interserver.Common.Outcome.{ok, undefined}
use nox13_interserver.Messenger.Connection.{Connection, take_block, process_blocks, end_of_message}
use nox13_interserver.Messenger.Binary.{
  header_size, binary_process_block, binary_msg_complete, messenger,
}

-- A round that takes nothing and changes nothing but the list that it appends nothing to.
take_nothing :
    (now b : ℕ) (block : List ℕ) (c : Connection messenger)
    → c.received ≡ 0 ∷ 2 ∷ []
    → take_block messenger now (b ∷ block) c ≡ ok (b ∷ block, record c { state = tt })
unfolding take_block end_of_message binary_process_block binary_msg_complete header_size
take_nothing now b block c e = ground arith

-- Once two bytes that state the length 2 are received, the loop over any further bytes does not
-- end: whatever the fuel, it runs out.
pub process_blocks-length_two :
    (fuel now b : ℕ) (block : List ℕ) (c : Connection messenger)
    → c.received ≡ 0 ∷ 2 ∷ []
    → process_blocks messenger fuel now (b ∷ block) c ≡ none
unfolding process_blocks
process_blocks-length_two zero now b block c e = refl
process_blocks-length_two (suc fuel) now b block c e =
    rw (take_nothing now b block c e, process_blocks)
      (process_blocks-length_two fuel now b block (record c { state = tt }) e)

-- Once two bytes that state the length 0 or 1 are received, any further byte is undefined
-- behaviour: the number of bytes to copy is negative.
pub process_blocks-length_below_two :
    (fuel now n b : ℕ) (block : List ℕ) (c : Connection messenger)
    → n < 2
    → c.received ≡ 0 ∷ n ∷ []
    → process_blocks messenger (suc fuel) now (b ∷ block) c ≡ some undefined
unfolding process_blocks take_block binary_process_block header_size
process_blocks-length_below_two fuel now n b block c h e = ground arith
