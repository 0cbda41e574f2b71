-- ===== src/Messenger/JsonFraming.antt =====
-- jsonmessenger.cc: messages that end where brackets and braces are balanced.
use nox13_interserver.Common.{
  ℕ, zero, suc, ◌+◌, ◌-◌, ◌≤◌, ◌<◌, ◌≡◌, ◌≢◌, Bool, ◌&&◌, none, List, [], ◌∷◌, ltb, ◌==◌,
  if◌then◌else◌, length, length-drop, arith, inl, inr,
}
use nox13_interserver.Common.Outcome.{ok, Outcome-cases}
use nox13_interserver.Messenger.Connection.{
  Processor, Count, count, Connection, take_block, process_blocks,
}

pub record Counters : Type 0 where
  pub brackets : ℕ
  pub braces : ℕ

abbrev balanced : Counters → Bool
balanced c = c.brackets == 0 && c.braces == 0

-- The switch of processBlock on one byte. A closing byte without an opening one is logged.
unfoldable pub count_byte : ℕ → ℕ → Counters → Counters
count_byte prev byte c =
    if prev == 92
    then c
    else if byte == 91
    then record c { brackets = c.brackets + 1 }
    else if byte == 93
    then record c { brackets = c.brackets - 1 }
    else if byte == 123
    then record c { braces = c.braces + 1 }
    else if byte == 125
    then record c { braces = c.braces - 1 }
    else c

-- The loop of processBlock from index j on.
unfoldable pub scan : ℕ → ℕ → ℕ → List ℕ → Counters → Counters × ℕ
unfolding count_byte
scan curr_size j prev [] c = (c, j)
scan curr_size j prev (byte ∷ rest) c =
    let c' = count_byte prev byte c in
    let more = scan curr_size (suc j) byte rest c' in
    if ltb 2 (curr_size + j) && balanced c' then (c', suc j) else more

abbrev last_byte : ℕ → List ℕ → ℕ
last_byte prev [] = prev
last_byte prev (b ∷ bs) = last_byte b bs

-- jsonmessenger::processBlock
unfoldable pub json_process_block : Counters → List ℕ → List ℕ → Counters × Count
unfolding scan
json_process_block c block received =
    let (c', n) = scan (length received) 0 (last_byte 0 received) block c in (c', count n)

-- jsonmessenger::msg_complete
unfoldable pub json_msg_complete : Counters → List ℕ → Bool
json_msg_complete c received = ltb 1 (length received) && balanced c

abbrev pub jsonmessenger : Processor
jsonmessenger = record {
  State = Counters;
  process_block = json_process_block;
  msg_complete = json_msg_complete;
}

scan_bounds :
    (curr_size j prev : ℕ) (block : List ℕ) (c : Counters)
    → (j ≤ (scan curr_size j prev block c).1)
      × ((scan curr_size j prev block c).1 ≤ j + length block)
unfolding scan
scan_bounds curr_size j prev [] c = (omega arith, omega arith)
scan_bounds curr_size j prev (byte ∷ rest) c =
    ground (arith, scan_bounds curr_size (suc j) byte rest (count_byte prev byte c))

-- Of a block that is not empty at least one byte is taken.
scan_takes :
    (curr_size j prev byte : ℕ) (rest : List ℕ) (c : Counters)
    → j < (scan curr_size j prev (byte ∷ rest) c).1
unfolding scan
scan_takes curr_size j prev byte rest c =
    ground (arith, scan_bounds curr_size (suc j) byte rest (count_byte prev byte c))

take_block-shorter :
    (now b : ℕ) (block rest : List ℕ) (c c' : Connection jsonmessenger)
    → take_block jsonmessenger now (b ∷ block) c ≡ ok (rest, c')
    → length rest ≤ length block
unfolding take_block json_process_block
take_block-shorter now b block rest c c' h = ground (
  arith,
  scan_takes (length c.received) 0 (last_byte 0 c.received) b block c.state,
  length-drop (scan (length c.received) 0 (last_byte 0 c.received) (b ∷ block) c.state).1
      (b ∷ block),
)

-- The loop over a block read by a JSON connection ends within as many rounds as the block has bytes,
-- whatever the bytes and what was received before.
pub process_blocks-json_ends :
    (fuel now : ℕ) (block : List ℕ) (c : Connection jsonmessenger)
    → length block ≤ fuel
    → process_blocks jsonmessenger fuel now block c ≢ none
unfolding process_blocks
process_blocks-json_ends fuel now [] c h = λ e. cc
process_blocks-json_ends zero now (b ∷ block) c h = λ e. omega arith
process_blocks-json_ends (suc fuel) now (b ∷ block) c h =
    elim (Outcome-cases (take_block jsonmessenger now (b ∷ block) c)) [
      | inl ((rest, c'), t) ↦
          rw (t, process_blocks)
            (process_blocks-json_ends fuel now rest c'
              (ground (arith, take_block-shorter now b block rest c c' t)))
      | inr (inl (x, t)) ↦ rw (t, process_blocks) (λ e. cc)
      | inr (inr t) ↦ rw (t, process_blocks) (λ e. cc)
    ]
