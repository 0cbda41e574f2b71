-- ===== src/Messenger/Reassembly.antt =====
-- A binary stream is cut into its messages, however the reads split it.
use mathlib.Core.List.{append_assoc}
use nox13_interserver.Common.{
  ℕ, zero, suc, ◌+◌, ◌-◌, ◌≤◌, ◌<◌, ◌≡◌, refl, sym, ap, ◌∙◌, List, [], ◌∷◌, ◌++◌, arith, ltb, leb,
  ◌==◌, if◌then◌else◌, length, take, drop, get_or, length-append, length-take, take-append-drop,
  Bool-cases, inl, inr, lt→ltb,
}
use nox13_interserver.Common.Outcome.{ok}
use nox13_interserver.Messenger.Connection.{
  Connection, count, message, max_msg_size, process, end_of_message, take_block,
}
use nox13_interserver.Messenger.Binary.{
  header_size, binary_process_block, binary_msg_complete, messenger,
}

-- A message with its header: the length that it states is its own, and it fits the buffer.
pub record IsFrame (f : List ℕ) : Type 0 where
  pub has_header : 3 ≤ length f
  pub fits : length f ≤ max_msg_size
  pub stated : header_size f ≡ length f

-- The bytes of some messages, one after the other.
abbrev pub flat : List (List ℕ) → List ℕ
flat [] = []
flat (f ∷ fs) = f ++ flat fs

get_or-append : (xs ys : List ℕ) (i : ℕ) → i < length xs → get_or (xs ++ ys) i 0 ≡ get_or xs i 0
get_or-append [] ys i h = elim h [ ]
get_or-append (x ∷ xs) ys zero h = refl
get_or-append (x ∷ xs) ys (suc i) h = get_or-append xs ys i (omega arith)

header_size-append : (r s : List ℕ) → 2 ≤ length r → header_size (r ++ s) ≡ header_size r
unfolding header_size
header_size-append r s h =
    omega (arith, get_or-append r s 0 (omega arith), get_or-append r s 1 (omega arith))

-- Two beginnings of one stream state the same length.
header_size-same :
    (r s f t : List ℕ)
    → r ++ s ≡ f ++ t
    → 2 ≤ length r
    → 2 ≤ length f
    → header_size r ≡ header_size f
header_size-same r s f t e h g =
    sym (header_size-append r s h) ∙ ap header_size e ∙ header_size-append f t g

-- Two beginnings of one stream that are of one length are the same.
pub append_cancel :
    (xs ys zs ws : List ℕ) → xs ++ zs ≡ ys ++ ws → length xs ≡ length ys → (xs ≡ ys) × (zs ≡ ws)
append_cancel [] [] zs ws e h = (refl, e)
append_cancel [] (y ∷ ys) zs ws e h = absurd (omega arith)
append_cancel (x ∷ xs) [] zs ws e h = absurd (omega arith)
append_cancel (x ∷ xs) (y ∷ ys) zs ws e h = ground (arith, append_cancel xs ys zs ws)

-- How much processBlock takes, inside a message f of which r is received.
abbrev Takes : List ℕ → List ℕ → List ℕ → Type 0
Takes f r block =
    (n : ℕ) × (binary_process_block block r ≡ count n)
    × (0 < n)
    × (n ≤ length block)
    × (length r + n ≤ length f)

binary_process_block-Takes :
    (f r block s t : List ℕ)
    → IsFrame f
    → r ++ s ≡ f ++ t
    → length r < length f
    → 0 < length block
    → Takes f r block
unfolding binary_process_block
binary_process_block-Takes f r block s t v e h pos = elim (Bool-cases (ltb (length r) 2)) [
  | inl short ↦ elim (Bool-cases (ltb (length block) 2)) [
    | inl one ↦ (length block, rw (short, one), pos, omega arith, ground (arith, v))
    | inr more ↦ (2, rw (short, more), omega arith, ground arith, ground (arith, v))
  ]
  | inr long ↦
      let size : header_size r ≡ length f =
        header_size-same r s f t e (ground arith) (ground (arith, v)) ∙ v.stated in
      elim (Bool-cases (leb (length r + length block) (length f))) [
        | inl all ↦ (length block, rw (long, size, all), pos, omega arith, ground arith)
        | inr part ↦
            (length f - length r, ground (arith, size), omega arith, ground arith, omega arith)
      ]
]

-- Whether the bytes received are less than the first of the messages to come.
abbrev pub Partial : List ℕ → List (List ℕ) → Type 0
Partial r [] = r ≡ []
Partial r (f ∷ fs) = length r < length f

binary_msg_complete-same :
    (r s f t : List ℕ)
    → IsFrame f
    → r ++ s ≡ f ++ t
    → length r ≤ length f
    → binary_msg_complete r ≡ (length r == length f)
unfolding binary_msg_complete
binary_msg_complete-same r s f t v e h = elim (Bool-cases (ltb (length r) 3)) [
  | inl short ↦ ground (arith, v)
  | inr long ↦
      let size : header_size r ≡ length f =
        header_size-same r s f t e (ground arith) (ground (arith, v)) ∙ v.stated in
      ground (arith, size)
]

-- The connection after a round that took n bytes.
abbrev pub after_round : ℕ → List ℕ → ℕ → List ℕ → Connection messenger → Connection messenger
after_round now f n block c =
    let r = c.received ++ take n block in
    let c' : Connection messenger = record c { state = tt; received = r } in
    if length r == length f
    then record (process messenger now (message f) c') { received = [] }
    else c'

pub append_take-drop :
    (r block rest : List ℕ) (n : ℕ)
    → (r ++ take n block) ++ (drop n block ++ rest) ≡ r ++ (block ++ rest)
append_take-drop r block rest n =
    append_assoc r (take n block) (drop n block ++ rest)
    ∙ ap (λ x. r ++ x)
        (sym (append_assoc (take n block) (drop n block) rest)
          ∙ ap (λ x. x ++ rest) (take-append-drop n block))

end_of_message_lem :
    (now : ℕ) (f : List ℕ) (c : Connection messenger)
    → binary_msg_complete c.received ≡ (length c.received == length f)
    → (length c.received ≡ length f → c.received ≡ f)
    → 0 < length c.received
    → end_of_message messenger now c ≡ (
        if length c.received == length f
        then record (process messenger now (message f) c) { received = [] }
        else c)
unfolding end_of_message process
end_of_message_lem now f c complete whole pos = elim (Bool-cases (length c.received == length f)) [
  | inl full ↦
      let e : c.received ≡ f = whole (ground arith) in
      rw (complete, full, lt→ltb 0 (length c.received) pos)
        (ap
          (λ m. record c {
            last_active = now;
            echo_missed = 0;
            delivered = c.delivered ++ message m ∷ [];
            received = [];
          })
          e)
  | inr part ↦ rw (complete, part, lt→ltb 0 (length c.received) pos)
]

take_block_lem :
    (now n : ℕ) (block : List ℕ) (c d : Connection messenger)
    → binary_process_block block c.received ≡ count n
    → length c.received + n ≤ max_msg_size
    → end_of_message messenger now (record c { state = tt; received = c.received ++ take n block })
      ≡ d
    → take_block messenger now block c ≡ ok (drop n block, d)
unfolding take_block
take_block_lem now n block c d takes room ends = ground arith

-- One round of the loop inside a message.
pub round :
    (now : ℕ) (f t rest block : List ℕ) (c : Connection messenger)
    → IsFrame f
    → c.received ++ (block ++ rest) ≡ f ++ t
    → length c.received < length f
    → 0 < length block
    → (n : ℕ) × (take_block messenger now block c ≡ ok (drop n block, after_round now f n block c))
      × (0 < n)
      × (n ≤ length block)
      × (length c.received + n ≤ length f)
round now f t rest block c v e h pos =
    let (n, takes, some_bytes, within, inside) =
      binary_process_block-Takes f c.received block (block ++ rest) t v e h pos in
    let r = c.received ++ take n block in
    let stream : r ++ (drop n block ++ rest) ≡ f ++ t =
      append_take-drop c.received block rest n ∙ e in
    let len : length r ≡ length c.received + n =
      omega (arith, length-append c.received (take n block), length-take n block) in
    let complete = binary_msg_complete-same r (drop n block ++ rest) f t v stream (omega arith) in
    let c' : Connection messenger = record c { state = tt; received = r } in
    let ends =
      end_of_message_lem now f c' complete
        (λ same. (append_cancel r f (drop n block ++ rest) t stream same).0) (omega arith) in
    (
      n,
      take_block_lem now n block c (after_round now f n block c) takes (ground (arith, v)) ends,
      some_bytes,
      within,
      inside,
    )
