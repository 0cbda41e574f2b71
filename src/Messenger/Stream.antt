-- ===== src/Messenger/Stream.antt =====
-- The loop of a connection over a binary stream: it ends, and delivers the messages of the stream.
use mathlib.Core.List.{append_assoc, append-nil, map-append}
use nox13_interserver.Common.{
  ℕ, zero, suc, ◌+◌, ◌≤◌, ◌<◌, ◌≡◌, refl, sym, ap, ◌∙◌, Option, some, List, [], ◌∷◌, ◌++◌, map,
  arith, ◌==◌, length, take, drop, length-append, length-drop, length-take, All, Bool-cases, inl,
  inr,
}
use nox13_interserver.Common.Outcome.{Outcome, ok}
use nox13_interserver.Messenger.Connection.{
  Connection, Delivery, message, process, take_block, process_blocks, run,
}
use nox13_interserver.Messenger.Binary.{messenger}
use nox13_interserver.Messenger.Reassembly.{
  IsFrame, flat, Partial, append_cancel, append_take-drop, round,
}

-- The connection has taken its part of a stream: the messages done are delivered, in their order,
-- and what is received and what is to come are the messages left.
pub record Fed (frames : List (List ℕ)) (rest : List ℕ) (old : List Delivery)
    (c : Connection messenger) : Type 0 where
  pub finished : List (List ℕ)
  pub left : List (List ℕ)
  pub split : frames ≡ finished ++ left
  pub valid : All IsFrame left
  pub delivers : c.delivered ≡ old ++ map message finished
  pub stream : c.received ++ rest ≡ flat left
  pub within : Partial c.received left

-- A state with one more message delivered, seen from before it.
Fed-cons :
    (f : List ℕ) (fs : List (List ℕ)) (rest : List ℕ) (old : List Delivery)
    (c : Connection messenger)
    → Fed fs rest (old ++ message f ∷ []) c
    → Fed (f ∷ fs) rest old c
Fed-cons f fs rest old c d = record {
  finished = f ∷ d.finished;
  left = d.left;
  split = ap (◌∷◌ f) d.split;
  valid = d.valid;
  delivers = d.delivers ∙ append_assoc old (message f ∷ []) (map message d.finished);
  stream = d.stream;
  within = d.within;
}

Fed-start :
    (frames : List (List ℕ)) (rest : List ℕ) (c : Connection messenger)
    → All IsFrame frames
    → c.received ++ rest ≡ flat frames
    → Partial c.received frames
    → Fed frames rest c.delivered c
Fed-start frames rest c v e p = record {
  finished = [];
  left = frames;
  split = refl;
  valid = v;
  delivers = sym (append-nil c.delivered);
  stream = e;
  within = p;
}

-- The result of the loop over a block.
abbrev Feeds : ℕ → ℕ → List ℕ → List (List ℕ) → List ℕ → Connection messenger → Type 0
Feeds fuel now block frames rest c =
    (c' : Connection messenger) × (process_blocks messenger fuel now block c ≡ some (ok c'))
    × Fed frames rest c.delivered c'

Partial-nil : (frames : List (List ℕ)) → All IsFrame frames → Partial [] frames
Partial-nil [] v = refl
Partial-nil (f ∷ fs) v = omega (arith, v.0.has_header)

process_blocks-round :
    (fuel now b : ℕ) (block later : List ℕ) (c d : Connection messenger)
    → take_block messenger now (b ∷ block) c ≡ ok (later, d)
    → process_blocks messenger (suc fuel) now (b ∷ block) c
      ≡ process_blocks messenger fuel now later d
unfolding process_blocks
process_blocks-round fuel now b block later c d e = rw (e, process_blocks)

process_blocks-Feeds :
    (fuel now : ℕ) (block : List ℕ) (frames : List (List ℕ)) (rest : List ℕ)
    (c : Connection messenger)
    → length block ≤ fuel
    → All IsFrame frames
    → c.received ++ (block ++ rest) ≡ flat frames
    → Partial c.received frames
    → Feeds fuel now block frames rest c
unfolding process_blocks process
process_blocks-Feeds fuel now [] frames rest c enough v e p =
    (c, refl, Fed-start frames rest c v e p)
process_blocks-Feeds zero now (b ∷ block) frames rest c enough v e p = absurd (omega arith)
process_blocks-Feeds (suc fuel) now (b ∷ block) [] rest c enough v e p =
    absurd (omega (arith, ap length e, length-append c.received ((b ∷ block) ++ rest)))
process_blocks-Feeds (suc fuel) now (b ∷ block) (f ∷ fs) rest c enough v e p =
    let (n, steps, some_bytes, in_block, in_frame) =
      round now f (flat fs) rest (b ∷ block) c v.0 e p (omega arith) in
    let r = c.received ++ take n (b ∷ block) in
    let later = drop n (b ∷ block) in
    let stream : r ++ (later ++ rest) ≡ f ++ flat fs =
      append_take-drop c.received (b ∷ block) rest n ∙ e in
    let len : length r ≡ length c.received + n =
      omega (arith, length-append c.received (take n (b ∷ block)), length-take n (b ∷ block)) in
    let shorter : length later ≤ fuel = omega (arith, length-drop n (b ∷ block)) in
    let c1 : Connection messenger = record c { state = tt; received = r } in
    let c2 : Connection messenger = record (process messenger now (message f) c1) {
      received = [];
    } in
    elim (Bool-cases (length r == length f)) [
      | inl full ↦
          let steps2 : take_block messenger now (b ∷ block) c ≡ ok (later, c2) =
            steps ∙ ap (λ x. ok (later, x)) (rw full) in
          let same : length r ≡ length f = ground arith in
          let (c', e', d) =
            process_blocks-Feeds fuel now later fs rest c2 shorter v.1
              (append_cancel r f (later ++ rest) (flat fs) stream same).1 (Partial-nil fs v.1) in
          (
            c',
            process_blocks-round fuel now b block later c c2 steps2 ∙ e',
            Fed-cons f fs rest c.delivered c' d,
          )
      | inr part ↦
          let steps1 : take_block messenger now (b ∷ block) c ≡ ok (later, c1) =
            steps ∙ ap (λ x. ok (later, x)) (rw part) in
          let (c', e', d) =
            process_blocks-Feeds fuel now later (f ∷ fs) rest c1 shorter v stream (ground arith) in
          (c', process_blocks-round fuel now b block later c c1 steps1 ∙ e', d)
    ]

-- What some reads returned, one after the other, with the times of the reads.
abbrev pub bytes_of : List (ℕ × List ℕ) → List ℕ
bytes_of [] = []
bytes_of ((now, block) ∷ reads) = block ++ bytes_of reads

-- No read fails, and none is longer than the fuel for one block.
abbrev pub Reads : ℕ → List (ℕ × List ℕ) → Type 0
Reads fuel [] = Unit {0}
Reads fuel ((now, block) ∷ reads) = (0 < length block) × (length block ≤ fuel) × Reads fuel reads

-- A connection to which a whole stream was fed.
abbrev pub Reassembled :
    List (List ℕ) → Connection messenger → Option (Outcome (Connection messenger)) → Type 0
Reassembled frames c r =
    (c' : Connection messenger) × (r ≡ some (ok c'))
    × (c'.received ≡ [])
    × (c'.delivered ≡ c.delivered ++ map message frames)

Fed-complete :
    (frames : List (List ℕ)) (old : List Delivery) (c : Connection messenger)
    → Fed frames [] old c
    → (c.received ≡ []) × (c.delivered ≡ old ++ map message frames)
Fed-complete frames old c d = all d.left d.split d.stream d.within
  where
    all :
        (left : List (List ℕ))
        → frames ≡ d.finished ++ left
        → c.received ++ [] ≡ flat left
        → Partial c.received left
        → (c.received ≡ []) × (c.delivered ≡ old ++ map message frames)
    all [] split stream within =
        (within, d.delivers ∙ ap (λ x. old ++ map message x) (sym (split ∙ append-nil d.finished)))
    all (f ∷ fs) split stream within =
        absurd
          (omega (arith, ap length stream, length-append c.received [], length-append f (flat fs)))

join_delivered :
    (old new : List Delivery) (done left frames : List (List ℕ))
    → new ≡ old ++ map message done
    → frames ≡ done ++ left
    → new ++ map message left ≡ old ++ map message frames
join_delivered old new done left frames e s =
    ap (λ x. x ++ map message left) e
    ∙ append_assoc old (map message done) (map message left)
    ∙ ap (λ x. old ++ x) (sym (ap (map message) s ∙ map-append message done left))

run_reassembles :
    (fuel : ℕ) (reads : List (ℕ × List ℕ)) (frames : List (List ℕ)) (c : Connection messenger)
    → Reads fuel reads
    → All IsFrame frames
    → c.received ++ bytes_of reads ≡ flat frames
    → Partial c.received frames
    → Reassembled frames c (run messenger fuel reads c)
unfolding run
run_reassembles fuel [] frames c ok_reads v e p =
    let d = Fed-complete frames c.delivered c (Fed-start frames [] c v e p) in (c, refl, d.0, d.1)
run_reassembles fuel ((now, []) ∷ reads) frames c ok_reads v e p = elim ok_reads.0 [ ]
run_reassembles fuel ((now, b ∷ block) ∷ reads) frames c ok_reads v e p =
    let (c1, fed, d) =
      process_blocks-Feeds fuel now (b ∷ block) frames (bytes_of reads) c ok_reads.1 v e p in
    let (c2, ran, empty, delivers) =
      run_reassembles fuel reads d.left c1 ok_reads.2 d.valid d.stream d.within in
    (
      c2,
      rw (fed, run) ran,
      empty,
      delivers
          ∙ join_delivered c.delivered c1.delivered d.finished d.left frames d.delivers d.split,
    )

-- If no read fails and none is longer than the fuel, what the reads return is a stream of messages of
-- 3 to 3072 bytes that state their own length, and no bytes were received before, then, however the
-- reads split the stream, the loop ends, leaves no bytes over, and delivers exactly those messages, in
-- their order.
pub run-Reassembled :
    (fuel : ℕ) (reads : List (ℕ × List ℕ)) (frames : List (List ℕ)) (c : Connection messenger)
    → Reads fuel reads
    → All IsFrame frames
    → c.received ≡ []
    → bytes_of reads ≡ flat frames
    → Reassembled frames c (run messenger fuel reads c)
run-Reassembled fuel reads frames c ok_reads v fresh e =
    run_reassembles fuel reads frames c ok_reads v (rw fresh e) (rw fresh (Partial-nil frames v))
