-- ===== src/Logs/Buffer/Hours.antt =====
-- No row is lost, reordered or put under another hour (spoki/libspoki/src/buffer.cpp).
use spoki.Prelude.{
  ℕ, ◌≤◌, ◌≡◌, refl, ap, ◌∙◌, sym, Bool, true, false, List, [], ◌∷◌, ◌++◌, arith, ltb, ◌==◌,
  if◌then◌else◌, length, if-both, append_assoc, append-nil,
}
use spoki.Logs.{Bytes, align_to_hour}
use spoki.Logs.Buffer.{
  BufferState, Chunk, buffer, send, turn_hour, append, Message, entry, returned, handle, handle_all,
}

-- the bytes of the chunks of an hour
abbrev pub of_hour : ℕ → List Chunk → Bytes
of_hour hour [] = []
of_hour hour ((text, ts) ∷ cs) = (if ts == hour then text else []) ++ of_hour hour cs

-- what is waiting for an hour
abbrev pub waiting : ℕ → BufferState → Bytes
waiting hour s = if s.unix_ts == hour then s.buffer else []

-- the rows of an hour, as they arrive
abbrev pub rows_of : ℕ → Message → Bytes
rows_of hour (entry text unix_ts) = if align_to_hour unix_ts == hour then text ++ 10 ∷ [] else []
rows_of hour (returned buf) = []

abbrev pub all_rows : ℕ → List Message → Bytes
all_rows hour [] = []
all_rows hour (m ∷ ms) = rows_of hour m ++ all_rows hour ms

of_hour-append :
    (hour : ℕ) (cs ds : List Chunk) → of_hour hour (cs ++ ds) ≡ of_hour hour cs ++ of_hour hour ds
of_hour-append hour [] ds = refl
of_hour-append hour (c ∷ cs) ds =
    ap (λ x. (if c.1 == hour then c.0 else []) ++ x) (of_hour-append hour cs ds)
    ∙ sym (append_assoc _ (of_hour hour cs) (of_hour hour ds))

-- no full buffer is kept, and what came back is empty
pub record IsBounded (s : BufferState) : Type 0 where
  pub below : length s.buffer ≤ s.write_threshold
  pub cleared : s.next_buffer ≡ []

turn_hour-waiting :
    (aligned hour : ℕ) (s : BufferState)
    → s.next_buffer ≡ []
    → of_hour hour (turn_hour aligned s).1 ++ waiting hour (turn_hour aligned s).0 ≡ waiting hour s
unfolding turn_hour send
turn_hour-waiting aligned hour s e = ground (arith, append-nil s.buffer)

turn_hour-hour : (aligned : ℕ) (s : BufferState) → (turn_hour aligned s).0.unix_ts ≡ aligned
unfolding turn_hour send
turn_hour-hour aligned s = ground arith

send-waiting :
    (hour : ℕ) (s : BufferState)
    → s.next_buffer ≡ []
    → of_hour hour (send s).1 ++ waiting hour (send s).0 ≡ waiting hour s
unfolding send
send-waiting hour s e = ground (arith, append-nil s.buffer)

append-waiting :
    (text : Bytes) (hour : ℕ) (s : BufferState)
    → s.next_buffer ≡ []
    → of_hour hour (append text s).1 ++ waiting hour (append text s).0
      ≡ waiting hour s ++ (if s.unix_ts == hour then text ++ 10 ∷ [] else [])
unfolding append
append-waiting text hour s e =
    let full = s.buffer ++ text ++ 10 ∷ [] in
    if-both
      (λ (x : BufferState × List Chunk).
        of_hour hour x.1 ++ waiting hour x.0
        ≡ waiting hour s ++ (if s.unix_ts == hour then text ++ 10 ∷ [] else []))
      (ltb s.write_threshold (length full))
      (send-waiting hour (record s { buffer = full }) e ∙ spread (s.unix_ts == hour))
      (spread (s.unix_ts == hour))
  where
    spread :
        (b : Bool)
        → (if b then s.buffer ++ text ++ 10 ∷ [] else [])
          ≡ (if b then s.buffer else []) ++ (if b then text ++ 10 ∷ [] else [])
    spread true = append_assoc s.buffer text (10 ∷ [])
    spread false = refl

turn_hour-IsBounded :
    (aligned : ℕ) (s : BufferState) → IsBounded s → IsBounded (turn_hour aligned s).0
unfolding turn_hour send
turn_hour-IsBounded aligned s v = record { below = ground arith; cleared = ground arith }

append-IsBounded : (text : Bytes) (s : BufferState) → IsBounded s → IsBounded (append text s).0
unfolding append send
append-IsBounded text s v = record { below = ground arith; cleared = ground arith }

-- A buffer that was filled up to its threshold at most still is after any message.
pub handle-IsBounded : (m : Message) (s : BufferState) → IsBounded s → IsBounded (handle m s).0
unfolding handle
handle-IsBounded (entry text unix_ts) s v =
    append-IsBounded text _ (turn_hour-IsBounded (align_to_hour unix_ts) s v)
handle-IsBounded (returned buf) s v = record { below = v.below; cleared = refl }

handle-waiting :
    (hour : ℕ) (m : Message) (s : BufferState)
    → IsBounded s
    → of_hour hour (handle m s).1 ++ waiting hour (handle m s).0 ≡ waiting hour s ++ rows_of hour m
unfolding handle
handle-waiting hour (returned buf) s v = sym (append-nil (waiting hour s))
handle-waiting hour (entry text unix_ts) s v =
    let aligned = align_to_hour unix_ts in
    let s1 = (turn_hour aligned s).0 in
    let cs = (turn_hour aligned s).1 in
    let w = waiting hour (append text s1).0 in
    let row = λ (h : ℕ). if h == hour then text ++ 10 ∷ [] else [] in
    ap (λ x. x ++ w) (of_hour-append hour cs (append text s1).1)
    ∙ append_assoc (of_hour hour cs) (of_hour hour (append text s1).1) w
    ∙ ap (λ x. of_hour hour cs ++ x)
        (append-waiting text hour s1 (turn_hour-IsBounded aligned s v).cleared)
    ∙ sym (append_assoc (of_hour hour cs) (waiting hour s1) (row s1.unix_ts))
    ∙ ap (λ x. x ++ row s1.unix_ts) (turn_hour-waiting aligned hour s v.cleared)
    ∙ ap (λ h. waiting hour s ++ row h) (turn_hour-hour aligned s)

handle_all-waiting :
    (hour : ℕ) (ms : List Message) (s : BufferState)
    → IsBounded s
    → of_hour hour (handle_all ms s).1 ++ waiting hour (handle_all ms s).0
      ≡ waiting hour s ++ all_rows hour ms
unfolding handle_all
handle_all-waiting hour [] s v = sym (append-nil (waiting hour s))
handle_all-waiting hour (m ∷ ms) s v =
    let s1 = (handle m s).0 in
    let first = (handle m s).1 in
    let w = waiting hour (handle_all ms s1).0 in
    ap (λ x. x ++ w) (of_hour-append hour first (handle_all ms s1).1)
    ∙ append_assoc (of_hour hour first) (of_hour hour (handle_all ms s1).1) w
    ∙ ap (λ x. of_hour hour first ++ x) (handle_all-waiting hour ms s1 (handle-IsBounded m s v))
    ∙ sym (append_assoc (of_hour hour first) (waiting hour s1) (all_rows hour ms))
    ∙ ap (λ x. x ++ all_rows hour ms) (handle-waiting hour m s v)
    ∙ append_assoc (waiting hour s) (rows_of hour m) (all_rows hour ms)

-- What a new buffer sends for an hour, followed by what it still holds for it, is the rows of this
-- hour in the order of their arrival: nothing is lost, doubled or filed under another hour,
-- whatever buffers are given back in between.
pub handle_all-by_hour :
    (write_threshold hour : ℕ) (ms : List Message)
    → of_hour hour (handle_all ms (buffer write_threshold)).1
        ++ waiting hour (handle_all ms (buffer write_threshold)).0
      ≡ all_rows hour ms
unfolding buffer
handle_all-by_hour write_threshold hour ms =
    handle_all-waiting hour ms (buffer write_threshold)
      (record { below = omega arith; cleared = refl })
    ∙ ap (λ x. x ++ all_rows hour ms) (if_same (0 == hour))
  where
    none_yet : Bytes
    none_yet = []

    if_same : (b : Bool) → (if b then none_yet else none_yet) ≡ none_yet
    if_same true = refl
    if_same false = refl
