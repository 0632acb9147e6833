-- ===== src/Logs/Buffer/Tests.antt =====
-- Rows of two hours through a small buffer, and the buffer's theorems at them.
use spoki.Prelude.{◌≡◌, refl, List, [], ◌∷◌, ◌++◌, arith}
use spoki.Logs.Buffer.{Message, entry, returned, buffer, handle, handle_all}
use spoki.Logs.Buffer.Hours.{
  of_hour, waiting, all_rows, IsBounded, handle-IsBounded, handle_all-by_hour,
}

abbrev messages : List Message
messages =
    entry (1 ∷ 2 ∷ []) 10
    ∷ returned (7 ∷ [])
    ∷ entry (3 ∷ []) 3700
    ∷ entry (4 ∷ []) 20
    ∷ entry (5 ∷ 6 ∷ []) 30
    ∷ []

-- the turn of the hour sends twice, the threshold of four bytes once
sent_chunks :
    (handle_all messages (buffer 4)).1
    ≡ (1 ∷ 2 ∷ 10 ∷ [], 0) ∷ (3 ∷ 10 ∷ [], 3600) ∷ (4 ∷ 10 ∷ 5 ∷ 6 ∷ 10 ∷ [], 0) ∷ []
unfolding handle_all buffer
sent_chunks = refl

handle_all-by_hour_example :
    of_hour 0 (handle_all messages (buffer 4)).1 ++ waiting 0 (handle_all messages (buffer 4)).0
    ≡ all_rows 0 messages
handle_all-by_hour_example = handle_all-by_hour 4 0 messages

empty-IsBounded : IsBounded (buffer 4)
unfolding buffer
empty-IsBounded = record { below = omega arith; cleared = refl }

handle-IsBounded_example : IsBounded (handle (entry (1 ∷ 2 ∷ []) 10) (buffer 4)).0
handle-IsBounded_example = handle-IsBounded (entry (1 ∷ 2 ∷ []) 10) (buffer 4) empty-IsBounded
