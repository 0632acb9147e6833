-- ===== src/Logs/Collector/Tests.antt =====
-- Rows of three hours through the collector, and its theorems at them.
use spoki.Prelude.{◌≡◌, refl, List, [], ◌∷◌}
use spoki.Prelude.Eq.{nat_has_eq}
use spoki.Prelude.Assoc.{find, has, put}
use spoki.Logs.Collector.{CollectorState, plain, Message, row, buffered, collector, handle, write}
use spoki.Logs.Collector.Filing.{IsFiled, Filed, write-Filed}
use spoki.Logs.Collector.States.{handle_all, handle_all-IsFiled}

abbrev messages : List Message
messages =
    row (1 ∷ []) 7300 ∷ buffered (2 ∷ 10 ∷ []) 10900 ∷ row (3 ∷ []) 7200 ∷ row (4 ∷ []) 0 ∷ []

abbrev end_state : CollectorState
end_state = handle_all messages (collector (9 ∷ 10 ∷ []) [])

-- each hour has its file, with the header in front; the row that is too old is an error
two_files :
    end_state.disk ≡ (7200, 9 ∷ 10 ∷ 1 ∷ 10 ∷ 3 ∷ 10 ∷ []) ∷ (10800, 9 ∷ 10 ∷ 2 ∷ 10 ∷ []) ∷ []
unfolding handle_all handle collector find has put
two_files = refl

-- the file of the last hour that a plain row creates has no header
missing_header :
    (handle_all (row (1 ∷ []) 10900 ∷ row (3 ∷ []) 7200 ∷ []) (collector (9 ∷ 10 ∷ []) [])).disk
    ≡ (10800, 9 ∷ 10 ∷ 1 ∷ 10 ∷ []) ∷ (7200, 3 ∷ 10 ∷ []) ∷ []
unfolding handle_all handle collector find has put
missing_header = refl

handle_all-IsFiled_example : IsFiled end_state
handle_all-IsFiled_example = handle_all-IsFiled messages (9 ∷ 10 ∷ []) []

write-Filed_example :
    Filed plain (5 ∷ 10 ∷ []) 10801 end_state (write plain (5 ∷ 10 ∷ []) 10801 end_state)
write-Filed_example = write-Filed plain (5 ∷ 10 ∷ []) 10801 end_state handle_all-IsFiled_example
