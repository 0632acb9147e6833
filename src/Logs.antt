-- ===== src/Logs.antt =====
-- The logs: `collector_state` and `buffer_state` under spoki/libspoki, and what they share.
pub mod Collector
pub mod Buffer
pub mod Entries
pub mod Replies
use spoki.Prelude.{ℕ, ◌-◌, ◌%◌, List}

abbrev pub Bytes : Type 0
Bytes = List ℕ

abbrev pub secs_per_hour : ℕ
secs_per_hour = 3600

abbrev pub align_to_hour : ℕ → ℕ
align_to_hour ts = ts - ts % secs_per_hour
