-- ===== src/Cache.antt =====
-- spoki/libspoki/src/cache: the stores of probing results, and the shard that reacts to packets.
pub mod Store
pub mod RotatingStore
pub mod Shard
use spoki.Prelude.{ℕ, Bool, true, false, ◌&&◌, ◌==◌}

-- cache/entry.hpp; `ts` counts from the epoch
pub record Entry : Type 0 where
  pub ts : ℕ
  pub consistent : Bool

-- the default of `operator[]`, `entry{timestamp{no_duration}, false}`
abbrev pub default_entry : Entry
default_entry = record { ts = 0; consistent = false }
