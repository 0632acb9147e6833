-- ===== src/Analysis.antt =====
-- spoki/libspoki/src/analysis: sequences of IP identifiers, how they are classified, and whether a
-- trigger is consistent with its probes. The tests of that file on `double` are not modelled.
pub mod Ipid
pub mod Classify
pub mod Consistency
mod Tests
use spoki.Prelude.{ℕ, Bool, false, List}
use spoki.Net.{Packet}

-- analysis/classification.hpp
pub data Classification : Type 0 where
  unchecked constant random monotonic other : Classification

-- task.hpp
pub record Task : Type 0 where
  pub initial : Packet
  pub type : Classification
  pub consistent : Bool
  pub suspected_scanner : Bool
  pub last_anum : ℕ  -- uint32_t
  pub num_probes : ℕ  -- uint32_t
  pub packets : List Packet

-- the constructor of `task`
abbrev pub task : Packet → List Packet → Task
task initial packets = record {
  initial = initial;
  type = Classification.unchecked;
  consistent = false;
  suspected_scanner = false;
  last_anum = 0;
  num_probes = 0;
  packets = packets;
}
