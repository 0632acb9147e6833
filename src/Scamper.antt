-- ===== src/Scamper.antt =====
-- spoki/libspoki/src/scamper: how probes reach the scamper daemon, and how its replies come back.
pub mod Text
pub mod Sockets
pub mod Driver
pub mod Decoder
pub mod Records
pub mod Broker
pub mod Manager
use spoki.Prelude.{ℕ, List}

-- a string, or a vector of bytes
abbrev pub Bytes : Type 0
Bytes = List ℕ
