-- ===== src/Probe.antt =====
-- spoki/libspoki/src/probe: probe requests, and the commands for scamper that they become.
pub mod Commands
pub mod Datagrams
pub mod UdpProber
use spoki.Prelude.{ℕ, []}
use spoki.Net.{Address, Payload}

-- probe/method.hpp
pub data Method : Type 0 where
  icmp_echo icmp_time tcp_syn tcp_ack tcp_ack_sport tcp_synack tcp_rst udp udp_dport : Method

-- probe/request.hpp
pub record Request : Type 0 where
  pub probe_method : Method
  pub saddr : Address
  pub daddr : Address
  pub sport : ℕ  -- uint16_t
  pub dport : ℕ  -- uint16_t
  pub snum : ℕ  -- uint32_t
  pub anum : ℕ  -- uint32_t
  pub user_id : ℕ  -- uint32_t
  pub payload : Payload
  pub num_probes : ℕ  -- uint16_t

-- `probe::request req{}`: every member is value-initialised
abbrev pub empty_request : Request
empty_request = record {
  probe_method = Method.icmp_echo;
  saddr = 0;
  daddr = 0;
  sport = 0;
  dport = 0;
  snum = 0;
  anum = 0;
  user_id = 0;
  payload = [];
  num_probes = 0;
}
