-- ===== src/Net.antt =====
-- The packets that Spoki observes: spoki/libspoki/spoki/packet.hpp and the protocol headers of
-- spoki/libspoki/spoki/net. An address is the number of its 32 bits, a payload its bytes.
pub mod Keys
use spoki.Prelude.{ℕ, ◌/◌, Bool, Option, List}

-- The bits of an address, its first byte in the lowest eight bits.
abbrev pub Address : Type 0
Address = ℕ

abbrev pub Payload : Type 0
Payload = List ℕ

-- net/protocol.hpp
pub data Protocol : Type 0 where
  icmp tcp udp other : Protocol

-- net/icmp_type.hpp
pub data IcmpType : Type 0 where
  echo_reply dest_unreachable source_quench redirect_message echo_request : IcmpType
  router_advertisement router_solicitation time_exceeded bad_ip_header timestamp : IcmpType
  timestamp_reply information_request information_reply addr_mark_request : IcmpType
  addr_mark_reply extended_echo_request extended_echo_reply other : IcmpType

-- net/tcp_opt.hpp
pub data TcpOpt : Type 0 where
  end_of_list noop mss window_scale sack_permitted sack timestamp other : TcpOpt

-- net/udp_hdr.hpp
pub record UdpHdr : Type 0 where
  pub sport : ℕ
  pub dport : ℕ
  pub length : ℕ
  pub chksum : ℕ

-- net/icmp.hpp
pub record Icmp : Type 0 where
  pub type : IcmpType
  pub unreachable : Option UdpHdr

-- net/tcp.hpp
pub record Tcp : Type 0 where
  pub sport : ℕ  -- uint16_t
  pub dport : ℕ  -- uint16_t
  pub snum : ℕ  -- uint32_t
  pub anum : ℕ  -- uint32_t
  pub syn : Bool
  pub ack : Bool
  pub rst : Bool
  pub fin : Bool
  pub window_size : ℕ  -- uint16_t
  pub options : List (TcpOpt × Option ℕ)
  pub payload : Payload

-- net/udp.hpp
pub record Udp : Type 0 where
  pub sport : ℕ
  pub dport : ℕ
  pub payload : Payload

-- `packet::data`, a `caf::variant<net::icmp, net::tcp, net::udp>`
pub data PacketData : Type 0 where
  icmp : Icmp → PacketData
  tcp : Tcp → PacketData
  udp : Udp → PacketData

-- packet.hpp; `observed` is counted in nanoseconds since the epoch
pub record Packet : Type 0 where
  pub saddr : Address
  pub daddr : Address
  pub ipid : ℕ  -- uint16_t
  pub ttl : ℕ  -- uint8_t
  pub observed : ℕ
  pub proto : PacketData

-- `packet::unix_ts`, in seconds
unfoldable pub unix_ts : Packet → ℕ
unix_ts p = p.observed / 1000000000

-- target_key.hpp
pub record TargetKey : Type 0 where
  pub saddr : Address
  pub is_scanner_like : Bool

-- net/endpoint.hpp
pub record Endpoint : Type 0 where
  pub daddr : Address
  pub dport : ℕ

-- net/five_tuple.hpp
pub record FiveTuple : Type 0 where
  pub proto : Protocol
  pub saddr : Address
  pub daddr : Address
  pub sport : ℕ
  pub dport : ℕ
