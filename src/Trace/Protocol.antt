-- ===== src/Trace/Protocol.antt =====
-- What a packet carries: get_tcp_opts and extract_protocol of spoki/libspoki/src/trace/state.cpp, over
-- what libtrace's functions return. Numbers of a header are as it has them, in network order.
pub mod Options
mod Tests
use spoki.Prelude.{
  ℕ, ◌+◌, ◌*◌, ◌-◌, Bool, true, false, not, ◌&&◌, Option, none, some, List, [], ◌∷◌, ◌++◌, leb, ltb,
  ◌==◌, if◌then◌else◌, length, take, replicate,
}
use spoki.Net.{Payload, IcmpType, TcpOpt, UdpHdr, PacketData}
use spoki.Probe.Datagrams.{htons}

-- `to_value`; `other` is the value behind `timestamp`
abbrev pub to_value : TcpOpt → ℕ
to_value TcpOpt.end_of_list = 0
to_value TcpOpt.noop = 1
to_value TcpOpt.mss = 2
to_value TcpOpt.window_scale = 3
to_value TcpOpt.sack_permitted = 4
to_value TcpOpt.sack = 5
to_value TcpOpt.timestamp = 8
to_value TcpOpt.other = 9

-- `opts[x] = caf::none`
unfoldable pub add_option : TcpOpt → List (TcpOpt × Option ℕ) → List (TcpOpt × Option ℕ)
add_option x [] = (x, none) ∷ []
add_option x ((y, v) ∷ m) =
    if to_value y == to_value x then (y, none) ∷ m else (y, v) ∷ add_option x m

-- the key that the switch on `kind` enters
abbrev pub entered : ℕ → TcpOpt
entered kind =
    if kind == 2
    then TcpOpt.mss
    else if kind == 3
    then TcpOpt.window_scale
    else if kind == 4
    then TcpOpt.sack_permitted
    else if kind == 5
    then TcpOpt.sack
    else if kind == 8
    then TcpOpt.timestamp
    else TcpOpt.other

-- the loop, over the kinds that trace_get_next_option finds
unfoldable pub scan_options : List ℕ → List (TcpOpt × Option ℕ) → List (TcpOpt × Option ℕ)
unfolding add_option
scan_options [] opts = opts
scan_options (kind ∷ kinds) opts =
    let next = if kind == 1 then opts else add_option (entered kind) opts in
    let rest = scan_options kinds next in if kind == 0 then opts else rest

-- `doff` is the length of the header in words of four bytes
unfoldable pub get_tcp_opts : ℕ → List ℕ → List (TcpOpt × Option ℕ)
unfolding scan_options
get_tcp_opts doff kinds = if doff * 4 == 20 then [] else scan_options kinds []

-- the header of a UDP datagram
pub record RawUdp : Type 0 where
  pub source : ℕ
  pub dest : ℕ
  pub len : ℕ
  pub check : ℕ

-- what an ICMP message carries: how many bytes, and, if there are enough, the protocol of the packet in
-- them and the header behind its IP header
pub record Carried : Type 0 where
  pub remaining : ℕ
  pub protocol : ℕ
  pub udp : RawUdp

pub record RawTcp : Type 0 where
  pub seq : ℕ
  pub ack_seq : ℕ
  pub syn : Bool
  pub ack : Bool
  pub rst : Bool
  pub fin : Bool
  pub window : ℕ
  pub doff : ℕ
  pub kinds : List ℕ

-- the ports, the bytes from the payload on, if there is one, how many remain of them, and the length
-- of the payload of the packet
pub record Segment : Type 0 where
  pub sport : ℕ
  pub dport : ℕ
  pub bytes : Option Payload
  pub remaining : ℕ
  pub payload_length : ℕ

-- what trace_get_transport finds
pub data Transport : Type 0 where
  no_transport : Transport
  icmp : IcmpType → Option Carried → Transport
  tcp : RawTcp → Segment → Transport
  udp : Segment → Transport
  other : Transport

-- `std::min(remaining, trace_get_payload_length(pkt))`
abbrev pub len_of : Segment → ℕ
len_of s = if ltb s.payload_length s.remaining then s.payload_length else s.remaining

-- the vector of zeros, and the copy into it
unfoldable pub payload_of : Segment → Payload
payload_of s = elim s.bytes [ none ↦ replicate (len_of s) 0 | some bytes ↦ take (len_of s) bytes ]

unfoldable pub udp_hdr : RawUdp → UdpHdr
udp_hdr h = record {
  sport = htons h.source;
  dport = htons h.dest;
  length = htons h.len;
  chksum = htons h.check;
}

-- TRACE_IPPROTO_UDP
abbrev proto_udp : ℕ
proto_udp = 17

abbrev is_unreachable : IcmpType → Bool
is_unreachable IcmpType.dest_unreachable = true
is_unreachable _ = false

-- the header that is kept of a message that a destination is unreachable
unfoldable pub unreachable_of : IcmpType → Option Carried → Option UdpHdr
unfolding udp_hdr
unreachable_of type none = none
unreachable_of type (some c) =
    if is_unreachable type && leb 28 c.remaining && c.protocol == proto_udp
    then some (udp_hdr c.udp)
    else none

-- `ntohl` is a parameter
unfoldable pub extract_protocol : (ℕ → ℕ) → Transport → Option PacketData
unfolding unreachable_of payload_of get_tcp_opts
extract_protocol ntohl no_transport = none
extract_protocol ntohl (icmp type carried) =
    some (PacketData.icmp (record { type = type; unreachable = unreachable_of type carried }))
extract_protocol ntohl (tcp h s) = some (
    PacketData.tcp (record {
      sport = s.sport;
      dport = s.dport;
      snum = ntohl h.seq;
      anum = ntohl h.ack_seq;
      syn = h.syn;
      ack = h.ack;
      rst = h.rst;
      fin = h.fin;
      window_size = htons h.window;
      options = get_tcp_opts h.doff h.kinds;
      payload = payload_of s;
    }))
extract_protocol ntohl (udp s) =
    some (PacketData.udp (record { sport = s.sport; dport = s.dport; payload = payload_of s }))
extract_protocol ntohl other = none
